-- ===== src/Tests.antt =====
-- The program's parts on concrete data.
pub mod Files
pub mod Log
pub mod Items
pub mod Slaves
pub mod Memory
pub mod Partition
pub mod Masters
pub mod Proposal
pub mod Queues
pub mod Replicas
pub mod Seeking
pub mod Negotiations
pub mod Truncation
pub mod Purging
pub mod Sending
