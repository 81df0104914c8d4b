-- ===== src/Lib.antt =====
-- Pika: a key-value server that speaks the Redis protocol. This library models the part of it that
-- decides whether data is lost: the binary log of a partition, and its replication.
--
-- How the parts interact. A command that writes is proposed to the `ConsensusCoordinator` of its
-- partition, which gives it a term and an index, encodes it as a binlog item and puts the item into
-- the `Binlog`. A `PikaBinlogReader` per slave reads the items back; the master's `SlaveNode` keeps
-- a window of what was sent, and takes the slave's acknowledgements. `SyncProgress` computes from
-- all of them the offset that a quorum has reached, which becomes the committed index. What is
-- committed leaves the memory log, is scheduled, and is applied; `Context` keeps how far. What a
-- reader gave waits in the write queues of the `PikaReplicaManager`, which also leads the partitions
-- that are slaves from their first request to a connection.
--
-- The files, and the code each is about (paths from the repository's root):
--   BinlogOffset, LogOffset   the positions of include/pika_define.h and their order
--   RecordType, Binlog        src/pika_binlog.cc: `Produce`, `Put` and the manifest; Binlog/Layout is
--                             the format of a file, stated apart from the code
--   BinlogReset               src/pika_binlog.cc: `AppendPadding`, `SetProducerStatus`
--   BinlogReader              src/pika_binlog_reader.cc: `ReadPhysicalRecord`, `Consume`, `Get`
--   Transverter               src/pika_binlog_transverter.cc: the items' binary form
--   SyncWindow, SlaveNode     src/pika_slave_node.cc, and the parts of src/pika_rm.cc that send and
--                             activate
--   SyncProgress, MemLog,     src/pika_consensus.cc
--   Context, Coordinator
--   Negotiate                 src/pika_consensus.cc: what a leader answers to the last log of a
--                             follower, and what the follower cuts off then (Negotiate/Follower)
--   StableLog                 src/pika_stable_log.cc: the truncation of a log, and in
--                             StableLog/Purge the deletion of its old files
--   SyncMaster                src/pika_rm.cc: the slaves and the old files of a master's partition
--   BinlogSeek                src/pika_binlog_reader.cc: `Seek`, `GetNext`
--   RmNode, PartitionTable    the nodes, tasks and partitions of include/pika_define.h, and maps by
--                             partition
--   WriteQueue                src/pika_rm.cc: the queues of binlogs towards the slaves
--   BinlogSender              src/pika_rm.cc: from the log into the window and the queue of a slave
--   SlavePartition            src/pika_rm.cc: a partition as a slave, with its connection's state
--   MasterSlots               include/pika_rm.h: `FuckShaBiPartitionMap`, the masters of db0 to db7
--   ReplicaManager            src/pika_rm.cc: all partitions of a server; ReplicaManager/Connect has
--                             the requests to masters, ReplicaManager/DbSync the state machine and
--                             `TryUpdateMasterOffset` of src/pika_partition.cc
--   TrySync                   src/pika_repl_server_conn.cc: the answer to a slave that asks to go on
--   Status, Slash, Env        what the program takes from the slash library, which is a submodule:
--                             status codes, integer coding, files. `Slash`, `Env` and the `Disk` of
--                             StableLog are parameters, with the documented behaviour as laws
--   LittleEndian              `memcpy` of integers into the mapped manifest and context
--   Prelude, Tests            shared helpers, and the theorems on concrete data
--
-- How state corresponds. A class is a record of its members; a method is a function from the state
-- before to the state after, with the status and the out parameters as further components. An out
-- parameter that may stay as it was is passed in. Machine integers are natural numbers, with the
-- wrap-around written out where the code computes on them. Locks are left out: a method is one step,
-- as it is under its lock. `std::unordered_map` is a list of pairs. A `std::shared_ptr` into a map is
-- the entry of that map. The time that the writer reads is an argument.
--
-- Fuel. `Produce` runs on the item's length plus two rounds: a round takes a byte, but for one that
-- closes a block, and the last. `Consume` runs on one round more than the bytes that the file still
-- holds: a round that goes on takes a header. `AppendPadding` runs on one round more than the bytes
-- asked for: a round takes a header. `GetNext` runs on one round more than the bytes that the file
-- still holds, and `Seek` on one more than a block has: both take a header each round. `Get` runs on a
-- number of files that is its argument. `FindBinlogFileNum` runs on two rounds more than the files
-- between the least and the greatest, which looks at each once and turns back once; the range form of
-- `GetBinlogOffset` and `UpdateFirstOffset` run on a number of items that is an argument.
-- `ReadBinlogFileToWq` runs on the room of the window, as the code does.
--
-- The network. What the other side answers is an argument: a function of the request or, for the
-- calls that send binlogs, of the calls made before too. `ConsumeWriteQueue` gives the calls that it
-- makes. The masters of a manager are in the eight slots of `FuckShaBiPartitionMap`.
-- Its assertions are taken to be on: where one does not hold, the functions that add, remove or ask
-- for a partition give `none`. The steps of a partition that the manager has are those of a
-- partition that was added, for which they hold.
--
-- Not modelled: the commands and the storage engine behind them; sockets and messages, threads,
-- configuration, cluster and slot administration.
pub mod Prelude
pub mod BinlogOffset
pub mod LogOffset
pub mod SyncWindow
pub mod Status
pub mod Slash
pub mod LittleEndian
pub mod Transverter
pub mod Env
pub mod RecordType
pub mod Binlog
pub mod BinlogReader
pub mod BinlogSeek
pub mod SlaveNode
pub mod SyncProgress
pub mod MemLog
pub mod Context
pub mod BinlogReset
pub mod Coordinator
pub mod SyncMaster
pub mod RmNode
pub mod WriteQueue
pub mod PartitionTable
pub mod SlavePartition
pub mod MasterSlots
pub mod ReplicaManager
pub mod TrySync
pub mod Negotiate
pub mod StableLog
pub mod BinlogSender
pub mod Tests
