-- ===== src/SlavePartition.antt =====
-- `SyncSlavePartition` of include/pika_rm.h and src/pika_rm.cc: what a slave knows of its connection
-- to the master of a partition.
use pika.Prelude.{ℕ, ◌+◌, ◌*◌, ◌%◌, ◌^◌, Bool, true, false, ◌&&◌, not, List, [], ltb, if◌then◌else◌}
use pika.RmNode.{RmNode, no_node}

-- `ReplState` of include/pika_define.h.
pub data ReplState : Type 0 where
  no_connect try_connect try_db_sync wait_db_sync wait_reply connected error db_no_connect :
      ReplState

abbrev pub is_no_connect : ReplState → Bool
is_no_connect no_connect = true
is_no_connect _ = false

abbrev pub is_db_no_connect : ReplState → Bool
is_db_no_connect db_no_connect = true
is_db_no_connect _ = false

abbrev pub is_error : ReplState → Bool
is_error error = true
is_error _ = false

abbrev pub is_connected : ReplState → Bool
is_connected connected = true
is_connected _ = false

abbrev pub is_wait_db_sync : ReplState → Bool
is_wait_db_sync wait_db_sync = true
is_wait_db_sync _ = false

-- `kRecvKeepAliveTimeout`.
abbrev pub recv_keep_alive_timeout : ℕ
recv_keep_alive_timeout = 20 * 1000000

pub record SyncSlavePartition : Type 0 where
  pub m_info : RmNode
  pub repl_state : ReplState
  pub local_ip : List ℕ

-- The constructor, at time `now`.
unfoldable pub new_slave_partition : ℕ → SyncSlavePartition
new_slave_partition now = record {
  m_info = record no_node { last_recv_time = now };
  repl_state = no_connect;
  local_ip = [];
}

unfoldable pub deactivate : SyncSlavePartition → SyncSlavePartition
deactivate s = record s { m_info = no_node; repl_state = no_connect }

unfoldable pub set_repl_state : SyncSlavePartition → ReplState → SyncSlavePartition
unfolding deactivate
set_repl_state s state =
    if is_no_connect state then deactivate s else record s { repl_state = state }

unfoldable pub set_last_recv_time : SyncSlavePartition → ℕ → SyncSlavePartition
set_last_recv_time s time = record s { m_info = record s.m_info { last_recv_time = time } }

-- `CheckSyncTimeout`, which always returns OK: the partition, and whether the loop of the server over
-- the partitions is switched on.
unfoldable pub check_sync_timeout : SyncSlavePartition → ℕ → SyncSlavePartition × Bool
check_sync_timeout s now =
    if not (is_wait_db_sync s.repl_state) && not (is_connected s.repl_state)
    then (s, false)
    else if ltb ((s.m_info.last_recv_time + recv_keep_alive_timeout) % 2 ^ 64) now
    then (record s { repl_state = try_connect }, true)
    else (s, false)

unfoldable pub activate : SyncSlavePartition → RmNode → ReplState → ℕ → SyncSlavePartition
activate s master state now = record s {
  m_info = record master { last_recv_time = now };
  repl_state = state;
}

unfoldable pub set_master_session_id : SyncSlavePartition → ℕ → SyncSlavePartition
set_master_session_id s id = record s { m_info = record s.m_info { session_id = id } }

unfoldable pub set_local_ip : SyncSlavePartition → List ℕ → SyncSlavePartition
set_local_ip s ip = record s { local_ip = ip }
