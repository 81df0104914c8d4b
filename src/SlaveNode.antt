-- ===== src/SlaveNode.antt =====
-- `SlaveNode` of include/pika_slave_node.h and src/pika_slave_node.cc: what a master knows of one
-- slave of a partition.
pub mod Acks
use pika.Prelude.{ℕ, ◌≡◌, Bool, true, false, List, Option, none, some, ◌==◌, if◌then◌else◌}
use pika.Env.{Env}
use pika.LogOffset.{LogOffset, log_origin}
use pika.LogOffset
use pika.Status.{Status, ok, corruption}
use pika.SyncWindow.{SyncWindow, SyncWinItem, new_item, empty_window}
use pika.SyncWindow
use pika.BinlogReader.{Cursor}

pub data SlaveState : Type 0 where
  slave_not_sync slave_db_sync slave_binlog_sync : SlaveState

pub data BinlogSyncState : Type 0 where
  not_sync read_from_cache read_from_file : BinlogSyncState

-- `slave_state == kSlaveBinlogSync` and `slave_state == kSlaveDbSync`.
abbrev pub is_binlog_sync : SlaveState → Bool
is_binlog_sync slave_binlog_sync = true
is_binlog_sync _ = false

abbrev pub is_db_sync : SlaveState → Bool
is_db_sync slave_db_sync = true
is_db_sync _ = false

module _ (env : Env) where
  -- The members of `RmNode` and of `SlaveNode`; `none` is a null `binlog_reader`.
  pub record SlaveNode : Type 0 where
    pub ip : List ℕ
    pub port : ℕ
    pub table_name : List ℕ
    pub partition_id : ℕ
    pub session_id : ℕ
    pub last_send_time : ℕ
    pub last_recv_time : ℕ
    pub slave_state : SlaveState
    pub b_state : BinlogSyncState
    pub sync_win : SyncWindow
    pub sent_offset : LogOffset
    pub acked_offset : LogOffset
    pub binlog_reader : Option (Cursor env)

  unfoldable pub new_slave_node : List ℕ → ℕ → List ℕ → ℕ → ℕ → SlaveNode
  new_slave_node ip port table_name partition_id session_id = record {
    ip = ip;
    port = port;
    table_name = table_name;
    partition_id = partition_id;
    session_id = session_id;
    last_send_time = 0;
    last_recv_time = 0;
    slave_state = slave_not_sync;
    b_state = not_sync;
    sync_win = empty_window;
    sent_offset = log_origin;
    acked_offset = log_origin;
    binlog_reader = none;
  }

  -- What `Update` does with the result of the window's `Update`.
  unfoldable pub record_ack : SlaveNode → SyncWindow.Updated → Status × SlaveNode × LogOffset
  record_ack n (res, win, updated) =
      let moved = record n { sync_win = win } in
      if res
      then (if LogOffset.eq updated log_origin
          then (ok, moved, n.acked_offset)
          else (ok, record moved { acked_offset = updated }, updated))
      else (corruption, moved, updated)

  -- `Update`: the status, the node and `*updated_offset`, from its value before.
  unfoldable pub update :
      SlaveNode → LogOffset → LogOffset → LogOffset → Status × SlaveNode × LogOffset
  unfolding record_ack
  update n start end updated_offset =
      if is_binlog_sync n.slave_state
      then record_ack n
          (SyncWindow.update n.sync_win (new_item start 0) (new_item end 0) log_origin)
      else (corruption, n, updated_offset)

  -- The part of `ReadBinlogFileToWq` that sends one binlog of `size` bytes, at time `now`.
  unfoldable pub send : SlaveNode → LogOffset → ℕ → ℕ → SlaveNode
  send n offset size now = record n {
    sync_win = SyncWindow.push n.sync_win (new_item offset size);
    last_send_time = now;
    sent_offset = offset;
  }

  -- The part of `ActivateSlaveBinlogSync` that moves the node, once its reader was sought.
  unfoldable pub activate_binlog_sync : SlaveNode → LogOffset → Cursor env → SlaveNode
  activate_binlog_sync n offset reader = record n {
    slave_state = slave_binlog_sync;
    sent_offset = offset;
    acked_offset = offset;
    binlog_reader = some reader;
    b_state = read_from_file;
  }
