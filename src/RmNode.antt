-- ===== src/RmNode.antt =====
-- `PartitionInfo`, `RmNode`, `BinlogChip` and `WriteTask` of include/pika_define.h.
use pika.Prelude.{ℕ, Bool, ◌&&◌, List, [], ◌==◌, bytes_eq}
use pika.LogOffset.{LogOffset}

pub record PartitionInfo : Type 0 where
  pub table_name : List ℕ
  pub partition_id : ℕ

-- `operator==`.
unfoldable pub eq : PartitionInfo → PartitionInfo → Bool
eq p q = bytes_eq p.table_name q.table_name && (p.partition_id == q.partition_id)

-- A node without an address: the member functions that only read or write a member are the fields.
pub record RmNode : Type 0 where
  pub ip : List ℕ
  pub port : ℕ
  pub partition_info : PartitionInfo
  pub session_id : ℕ
  pub last_send_time : ℕ
  pub last_recv_time : ℕ

-- `RmNode()`.
abbrev pub no_node : RmNode
no_node = record {
  ip = [];
  port = 0;
  partition_info = record { table_name = []; partition_id = 0 };
  session_id = 0;
  last_send_time = 0;
  last_recv_time = 0;
}

-- `RmNode(ip, port, table_name, partition_id, session_id)`.
abbrev pub new_node : List ℕ → ℕ → PartitionInfo → ℕ → RmNode
new_node ip port p session_id = record {
  ip = ip;
  port = port;
  partition_info = p;
  session_id = session_id;
  last_send_time = 0;
  last_recv_time = 0;
}

pub record BinlogChip : Type 0 where
  pub offset : LogOffset
  pub binlog : List ℕ

pub record WriteTask : Type 0 where
  pub rm_node : RmNode
  pub binlog_chip : BinlogChip
  pub prev_offset : LogOffset
