-- ===== src/Tests/Masters.antt =====
-- The slaves of a master and its old files.
use pika.Prelude.{ℕ, ◌+◌, ◌≡◌, ◌≤◌, refl, List, [], ◌∷◌, none, true, arith}
use pika.Status.{Status, ok}
use pika.BinlogOffset
use pika.LogOffset.{LogOffset, log_origin}
use pika.LogOffset
use pika.Binlog.{Binlog, get_producer_status}
use pika.SyncWindow.{empty_window}
use pika.SlaveNode.{SlaveNode, slave_binlog_sync, read_from_file}
use pika.SyncProgress.{SyncProgress, slave_key}
use pika.SyncMaster.{unneeded, binlog_cloud_purge, check_sync_timeout, check_slaves}
use pika.SyncMaster.Purge.{AllPast, binlog_cloud_purge_safe, binlog_cloud_purge_unguarded}
use pika.SyncMaster.Timeout.{AllHeard, check_sync_timeout-AllHeard}
use pika.Tests.Files.{plain}
use pika.Tests.Log.{near_end}

-- A slave that has acknowledged file 15 and was heard from at second 30.
abbrev slave : SlaveNode plain
slave = record {
  ip = 49 ∷ [];
  port = 9221;
  table_name = [];
  partition_id = 0;
  session_id = 1;
  last_send_time = 30000000;
  last_recv_time = 30000000;
  slave_state = slave_binlog_sync;
  b_state = read_from_file;
  sync_win = empty_window;
  sent_offset = record log_origin { b_offset = record { filenum = 15; offset = 9 } };
  acked_offset = record log_origin { b_offset = record { filenum = 15; offset = 9 } };
  binlog_reader = none;
}

abbrev silent : SlaveNode plain
silent = record slave { port = 9222; last_recv_time = 10000000 }

abbrev pub slaves : SyncProgress plain
slaves = record {
  slaves = (slave_key (49 ∷ []) 9221, slave) ∷ (slave_key (49 ∷ []) 9222, silent) ∷ [];
  match_index = [];
}

abbrev pub long_log : Binlog plain
long_log = record near_end { version = record (near_end.version) { pro_num = 20 } }

binlog_cloud_purge_safe_example : (10 + 10 ≤ 20) × AllPast plain 10 slaves.slaves
unfolding binlog_cloud_purge get_producer_status unneeded
binlog_cloud_purge_safe_example =
    binlog_cloud_purge_safe plain long_log slaves 10 (omega arith) (omega arith) refl

binlog_cloud_purge_unguarded_example :
    binlog_cloud_purge plain near_end (record { slaves = []; match_index = [] }) 3 ≡ true
binlog_cloud_purge_unguarded_example =
    binlog_cloud_purge_unguarded plain near_end (record { slaves = []; match_index = [] }) refl
      (omega arith) refl

abbrev ping : List ℕ → ℕ → Status
ping ip port = ok

check_sync_timeout-AllHeard_example :
    AllHeard plain 40000000 (check_sync_timeout plain ping slaves [] 40000000).1.slaves
unfolding check_sync_timeout check_slaves LogOffset.eq BinlogOffset.eq
check_sync_timeout-AllHeard_example =
    check_sync_timeout-AllHeard plain ping slaves [] 40000000 (refl, (refl, tt)) refl
