-- ===== src/SyncMaster.antt =====
-- `SyncMasterPartition` of include/pika_rm.h and src/pika_rm.cc: what a master does with the slaves
-- of a partition and with its old log files. The slaves are those of the coordinator's
-- `SyncProgress`, the log is its `Binlog`.
pub mod Purge
pub mod Timeout
use pika.Prelude.{
  ℕ, ◌+◌, ◌-◌, ◌*◌, ◌%◌, ◌^◌, Bool, true, false, ◌&&◌, ◌||◌, not, List, [], ◌∷◌, Option, none, some,
  ltb, leb, ◌==◌, if◌then◌else◌,
}
use pika.Prelude.Table.{is_some, erase}
use pika.Env.{Env}
use pika.Status.{Status, ok, not_found, corruption, is_ok}
use pika.LogOffset
use pika.BinlogOffset.{BinlogOffset}
use pika.Binlog.{Binlog, get_producer_status}
use pika.SlaveNode.{SlaveNode, SlaveState, slave_db_sync, is_binlog_sync, is_db_sync}
use pika.WriteQueue.{WriteQueues, drop_item_in_write_queue}
use pika.SyncProgress.{SyncProgress, slave_key, get_slave_node, store_slave_node, remove_slave_node}

abbrev pub recv_keep_alive_timeout : ℕ
recv_keep_alive_timeout = 20 * 1000000

abbrev pub send_keep_alive_timeout : ℕ
send_keep_alive_timeout = 2 * 1000000

module _ (env : Env) where
  unfoldable pub check_slave_node_exist : SyncProgress env → List ℕ → ℕ → Bool
  check_slave_node_exist s ip port = is_some (get_slave_node env s ip port)

  -- The methods that lock a slave and read or write a member: `NotFound` without one.
  unfoldable pub get_slave_node_session : SyncProgress env → List ℕ → ℕ → ℕ → Status × ℕ
  get_slave_node_session s ip port session = elim (get_slave_node env s ip port) [
    | none ↦ (not_found, session)
    | some n ↦ (ok, n.session_id)
  ]

  unfoldable pub activate_slave_db_sync : SyncProgress env → List ℕ → ℕ → Status × SyncProgress env
  activate_slave_db_sync s ip port = elim (get_slave_node env s ip port) [
    | none ↦ (not_found, s)
    | some n ↦ (ok, store_slave_node env s ip port (record n { slave_state = slave_db_sync }))
  ]

  -- The status, `*sent_offset` and `*acked_offset`, from their values before.
  unfoldable pub get_slave_sync_binlog_info :
      SyncProgress env
      → List ℕ
      → ℕ
      → BinlogOffset × BinlogOffset
      → Status × (BinlogOffset × BinlogOffset)
  get_slave_sync_binlog_info s ip port before = elim (get_slave_node env s ip port) [
    | none ↦ (not_found, before)
    | some n ↦ (ok, (n.sent_offset.b_offset, n.acked_offset.b_offset))
  ]

  unfoldable pub get_slave_state : SyncProgress env → List ℕ → ℕ → SlaveState → Status × SlaveState
  get_slave_state s ip port before = elim (get_slave_node env s ip port) [
    | none ↦ (not_found, before)
    | some n ↦ (ok, n.slave_state)
  ]

  unfoldable pub set_last_send_time : SyncProgress env → List ℕ → ℕ → ℕ → Status × SyncProgress env
  set_last_send_time s ip port time = elim (get_slave_node env s ip port) [
    | none ↦ (not_found, s)
    | some n ↦ (ok, store_slave_node env s ip port (record n { last_send_time = time }))
  ]

  unfoldable pub get_last_send_time : SyncProgress env → List ℕ → ℕ → ℕ → Status × ℕ
  get_last_send_time s ip port time = elim (get_slave_node env s ip port) [
    | none ↦ (not_found, time)
    | some n ↦ (ok, n.last_send_time)
  ]

  unfoldable pub set_last_recv_time : SyncProgress env → List ℕ → ℕ → ℕ → Status × SyncProgress env
  set_last_recv_time s ip port time = elim (get_slave_node env s ip port) [
    | none ↦ (not_found, s)
    | some n ↦ (ok, store_slave_node env s ip port (record n { last_recv_time = time }))
  ]

  unfoldable pub get_last_recv_time : SyncProgress env → List ℕ → ℕ → ℕ → Status × ℕ
  get_last_recv_time s ip port time = elim (get_slave_node env s ip port) [
    | none ↦ (not_found, time)
    | some n ↦ (ok, n.last_recv_time)
  ]

  abbrev pub Slaves : Type 0
  Slaves = List (List ℕ × SlaveNode env)

  -- The loop of `GetSafetyPurgeBinlog`; `none` is a loop that ended without success.
  unfoldable pub purge_limit : Slaves → ℕ → Option ℕ
  purge_limit [] purge_max = some purge_max
  purge_limit ((k, n) ∷ slaves) purge_max =
      let before = n.acked_offset.b_offset.filenum - 1 in
      let rest = purge_limit slaves (if ltb before purge_max then before else purge_max) in
      if is_binlog_sync n.slave_state && ltb 0 n.acked_offset.b_offset.filenum then rest else none

  -- The status and the number in `*safety_purge`; `none` stands for the text "none" and, if the
  -- status is not OK, for a text that was left alone.
  unfoldable pub get_safety_purge_binlog : Binlog env → SyncProgress env → Status × Option ℕ
  get_safety_purge_binlog b s =
      let (status, v) = get_producer_status env b in
      if is_ok status
      then (ok, if leb 10 v.pro_num then purge_limit s.slaves (v.pro_num - 10) else none)
      else (status, none)

  -- The loop of `BinlogCloudPurge`: whether no slave needs the file.
  unfoldable pub unneeded : Slaves → ℕ → Bool
  unneeded [] index = true
  unneeded ((k, n) ∷ slaves) index =
      let rest = unneeded slaves index in
      if is_db_sync n.slave_state
      then false
      else if is_binlog_sync n.slave_state && leb n.acked_offset.b_offset.filenum index
      then false
      else rest

  -- `filenum - 10` is computed on 32 bits.
  unfoldable pub binlog_cloud_purge : Binlog env → SyncProgress env → ℕ → Bool
  binlog_cloud_purge b s index =
      let (status, v) = get_producer_status env b in
      if is_ok status
      then (if ltb ((v.pro_num + 2 ^ 32 - 10) % 2 ^ 32) index
          then false
          else unneeded s.slaves index)
      else false

  -- The loop of `CheckSyncTimeout`: its status, the slaves and `to_del`. `ping` is what sending an
  -- empty binlog to an address answers.
  unfoldable pub check_slaves :
      (List ℕ → ℕ → Status) → ℕ → Slaves → Status × Slaves × List (List ℕ × ℕ)
  check_slaves ping now [] = (ok, [], [])
  check_slaves ping now ((k, n) ∷ slaves) =
      let (s, rest, to_del) = check_slaves ping now slaves in
      let pinged = record n { last_send_time = now } in
      if ltb ((n.last_recv_time + recv_keep_alive_timeout) % 2 ^ 64) now
      then (s, (k, n) ∷ rest, (n.ip, n.port) ∷ to_del)
      else if ltb ((n.last_send_time + send_keep_alive_timeout) % 2 ^ 64) now
          && LogOffset.eq n.sent_offset n.acked_offset
      then (if is_ok (ping n.ip n.port)
          then (s, (k, pinged) ∷ rest, to_del)
          else (corruption, (k, pinged) ∷ slaves, []))
      else (s, (k, n) ∷ rest, to_del)

  unfoldable pub remove_nodes : SyncProgress env → List (List ℕ × ℕ) → SyncProgress env
  remove_nodes s [] = s
  remove_nodes s ((ip, port) ∷ nodes) = remove_nodes (remove_slave_node env s ip port).1 nodes

  -- The write queues of the manager without those of the nodes.
  unfoldable pub drop_nodes : WriteQueues → List (List ℕ × ℕ) → WriteQueues
  drop_nodes w [] = w
  drop_nodes w ((ip, port) ∷ nodes) = drop_nodes (drop_item_in_write_queue ip port w) nodes

  -- The status, the slaves and the write queues.
  unfoldable pub check_sync_timeout :
      (List ℕ → ℕ → Status)
      → SyncProgress env
      → WriteQueues
      → ℕ
      → Status × SyncProgress env × WriteQueues
  check_sync_timeout ping s w now =
      let (status, slaves, to_del) = check_slaves ping now s.slaves in
      let checked = record s { slaves = slaves } in
      if is_ok status
      then (ok, remove_nodes checked to_del, drop_nodes w to_del)
      else (status, checked, w)
