-- ===== src/ReplicaManager/Connect.antt =====
-- How a slave asks a master to synchronise a partition: the requests and time-outs of
-- `PikaReplicaManager` in src/pika_rm.cc.
use pika.Prelude.{ℕ, Bool, false, ◌&&◌, ◌||◌, not, List, [], ◌∷◌, Option, none, some, if◌then◌else◌}
use pika.Env.{Env}
use pika.Status.{Status, ok, not_found, corruption, is_ok}
use pika.Transverter.{BinlogItem}
use pika.BinlogOffset.{BinlogOffset}
use pika.LogOffset.{LogOffset}
use pika.Binlog.{get_producer_status}
use pika.SyncMaster
use pika.WriteQueue.{WriteQueues}
use pika.RmNode.{PartitionInfo, RmNode}
use pika.PartitionTable.{find, assign}
use pika.SlavePartition.{
  SyncSlavePartition, ReplState, wait_reply, error, db_no_connect, is_no_connect, is_db_no_connect,
  set_repl_state, activate, set_local_ip,
}
use pika.SlavePartition
use pika.ReplicaManager.{
  Master, ReplicaManager, InfoFile, master_of, get_sync_slave_partition_by_name, store_slave,
}

-- What `PikaReplClient` is asked to send to the master at an address.
pub data Request : Type 0 where
  try_sync : List ℕ → ℕ → PartitionInfo → BinlogOffset → List ℕ → Request
  db_sync : List ℕ → ℕ → PartitionInfo → BinlogOffset → List ℕ → Request
  remove_slave_node : List ℕ → ℕ → PartitionInfo → List ℕ → Request
  binlog_sync : List ℕ → ℕ → PartitionInfo → LogOffset → LogOffset → List ℕ → Bool → Request

-- The state after a request that was sent, or not.
unfoldable pub after_request : Status → ReplState
after_request status = if is_ok status then wait_reply else error

-- `send` is what the client answers to a request, `select_local_ip` the address that a connection to
-- the master goes out from, if there is a connection.
module _ (env : Env) (Cmd : Type 0) (to_binlog : Cmd → BinlogItem → List ℕ) where
  abbrev pub Manager : Type 0
  Manager = ReplicaManager env Cmd to_binlog

  unfoldable pub activate_sync_slave_partition :
      (List ℕ → ℕ → Option (List ℕ)) → ℕ → Manager → RmNode → ReplState → Status × Manager
  activate_sync_slave_partition select_local_ip now rm node state =
      elim (find node.partition_info rm.slaves) [
        | none ↦ (not_found, rm)
        | some s ↦
            if not (is_no_connect s.repl_state) && not (is_db_no_connect s.repl_state)
            then (corruption, rm)
            else elim (select_local_ip node.ip node.port) [
              | none ↦ (corruption, rm)
              | some ip ↦ (
                ok,
                store_slave env Cmd to_binlog rm node.partition_info
                    (activate (set_local_ip s ip) node state now),
              )
            ]
      ]

  unfoldable pub deactivate_sync_slave_partition : Manager → PartitionInfo → Status × Manager
  deactivate_sync_slave_partition rm p = elim (find p rm.slaves) [
    | none ↦ (not_found, rm)
    | some s ↦ (ok, store_slave env Cmd to_binlog rm p (SlavePartition.deactivate s))
  ]

  unfoldable pub send_remove_slave_node_request :
      (Request → Status) → Manager → PartitionInfo → Status × Manager
  send_remove_slave_node_request send rm p = elim (find p rm.slaves) [
    | none ↦ (not_found, rm)
    | some s ↦
        let status = send (remove_slave_node s.m_info.ip s.m_info.port p s.local_ip) in
        if is_ok status
        then (status, store_slave env Cmd to_binlog rm p (set_repl_state s db_no_connect))
        else (status, rm)
  ]

  -- `GetTablePartitionBinlogOffset` of src/pika_server.cc, `none` for false.
  unfoldable pub get_table_partition_binlog_offset : Manager → PartitionInfo → Option BinlogOffset
  get_table_partition_binlog_offset rm p = elim (master_of env Cmd to_binlog rm p) [
    | none ↦ none
    | some m ↦
        let (s, v) = get_producer_status env m.coordinator.logger in
        let offset : BinlogOffset = record { filenum = v.pro_num; offset = v.pro_offset } in
        if is_ok s then some offset else none
  ]

  unfoldable pub send_partition_try_sync_request :
      (Request → Status) → Manager → PartitionInfo → Status × Manager
  unfolding after_request
  send_partition_try_sync_request send rm p = elim (get_table_partition_binlog_offset rm p) [
    | none ↦ (corruption, rm)
    | some boffset ↦ elim (get_sync_slave_partition_by_name env Cmd to_binlog rm p) [
      | none ↦ (corruption, rm)
      | some s ↦
          let status = send (try_sync s.m_info.ip s.m_info.port p boffset s.local_ip) in
          (status, store_slave env Cmd to_binlog rm p (set_repl_state s (after_request status)))
    ]
  ]

  -- `PrepareRsync` empties the directory that the file is in.
  unfoldable pub send_partition_db_sync_request :
      (Request → Status) → Manager → PartitionInfo → Status × Manager
  unfolding after_request
  send_partition_db_sync_request send rm p = elim (get_table_partition_binlog_offset rm p) [
    | none ↦ (corruption, rm)
    | some boffset ↦ elim (find p rm.infos) [
      | none ↦ (corruption, rm)
      | some info ↦
          let rm1 = record rm { infos = assign p InfoFile.missing rm.infos } in
          elim (get_sync_slave_partition_by_name env Cmd to_binlog rm1 p) [
            | none ↦ (corruption, rm1)
            | some s ↦
                let status = send (db_sync s.m_info.ip s.m_info.port p boffset s.local_ip) in
                (
                  status,
                  store_slave env Cmd to_binlog rm1 p (set_repl_state s (after_request status)),
                )
          ]
    ]
  ]

  unfoldable pub send_partition_binlog_sync_ack_request :
      (Request → Status) → Manager → PartitionInfo → LogOffset → LogOffset → Bool → Status
  send_partition_binlog_sync_ack_request send rm p ack_start ack_end is_first_send =
      elim (get_sync_slave_partition_by_name env Cmd to_binlog rm p) [
        | none ↦ corruption
        | some s ↦
            send
              (binlog_sync s.m_info.ip s.m_info.port p ack_start ack_end s.local_ip is_first_send)
      ]

  -- The loops of `CheckSyncTimeout`; the status of a partition only goes to the log.
  unfoldable pub check_masters :
      (List ℕ → ℕ → Status)
      → ℕ
      → List (Option (Master env Cmd to_binlog))
      → WriteQueues
      → List (Option (Master env Cmd to_binlog)) × WriteQueues
  check_masters ping now [] w = ([], w)
  check_masters ping now (none ∷ masters) w =
      let (rest, w') = check_masters ping now masters w in (none ∷ rest, w')
  check_masters ping now (some m ∷ masters) w =
      let (s, sync_pros, w1) =
        SyncMaster.check_sync_timeout env ping m.coordinator.sync_pros w now in
      let c = record m.coordinator { sync_pros = sync_pros } in
      let (rest, w2) = check_masters ping now masters w1 in
      (some (record m { coordinator = c }) ∷ rest, w2)

  -- The partitions, and whether one of them switched the loop on.
  unfoldable pub check_slaves :
      ℕ
      → List (PartitionInfo × SyncSlavePartition)
      → List (PartitionInfo × SyncSlavePartition) × Bool
  check_slaves now [] = ([], false)
  check_slaves now ((p, s) ∷ slaves) =
      let (s', on) = SlavePartition.check_sync_timeout s now in
      let (rest, more) = check_slaves now slaves in ((p, s') ∷ rest, on || more)

  unfoldable pub check_sync_timeout : (List ℕ → ℕ → Status) → Manager → ℕ → Status × Manager
  check_sync_timeout ping rm now =
      let (slaves, on) = check_slaves now rm.slaves in
      let (masters, write_queues) = check_masters ping now rm.masters rm.write_queues in
      (
        ok,
        record rm {
          masters = masters;
          write_queues = write_queues;
          slaves = slaves;
          loop_state_machine = rm.loop_state_machine || on;
        },
      )
