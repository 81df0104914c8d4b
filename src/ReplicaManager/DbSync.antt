-- ===== src/ReplicaManager/DbSync.antt =====
-- The end of a full synchronisation, `TryUpdateMasterOffset` of src/pika_partition.cc, the state
-- machine that `PikaReplicaManager` of src/pika_rm.cc runs over the slave partitions, and the answer
-- of a master to a request for one, in src/pika_repl_client_conn.cc.
use pika.Prelude.{
  ℕ, suc, ◌%◌, ◌^◌, Bool, true, false, ◌&&◌, ◌||◌, not, List, [], ◌∷◌, map, Option, none, some, ltb,
  ◌==◌, if◌then◌else◌, bytes_eq,
}
use pika.Env.{Env}
use pika.Status.{Status, ok}
use pika.Transverter.{BinlogItem}
use pika.LogOffset.{LogOffset}
use pika.BinlogReset.{set_producer_status}
use pika.Coordinator.{Coordinator}
use pika.Coordinator
use pika.RmNode.{PartitionInfo}
use pika.PartitionTable.{find, assign}
use pika.SlavePartition.{
  SyncSlavePartition, ReplState, no_connect, try_connect, try_db_sync, wait_db_sync, wait_reply,
  connected, error, db_no_connect, set_repl_state, set_master_session_id,
}
use pika.ReplicaManager.{
  Master, InfoFile, master_of, get_sync_slave_partition_by_name, store_slave, store_master,
}
use pika.ReplicaManager.Connect.{
  Request, Manager, send_partition_try_sync_request, send_partition_db_sync_request,
}

-- The variables of `TryUpdateMasterOffset` that the file sets.
pub record Info : Type 0 where
  pub master_ip : List ℕ
  pub master_port : ℕ
  pub filenum : ℕ
  pub offset : ℕ
  pub term : ℕ
  pub index : ℕ

abbrev pub no_info : Info
no_info = record { master_ip = []; master_port = 0; filenum = 0; offset = 0; term = 0; index = 0 }

-- The variable that a line sets.
unfoldable pub set_info : ℕ → ℕ → Info → Info
set_info lineno n info =
    if lineno == 3
    then record info { master_port = n }
    else if lineno == 4
    then record info { filenum = n }
    else if lineno == 5
    then record info { offset = n }
    else if lineno == 6
    then record info { term = n }
    else record info { index = n }

-- The loop over the lines, the first of them being number `lineno`. `string2l` is that of slash,
-- `none` where it fails or the number is negative, which the loop treats alike.
unfoldable pub read_info : (List ℕ → Option ℕ) → ℕ → List (List ℕ) → Info → Option Info
unfolding set_info
read_info string2l lineno [] info = some info
read_info string2l lineno (line ∷ lines) info =
    let rest = read_info string2l (suc lineno) lines in
    if lineno == 2
    then rest (record info { master_ip = line })
    else if ltb 2 lineno && ltb lineno 8
    then elim (string2l line) [ none ↦ none | some n ↦ rest (set_info lineno n info) ]
    else if ltb 8 lineno
    then none
    else rest info

-- The offset that a master is set to; the words of `BinlogOffset` and `LogicOffset` are narrower than
-- the variables.
unfoldable pub info_offset : Info → LogOffset
info_offset info = record {
  b_offset = record { filenum = info.filenum % 2 ^ 32; offset = info.offset };
  l_offset = record { term = info.term % 2 ^ 32; index = info.index };
}

-- `change_db` is whether the new database could be put in place of the old one.
module _ (env : Env) (Cmd : Type 0) (to_binlog : Cmd → BinlogItem → List ℕ) where
  -- The new offset of a master.
  unfoldable pub update_master : ℕ → ℕ → Master env Cmd to_binlog → Info → Master env Cmd to_binlog
  unfolding info_offset
  update_master consensus_level now m info =
      let c = m.coordinator in
      let logger =
        (set_producer_status env now c.logger (info.filenum % 2 ^ 32) info.offset 0 0).1 in
      record m {
        coordinator =
            if consensus_level == 0
            then record c { logger = logger }
            else (Coordinator.reset env Cmd to_binlog now c (info_offset info)).1;
      }

  -- The rest, once the file was read.
  unfoldable pub apply_info :
      (PartitionInfo → Bool)
      → ℕ
      → ℕ
      → Manager env Cmd to_binlog
      → PartitionInfo
      → SyncSlavePartition
      → Info
      → Bool × Manager env Cmd to_binlog
  apply_info change_db consensus_level now rm p s info =
      let rm1 = record rm { infos = assign p InfoFile.missing rm.infos } in
      if not (bytes_eq info.master_ip s.m_info.ip) || not (info.master_port == s.m_info.port)
      then (false, store_slave env Cmd to_binlog rm p (set_repl_state s error))
      else if not (change_db p)
      then (false, store_slave env Cmd to_binlog rm1 p (set_repl_state s error))
      else elim (master_of env Cmd to_binlog rm1 p) [
        | none ↦ (false, rm1)
        | some m ↦
            let m' = update_master consensus_level now m info in
            let rm2 = store_master env Cmd to_binlog rm1 p m' in
            (true, store_slave env Cmd to_binlog rm2 p (set_repl_state s try_connect))
      ]

  unfoldable pub try_update_master_offset :
      (List ℕ → Option ℕ)
      → (PartitionInfo → Bool)
      → ℕ
      → ℕ
      → Manager env Cmd to_binlog
      → PartitionInfo
      → InfoFile
      → Bool × Manager env Cmd to_binlog
  try_update_master_offset string2l change_db consensus_level now rm p InfoFile.missing =
      (false, rm)
  try_update_master_offset string2l change_db consensus_level now rm p InfoFile.unreadable =
      elim (get_sync_slave_partition_by_name env Cmd to_binlog rm p) [
        | none ↦ (false, rm)
        | some s ↦ (false, store_slave env Cmd to_binlog rm p (set_repl_state s error))
      ]
  try_update_master_offset string2l change_db consensus_level now rm p (InfoFile.lines ls) =
      elim (get_sync_slave_partition_by_name env Cmd to_binlog rm p) [
        | none ↦ (false, rm)
        | some s ↦ elim (read_info string2l 1 ls no_info) [
          | none ↦ (false, store_slave env Cmd to_binlog rm p (set_repl_state s error))
          | some info ↦ apply_info change_db consensus_level now rm p s info
        ]
      ]

  -- One round of `RunSyncSlavePartitionStateMachine`, on a partition in that state.
  unfoldable pub run_partition :
      (Request → Status)
      → (List ℕ → Option ℕ)
      → (PartitionInfo → Bool)
      → ℕ
      → ℕ
      → Manager env Cmd to_binlog
      → PartitionInfo
      → ReplState
      → Manager env Cmd to_binlog
  run_partition send string2l change_db consensus_level now rm p try_connect =
      (send_partition_try_sync_request env Cmd to_binlog send rm p).1
  run_partition send string2l change_db consensus_level now rm p try_db_sync =
      (send_partition_db_sync_request env Cmd to_binlog send rm p).1
  run_partition send string2l change_db consensus_level now rm p wait_db_sync =
      elim (find p rm.infos) [
        | none ↦ rm
        | some info ↦ (try_update_master_offset string2l change_db consensus_level now rm p info).1
      ]
  run_partition send string2l change_db consensus_level now rm p wait_reply = rm
  run_partition send string2l change_db consensus_level now rm p connected = rm
  run_partition send string2l change_db consensus_level now rm p no_connect = rm
  run_partition send string2l change_db consensus_level now rm p db_no_connect = rm
  run_partition send string2l change_db consensus_level now rm p error = rm

  -- The loop over the partitions that the map has at its start.
  unfoldable pub run_partitions :
      (Request → Status)
      → (List ℕ → Option ℕ)
      → (PartitionInfo → Bool)
      → ℕ
      → ℕ
      → List PartitionInfo
      → Manager env Cmd to_binlog
      → Manager env Cmd to_binlog
  run_partitions send string2l change_db consensus_level now [] rm = rm
  run_partitions send string2l change_db consensus_level now (p ∷ ps) rm =
      run_partitions send string2l change_db consensus_level now ps (elim (find p rm.slaves) [
        | none ↦ rm
        | some s ↦ run_partition send string2l change_db consensus_level now rm p s.repl_state
      ])

  unfoldable pub run_sync_slave_partition_state_machine :
      (Request → Status)
      → (List ℕ → Option ℕ)
      → (PartitionInfo → Bool)
      → ℕ
      → ℕ
      → Manager env Cmd to_binlog
      → Status × Manager env Cmd to_binlog
  run_sync_slave_partition_state_machine send string2l change_db consensus_level now rm = (
    ok,
    run_partitions send string2l change_db consensus_level now
        (map (λ (e : PartitionInfo × SyncSlavePartition). e.0) rm.slaves) rm,
  )

  -- `HandleDBSyncResponse`: what the answer of a master to a request for a full synchronisation does.
  unfoldable pub handle_db_sync_response :
      Manager env Cmd to_binlog → PartitionInfo → Bool → ℕ → Manager env Cmd to_binlog
  handle_db_sync_response rm p is_code_ok session_id =
      elim (get_sync_slave_partition_by_name env Cmd to_binlog rm p) [
        | none ↦ rm
        | some s ↦
            if is_code_ok
            then store_slave env Cmd to_binlog rm p
                (set_repl_state (set_master_session_id s session_id) wait_db_sync)
            else store_slave env Cmd to_binlog rm p (set_repl_state s error)
      ]
