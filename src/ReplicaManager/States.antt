-- ===== src/ReplicaManager/States.antt =====
-- How `RunSyncSlavePartitionStateMachine` moves the slave partitions of a server.
use pika.Prelude.{
  ℕ, ◌≡◌, refl, inl, inr, ◌⊎◌, Bool, ◌||◌, not, List, Option, some, Bool-cases, Option-cases,
  bytes_eq, ◌==◌,
}
use pika.Env.{Env}
use pika.Status.{Status, is_ok}
use pika.Transverter.{BinlogItem}
use pika.RmNode.{PartitionInfo}
use pika.PartitionTable.{find, assign}
use pika.SlavePartition.{
  SyncSlavePartition, ReplState, no_connect, try_connect, try_db_sync, wait_db_sync, wait_reply,
  connected, error, db_no_connect, set_repl_state,
}
use pika.ReplicaManager.{
  InfoFile, master_of, get_sync_slave_partition_by_name, store_slave, store_master,
}
use pika.ReplicaManager.Connect.{
  Request, try_sync, db_sync, Manager, get_table_partition_binlog_offset,
  send_partition_try_sync_request, send_partition_db_sync_request, after_request,
}
use pika.ReplicaManager.DbSync.{
  Info, read_info, no_info, apply_info, try_update_master_offset, run_partition,
}

-- What the state machine may do to a partition. Nothing but the state changes.
pub data Move (s : SyncSlavePartition) : SyncSlavePartition → Type 0 where
  stay : Move s s
  requested :
      (s.repl_state ≡ try_connect) ⊎ (s.repl_state ≡ try_db_sync)
      → Move s (record s { repl_state = wait_reply })
  failed :
      (s.repl_state ≡ try_connect) ⊎ (s.repl_state ≡ try_db_sync) ⊎ (s.repl_state ≡ wait_db_sync)
      → Move s (record s { repl_state = error })
  synced : s.repl_state ≡ wait_db_sync → Move s (record s { repl_state = try_connect })

abbrev pub Slaves : Type 0
Slaves = List (PartitionInfo × SyncSlavePartition)

-- The maps differ at one partition at most, which moves.
abbrev pub MovesAt : PartitionInfo → SyncSlavePartition → Slaves → Slaves → Type 0
MovesAt p s before after =
    (after ≡ before) ⊎ ((s' : SyncSlavePartition) × (after ≡ assign p s' before) × Move s s')

asked-Move :
    (status : Status) (s : SyncSlavePartition)
    → (s.repl_state ≡ try_connect) ⊎ (s.repl_state ≡ try_db_sync)
    → Move s (set_repl_state s (after_request status))
unfolding set_repl_state after_request
asked-Move status s h = elim (Bool-cases (is_ok status)) [
  | inl good ↦ rw good (requested h)
  | inr bad ↦ rw bad (failed (elim h [ inl a ↦ inl a | inr b ↦ inr (inl b) ]))
]

module _ (env : Env) (Cmd : Type 0) (to_binlog : Cmd → BinlogItem → List ℕ) where
  try_sync-MovesAt :
      (send : Request → Status) (rm : Manager env Cmd to_binlog) (p : PartitionInfo)
      (s : SyncSlavePartition)
      → find p rm.slaves ≡ some s
      → s.repl_state ≡ try_connect
      → MovesAt p s rm.slaves (send_partition_try_sync_request env Cmd to_binlog send rm p).1.slaves
  unfolding send_partition_try_sync_request get_sync_slave_partition_by_name store_slave
  try_sync-MovesAt send rm p s h e =
      let r = get_table_partition_binlog_offset env Cmd to_binlog rm p in
      elim (Option-cases r) [
        | inl missing ↦ rw (missing, send_partition_try_sync_request) (inl refl)
        | inr (boffset, there) ↦
            let status = send (try_sync s.m_info.ip s.m_info.port p boffset s.local_ip) in
            rw (there, h, send_partition_try_sync_request)
              (inr (set_repl_state s (after_request status), refl, asked-Move status s (inl e)))
      ]

  db_sync-MovesAt :
      (send : Request → Status) (rm : Manager env Cmd to_binlog) (p : PartitionInfo)
      (s : SyncSlavePartition)
      → find p rm.slaves ≡ some s
      → s.repl_state ≡ try_db_sync
      → MovesAt p s rm.slaves (send_partition_db_sync_request env Cmd to_binlog send rm p).1.slaves
  unfolding send_partition_db_sync_request get_sync_slave_partition_by_name store_slave
  db_sync-MovesAt send rm p s h e =
      let r = get_table_partition_binlog_offset env Cmd to_binlog rm p in
      elim (Option-cases r) [
        | inl missing ↦ rw (missing, send_partition_db_sync_request) (inl refl)
        | inr (boffset, there) ↦ elim (Option-cases (find p rm.infos)) [
          | inl absent ↦ rw (there, absent, send_partition_db_sync_request) (inl refl)
          | inr (info, known) ↦
              let status = send (db_sync s.m_info.ip s.m_info.port p boffset s.local_ip) in
              rw (there, known, h, send_partition_db_sync_request)
                (inr (set_repl_state s (after_request status), refl, asked-Move status s (inr e)))
        ]
      ]

  module _ (string2l : List ℕ → Option ℕ) (change_db : PartitionInfo → Bool)
      (consensus_level now : ℕ) where
    apply_info-MovesAt :
        (rm : Manager env Cmd to_binlog) (p : PartitionInfo) (s : SyncSlavePartition) (info : Info)
        → s.repl_state ≡ wait_db_sync
        → MovesAt p s rm.slaves
            (apply_info env Cmd to_binlog change_db consensus_level now rm p s info).1.slaves
    unfolding apply_info store_slave store_master set_repl_state
    apply_info-MovesAt rm p s info e =
        let rm1 : Manager env Cmd to_binlog = record rm {
          infos = assign p InfoFile.missing rm.infos;
        } in
        let master = master_of env Cmd to_binlog rm1 p in
        let bad =
          not (bytes_eq info.master_ip s.m_info.ip) || not (info.master_port == s.m_info.port) in
        elim (Bool-cases bad) [
          | inl wrong ↦ rw wrong (inr (_, refl, failed (inr (inr e))))
          | inr right ↦ elim (Bool-cases (change_db p)) [
            | inr stuck ↦ rw (right, stuck) (inr (_, refl, failed (inr (inr e))))
            | inl changed ↦ elim (Option-cases master) [
              | inl absent ↦ rw (right, changed, absent, apply_info) (inl refl)
              | inr (m, there) ↦ rw (right, changed, there, apply_info) (inr (_, refl, synced e))
            ]
          ]
        ]

    update-MovesAt :
        (rm : Manager env Cmd to_binlog) (p : PartitionInfo) (s : SyncSlavePartition)
        (info : InfoFile)
        → find p rm.slaves ≡ some s
        → s.repl_state ≡ wait_db_sync
        → MovesAt p s rm.slaves
            (try_update_master_offset env Cmd to_binlog string2l change_db consensus_level now rm p
              info).1.slaves
    unfolding try_update_master_offset get_sync_slave_partition_by_name store_slave set_repl_state
    update-MovesAt rm p s InfoFile.missing h e = inl refl
    update-MovesAt rm p s InfoFile.unreadable h e =
        rw (h, try_update_master_offset) (inr (_, refl, failed (inr (inr e))))
    update-MovesAt rm p s (InfoFile.lines ls) h e =
        elim (Option-cases (read_info string2l 1 ls no_info)) [
          | inl absent ↦
              rw (h, absent, try_update_master_offset) (inr (_, refl, failed (inr (inr e))))
          | inr (info, read) ↦
              rw (h, read, try_update_master_offset) (apply_info-MovesAt rm p s info e)
        ]

    pub run_partition-MovesAt :
        (send : Request → Status) (rm : Manager env Cmd to_binlog) (p : PartitionInfo)
        (s : SyncSlavePartition) (state : ReplState)
        → find p rm.slaves ≡ some s
        → s.repl_state ≡ state
        → MovesAt p s rm.slaves
            (run_partition env Cmd to_binlog send string2l change_db consensus_level now rm p
              state).slaves
    unfolding run_partition
    run_partition-MovesAt send rm p s try_connect h e = try_sync-MovesAt send rm p s h e
    run_partition-MovesAt send rm p s try_db_sync h e = db_sync-MovesAt send rm p s h e
    run_partition-MovesAt send rm p s wait_db_sync h e = elim (Option-cases (find p rm.infos)) [
      | inl absent ↦ rw (absent, run_partition) (inl refl)
      | inr (info, there) ↦ rw (there, run_partition) (update-MovesAt rm p s info h e)
    ]
    run_partition-MovesAt send rm p s wait_reply h e = inl refl
    run_partition-MovesAt send rm p s connected h e = inl refl
    run_partition-MovesAt send rm p s no_connect h e = inl refl
    run_partition-MovesAt send rm p s db_no_connect h e = inl refl
    run_partition-MovesAt send rm p s error h e = inl refl
