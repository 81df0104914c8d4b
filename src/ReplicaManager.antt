-- ===== src/ReplicaManager.antt =====
-- `PikaReplicaManager` of include/pika_rm.h and src/pika_rm.cc: the partitions of a server, each as
-- a master and as a slave, and the queues towards its slaves. Locks are not modelled: every method is
-- one step.
pub mod Connect
pub mod DbSync
pub mod States
pub mod Machine
pub mod Known
pub mod Registry
use pika.Prelude.{
  ℕ, ◌+◌, ◌%◌, ◌^◌, Bool, true, false, ◌&&◌, ◌||◌, not, List, [], ◌∷◌, ◌++◌, Option, none, some,
  ltb, ◌==◌, if◌then◌else◌, bytes_eq, get_or, set, ◌-◌,
}
use pika.Prelude.Table.{is_some}
use mathlib.Core.Option
use pika.Env.{Env}
use pika.Status.{Status, ok, not_found, corruption, is_ok}
use pika.Transverter.{BinlogItem}
use pika.SyncProgress.{slave_size}
use pika.Coordinator.{Coordinator}
use pika.Coordinator
use pika.SyncMaster
use pika.RmNode.{PartitionInfo, RmNode}
use pika.PartitionTable.{find, assign, remove}
use pika.SlavePartition.{
  SyncSlavePartition, ReplState, no_connect, is_no_connect, is_db_no_connect, is_error,
  new_slave_partition, activate, set_local_ip,
}
use pika.SlavePartition
use pika.WriteQueue.{WriteQueues}
use pika.MasterSlots

-- `kBgsaveInfoFile` in the `dbsync_path_` of a partition, by its lines.
pub data InfoFile : Type 0 where
  missing unreadable : InfoFile
  lines : List (List ℕ) → InfoFile

-- `kPortShiftReplServer`.
abbrev pub port_shift_repl_server : ℕ
port_shift_repl_server = 2000

module _ (env : Env) (Cmd : Type 0) (to_binlog : Cmd → BinlogItem → List ℕ) where
  -- `SyncMasterPartition`: its coordinator and `session_id_`.
  pub record Master : Type 0 where
    pub coordinator : Coordinator env Cmd to_binlog
    pub session_id : ℕ

  -- `sync_master_partitions_` has the slots of db0 to db7, which may be null pointers. `loop_state_machine` is
  -- `loop_partition_state_machine_` of the server, and `infos` has the partitions of its tables, each
  -- with the file that a full synchronisation leaves.
  pub record ReplicaManager : Type 0 where
    pub masters : List (Option Master)
    pub slaves : List (PartitionInfo × SyncSlavePartition)
    pub write_queues : WriteQueues
    pub loop_state_machine : Bool
    pub infos : List (PartitionInfo × InfoFile)

  -- `GetSyncMasterPartitionByName`; `none` is where the program ends.
  unfoldable pub get_sync_master_partition_by_name :
      ReplicaManager → PartitionInfo → Option (Option Master)
  get_sync_master_partition_by_name rm p = MasterSlots.read Master p rm.masters

  -- The same for a partition that the manager has as a slave: it was added by `AddSyncPartition`,
  -- and so is number 0 of a database db0 to db7, for which the program goes on.
  unfoldable pub master_of : ReplicaManager → PartitionInfo → Option Master
  unfolding get_sync_master_partition_by_name
  master_of rm p = elim (get_sync_master_partition_by_name rm p) [ none ↦ none | some m ↦ m ]

  -- A master is held by a pointer: one of such a partition that was changed is changed in its slot.
  unfoldable pub store_master : ReplicaManager → PartitionInfo → Master → ReplicaManager
  store_master rm p m = record rm {
    masters = elim (MasterSlots.assign Master p (some m) rm.masters) [
      | none ↦ rm.masters
      | some masters ↦ masters
    ];
  }

  unfoldable pub get_sync_slave_partition_by_name :
      ReplicaManager → PartitionInfo → Option SyncSlavePartition
  get_sync_slave_partition_by_name rm p = find p rm.slaves

  -- A slave partition is held by a pointer: one that was changed is changed in the map.
  unfoldable pub store_slave : ReplicaManager → PartitionInfo → SyncSlavePartition → ReplicaManager
  store_slave rm p s = record rm { slaves = assign p s rm.slaves }

  -- In the functions from here to `remove_sync_partition`, `none` is where the program ends.
  unfoldable pub add_sync_partition_sanity_check :
      ReplicaManager → List PartitionInfo → Option Status
  add_sync_partition_sanity_check rm [] = some ok
  add_sync_partition_sanity_check rm (p ∷ p_infos) =
      let rest = add_sync_partition_sanity_check rm p_infos in
      elim (MasterSlots.find Master p rm.masters) [
        | none ↦ none
        | some m ↦ if is_some m || is_some (find p rm.slaves) then some corruption else rest
      ]

  -- The loop of `AddSyncPartition`; `new_master` is the constructor of `SyncMasterPartition`, which
  -- opens the log, and `now` is the time that a slave's constructor reads.
  unfoldable pub add_partitions :
      (PartitionInfo → Master) → ℕ → List PartitionInfo → ReplicaManager → Option ReplicaManager
  add_partitions new_master now [] rm = some rm
  add_partitions new_master now (p ∷ p_infos) rm =
      elim (MasterSlots.assign Master p (some (new_master p)) rm.masters) [
        | none ↦ none
        | some masters ↦
            add_partitions new_master now p_infos
              (store_slave (record rm { masters = masters }) p (new_slave_partition now))
      ]

  unfoldable pub add_sync_partition :
      (PartitionInfo → Master)
      → ℕ
      → ReplicaManager
      → List PartitionInfo
      → Option (Status × ReplicaManager)
  add_sync_partition new_master now rm p_infos = elim (add_sync_partition_sanity_check rm p_infos) [
    | none ↦ none
    | some s ↦
        let added =
          Option.map (λ (rm' : ReplicaManager). (ok, rm'))
            (add_partitions new_master now p_infos rm) in
        if is_ok s then added else some (s, rm)
  ]

  unfoldable pub remove_sync_partition_sanity_check :
      ReplicaManager → List PartitionInfo → Option Status
  remove_sync_partition_sanity_check rm [] = some ok
  remove_sync_partition_sanity_check rm (p ∷ p_infos) =
      let rest = remove_sync_partition_sanity_check rm p_infos in
      elim (MasterSlots.find Master p rm.masters) [
        | none ↦ none
        | some none ↦ some corruption
        | some (some found) ↦ elim (find p rm.slaves) [
          | none ↦ some corruption
          | some slave ↦ elim (get_sync_master_partition_by_name rm p) [
            | none ↦ none
            | some none ↦ none
            | some (some m) ↦
                if not (slave_size env m.coordinator.sync_pros == 0)
                then some corruption
                else if not (is_no_connect slave.repl_state) && not (is_error slave.repl_state)
                then some corruption
                else rest
          ]
        ]
      ]

  -- The loop of `RemoveSyncPartition`, without the files of the log that `Leave` removes.
  unfoldable pub remove_partitions : List PartitionInfo → ReplicaManager → Option ReplicaManager
  remove_partitions [] rm = some rm
  remove_partitions (p ∷ p_infos) rm = elim (MasterSlots.assign Master p none rm.masters) [
    | none ↦ none
    | some masters ↦
        remove_partitions p_infos (record rm { masters = masters; slaves = remove p rm.slaves })
  ]

  unfoldable pub remove_sync_partition :
      ReplicaManager → List PartitionInfo → Option (Status × ReplicaManager)
  remove_sync_partition rm p_infos = elim (remove_sync_partition_sanity_check rm p_infos) [
    | none ↦ none
    | some s ↦
        let left =
          Option.map (λ (rm' : ReplicaManager). (ok, rm')) (remove_partitions p_infos rm) in
        if is_ok s then left else some (s, rm)
  ]

  -- The first loop of `SyncTableSanityCheck`, from slot `i` on, and the second.
  unfoldable pub has_master : List ℕ → ℕ → List (Option Master) → Bool
  has_master table i [] = false
  has_master table i (m ∷ masters) =
      let rest = has_master table (i + 1) masters in
      if is_some m && bytes_eq (100 ∷ 98 ∷ (48 + i) ∷ []) table then true else rest

  unfoldable pub has_slave : List ℕ → List (PartitionInfo × SyncSlavePartition) → Bool
  has_slave table [] = false
  has_slave table ((p, s) ∷ slaves) =
      let rest = has_slave table slaves in if bytes_eq p.table_name table then true else rest

  unfoldable pub sync_table_sanity_check : ReplicaManager → List ℕ → Status
  sync_table_sanity_check rm table =
      if has_master table 0 rm.masters
      then corruption
      else if has_slave table rm.slaves
      then corruption
      else ok

  -- `CheckPartitionRole`: the status and whether `*role` has the bits of a master and of a slave;
  -- `none` is where the program ends.
  unfoldable pub check_partition_role :
      ReplicaManager → PartitionInfo → Option (Status × Bool × Bool)
  check_partition_role rm p = elim (MasterSlots.find Master p rm.masters) [
    | none ↦ none
    | some none ↦ some (not_found, false, false)
    | some (some found) ↦ elim (find p rm.slaves) [
      | none ↦ some (not_found, false, false)
      | some slave ↦ elim (get_sync_master_partition_by_name rm p) [
        | none ↦ none
        | some none ↦ none
        | some (some m) ↦
            let n = slave_size env m.coordinator.sync_pros in
            some (
              ok,
              not (n == 0) || (n == 0 && is_no_connect slave.repl_state),
              not (is_no_connect slave.repl_state),
            )
      ]
    ]
  ]

  -- The loops of `LostConnection`: a slave at that address is removed from every master, and a
  -- partition with a master at that address is deactivated.
  unfoldable pub remove_from_masters : List ℕ → ℕ → List (Option Master) → List (Option Master)
  remove_from_masters ip port [] = []
  remove_from_masters ip port (none ∷ masters) = none ∷ remove_from_masters ip port masters
  remove_from_masters ip port (some m ∷ masters) =
      let c = (Coordinator.remove_slave_node env Cmd to_binlog m.coordinator ip port).1 in
      some (record m { coordinator = c }) ∷ remove_from_masters ip port masters

  unfoldable pub deactivate_slaves_of :
      List ℕ
      → ℕ
      → List (PartitionInfo × SyncSlavePartition)
      → List (PartitionInfo × SyncSlavePartition)
  deactivate_slaves_of ip port [] = []
  deactivate_slaves_of ip port ((p, s) ∷ slaves) =
      let s' =
        if bytes_eq s.m_info.ip ip && (s.m_info.port == port)
        then SlavePartition.deactivate s
        else s in
      (p, s') ∷ deactivate_slaves_of ip port slaves

  unfoldable pub lost_connection : ReplicaManager → List ℕ → ℕ → Status × ReplicaManager
  lost_connection rm ip port = (
    ok,
    record rm {
      masters = remove_from_masters ip port rm.masters;
      slaves = deactivate_slaves_of ip port rm.slaves;
    },
  )

  -- Whether the client may connect again; no partition of that master was told to stop.
  unfoldable pub check_slave_partition_state :
      List (PartitionInfo × SyncSlavePartition) → List ℕ → ℕ → Bool
  check_slave_partition_state [] ip port = true
  check_slave_partition_state ((p, s) ∷ slaves) ip port =
      let rest = check_slave_partition_state slaves ip port in
      if is_db_no_connect s.repl_state
        && bytes_eq s.m_info.ip ip
        && (s.m_info.port + port_shift_repl_server == port)
      then false
      else rest
