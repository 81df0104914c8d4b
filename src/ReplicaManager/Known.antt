-- ===== src/ReplicaManager/Known.antt =====
-- The check in front of `AddSyncPartition` of src/pika_rm.cc: which partitions are known.
use pika.Prelude.{
  ℕ, ◌≡◌, refl, inl, inr, ◌⊎◌, Bool, true, false, ◌&&◌, ◌||◌, List, [], ◌∷◌, Option, none, some,
  Bool-cases, Option-cases, arith, if◌then◌else◌, length, get_or, ◌∙◌, subst,
}
use pika.Prelude.Table.{is_some}
use pika.Env.{Env}
use pika.Status.{ok, corruption}
use pika.Transverter.{BinlogItem}
use pika.RmNode.{PartitionInfo, eq}
use pika.PartitionTable.{find, eq_of_eq}
use pika.SlavePartition.{new_slave_partition}
use pika.MasterSlots
use pika.MasterSlots.{db_idx_from_str}
use pika.MasterSlots.Keys.{is_db, slot-db}
use pika.ReplicaManager.{
  Master, get_sync_master_partition_by_name, master_of, add_sync_partition_sanity_check,
  store_slave,
}
use pika.ReplicaManager.Connect.{Manager}

-- The partition is one of these.
unfoldable pub is_in : PartitionInfo → List PartitionInfo → Bool
is_in q [] = false
is_in q (p ∷ ps) = if eq p q then true else is_in q ps

unfoldable pub all_db : List PartitionInfo → Bool
all_db [] = true
all_db (p ∷ ps) = is_db p && all_db ps

module _ (env : Env) (Cmd : Type 0) (to_binlog : Cmd → BinlogItem → List ℕ) where
  -- The partition has a master, or a slave.
  abbrev pub has_master : Manager env Cmd to_binlog → PartitionInfo → Bool
  has_master rm q = is_some (master_of env Cmd to_binlog rm q)

  abbrev pub is_known : Manager env Cmd to_binlog → PartitionInfo → Bool
  is_known rm q = has_master rm q || is_some (find q rm.slaves)

  -- The manager with the master and the slave of a partition that is added.
  abbrev pub with_partition :
      (PartitionInfo → Master env Cmd to_binlog)
      → ℕ
      → PartitionInfo
      → Manager env Cmd to_binlog
      → List (Option (Master env Cmd to_binlog))
      → Manager env Cmd to_binlog
  with_partition new_master now p rm masters =
      store_slave env Cmd to_binlog (record rm { masters = masters }) p (new_slave_partition now)

  abbrev pub slot_in : PartitionInfo → List (Option (Master env Cmd to_binlog)) → Option ℕ
  slot_in p masters = MasterSlots.slot (Master env Cmd to_binlog) p masters

  -- A database's master is what its slot holds.
  pub db_master :
      (rm : Manager env Cmd to_binlog) (q : PartitionInfo) (i : ℕ)
      → slot_in q rm.masters ≡ some i
      → master_of env Cmd to_binlog rm q ≡ get_or rm.masters i none
  unfolding master_of get_sync_master_partition_by_name MasterSlots.read
  db_master rm q i e = rw (e, master_of, get_sync_master_partition_by_name, MasterSlots.read) refl

  -- For a database `find` and `operator[]` agree.
  find-db :
      (rm : Manager env Cmd to_binlog) (q : PartitionInfo) (m : Option (Master env Cmd to_binlog))
      → length rm.masters ≡ 8
      → is_db q ≡ true
      → MasterSlots.find (Master env Cmd to_binlog) q rm.masters ≡ some m
      → master_of env Cmd to_binlog rm q ≡ m
  unfolding MasterSlots.find
  find-db rm q m eight db found =
      let (i, at, lt, name, at') = slot-db (Master env Cmd to_binlog) q rm.masters eight db in
      let held : get_or rm.masters i none ≡ m =
        ground (arith, (rw (at', MasterSlots.find) at found)) in
      db_master rm q i at ∙ held

  pub sanity_check-new :
      (rm : Manager env Cmd to_binlog) (ps : List PartitionInfo) (q : PartitionInfo)
      → length rm.masters ≡ 8
      → is_db q ≡ true
      → add_sync_partition_sanity_check env Cmd to_binlog rm ps ≡ some ok
      → (is_in q ps && is_known rm q) ≡ false
  unfolding add_sync_partition_sanity_check is_in
  sanity_check-new rm [] q eight db h = refl
  sanity_check-new rm (p ∷ ps) q eight db h =
      elim (Option-cases (MasterSlots.find (Master env Cmd to_binlog) p rm.masters)) [
        | inl ends ↦ absurd (cc (rw (ends, add_sync_partition_sanity_check) at h))
        | inr (m, e) ↦ elim (Bool-cases (is_some m || is_some (find p rm.slaves))) [
          | inl known ↦ absurd (cc (rw (e, known, add_sync_partition_sanity_check) at h))
          | inr new ↦
              let ih =
                sanity_check-new rm ps q eight db
                  (rw (e, new, add_sync_partition_sanity_check) at h) in
              elim (Bool-cases (eq p q)) [
                | inl same ↦
                    let pq = eq_of_eq p q same in
                    let found =
                      subst (λ x. MasterSlots.find (Master env Cmd to_binlog) x rm.masters ≡ some m)
                        pq e in
                    let master : master_of env Cmd to_binlog rm q ≡ m =
                      find-db rm q m eight db found in
                    let slave =
                      subst (λ x. (is_some m || is_some (find x rm.slaves)) ≡ false) pq new in
                    rw same (rw master slave)
                | inr apart ↦ rw apart ih
              ]
        ]
      ]

  pub sanity_check_cases :
      (rm : Manager env Cmd to_binlog) (ps : List PartitionInfo)
      → (add_sync_partition_sanity_check env Cmd to_binlog rm ps ≡ some ok)
        ⊎ (add_sync_partition_sanity_check env Cmd to_binlog rm ps ≡ some corruption)
        ⊎ (add_sync_partition_sanity_check env Cmd to_binlog rm ps ≡ none)
  unfolding add_sync_partition_sanity_check
  sanity_check_cases rm [] = inl refl
  sanity_check_cases rm (p ∷ ps) =
      elim (Option-cases (MasterSlots.find (Master env Cmd to_binlog) p rm.masters)) [
        | inl ends ↦ rw (ends, add_sync_partition_sanity_check) (inr (inr refl))
        | inr (m, e) ↦ elim (Bool-cases (is_some m || is_some (find p rm.slaves))) [
          | inl known ↦ rw (e, known, add_sync_partition_sanity_check) (inr (inl refl))
          | inr new ↦ rw (e, new, add_sync_partition_sanity_check) (sanity_check_cases rm ps)
        ]
      ]

  -- The program ends in the check only at a partition that is none of a database.
  pub sanity_check-none :
      (rm : Manager env Cmd to_binlog) (ps : List PartitionInfo)
      → length rm.masters ≡ 8
      → add_sync_partition_sanity_check env Cmd to_binlog rm ps ≡ none
      → all_db ps ≡ false
  unfolding add_sync_partition_sanity_check all_db MasterSlots.find
  sanity_check-none rm [] eight h = ground (arith, h)
  sanity_check-none rm (p ∷ ps) eight h = elim (Bool-cases (is_db p)) [
    | inr other ↦ rw other refl
    | inl db ↦
        let (i, at, lt, name, at') = slot-db (Master env Cmd to_binlog) p rm.masters eight db in
        let m = get_or rm.masters i none in
        let e : MasterSlots.find (Master env Cmd to_binlog) p rm.masters ≡ some m =
          rw (at', MasterSlots.find) refl in
        elim (Bool-cases (is_some m || is_some (find p rm.slaves))) [
          | inl known ↦ absurd (cc (rw (e, known, add_sync_partition_sanity_check) at h))
          | inr new ↦
              rw db
                (sanity_check-none rm ps eight (rw (e, new, add_sync_partition_sanity_check) at h))
        ]
  ]
