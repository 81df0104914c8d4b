-- ===== src/ReplicaManager/Registry.antt =====
-- Which partitions a `PikaReplicaManager` has.
use pika.Prelude.{
  ℕ, ◌≡◌, refl, inl, inr, ◌⊎◌, true, false, ◌&&◌, ◌||◌, List, [], ◌∷◌, none, some, Bool-cases,
  arith, if◌then◌else◌, length, length-set, get_or, get_or-set_self, get_or-set_ne, ◌≢◌, set, ◌<◌,
  ◌∙◌, sym, ap,
}
use pika.Env.{Env}
use pika.Status.{ok, corruption}
use pika.Transverter.{BinlogItem}
use pika.RmNode.{PartitionInfo, eq}
use pika.PartitionTable.{find, assign, find-assign_self, find-assign_ne, eq_of_eq}
use pika.SlavePartition.{new_slave_partition}
use pika.MasterSlots
use pika.MasterSlots.{max_db_num, db_idx_from_str}
use pika.MasterSlots.Keys.{is_db, slot-db, slot-none, slot_inj, slot_name_inj}
use pika.ReplicaManager.{Master, master_of, add_partitions, add_sync_partition, store_slave}
use pika.ReplicaManager.Known.{
  is_in, all_db, has_master, is_known, with_partition, slot_in, db_master, sanity_check-new,
  sanity_check_cases, sanity_check-none,
}
use pika.ReplicaManager.Connect.{Manager}

module _ (env : Env) (Cmd : Type 0) (to_binlog : Cmd → BinlogItem → List ℕ) where
  module _ (new_master : PartitionInfo → Master env Cmd to_binlog) (now : ℕ) where
    -- What `rm'` has of partition `q` once the partitions are added to `rm`.
    abbrev pub Added :
        Manager env Cmd to_binlog
        → List PartitionInfo
        → Manager env Cmd to_binlog
        → PartitionInfo
        → Type 0
    Added rm ps rm' q =
        (has_master env Cmd to_binlog rm' q ≡ (is_in q ps || has_master env Cmd to_binlog rm q))
        × (find q rm'.slaves
            ≡ (if is_in q ps then some (new_slave_partition now) else find q rm.slaves))

    add_one :
        (rm : Manager env Cmd to_binlog) (p q : PartitionInfo) (i : ℕ) (ps : List PartitionInfo)
        (rm' : Manager env Cmd to_binlog)
        → length rm.masters ≡ 8
        → is_db p ≡ true
        → is_db q ≡ true
        → slot_in env Cmd to_binlog p rm.masters ≡ some i
        → i < 8
        → p.table_name ≡ MasterSlots.slot_name i
        → Added
            (with_partition env Cmd to_binlog new_master now p rm
              (set rm.masters i (some (new_master p))))
            ps
            rm'
            q
        → Added rm (p ∷ ps) rm' q
    unfolding is_in store_slave
    add_one rm p q i ps rm' eight dbp dbq at lt name (masters, slaves) =
        let masters1 = set rm.masters i (some (new_master p)) in
        let rm1 = with_partition env Cmd to_binlog new_master now p rm masters1 in
        let eight1 : length masters1 ≡ 8 = length-set rm.masters i (some (new_master p)) ∙ eight in
        let (j, atq, ltq, nameq, atq') =
          slot-db (Master env Cmd to_binlog) q rm.masters eight dbq in
        let (k, atk, ltk, namek, atk') = slot-db (Master env Cmd to_binlog) q masters1 eight1 dbq in
        let jk : k ≡ j = slot_name_inj k j (sym namek ∙ nameq) in
        let before = db_master env Cmd to_binlog rm q j atq in
        let after = db_master env Cmd to_binlog rm1 q k atk in
        elim (Bool-cases (eq p q)) [
          | inl same ↦
              let pq = eq_of_eq p q same in
              let ki : k ≡ i =
                slot_name_inj k i
                  (sym namek ∙ sym (ap (λ (x : PartitionInfo). x.table_name) pq) ∙ name) in
              let there : get_or masters1 k none ≡ some (new_master p) = rw ki (
                get_or-set_self rm.masters i (some (new_master p)) none
                  (omega (arith, lt, eight))) in
              let slave : find q (assign p (new_slave_partition now) rm.slaves)
                  ≡ some (new_slave_partition now) =
                rw pq (find-assign_self q (new_slave_partition now) rm.slaves) in
              rw same (
                ground (arith, masters, after, there),
                elim (Bool-cases (is_in q ps)) [
                  | inl again ↦ rw (slaves, again) refl
                  | inr once ↦ rw (slaves, once) slave
                ],
              )
          | inr apart ↦
              let ne : i ≢ k = λ ik. absurd (
                ground (
                  arith,
                  apart,
                  slot_inj p q i dbp dbq name (namek ∙ ap MasterSlots.slot_name (sym ik)),
                )) in
              let kept : get_or masters1 k none ≡ get_or rm.masters k none =
                get_or-set_ne rm.masters i k (some (new_master p)) none ne in
              let same_master : master_of env Cmd to_binlog rm1 q
                  ≡ master_of env Cmd to_binlog rm q =
                after ∙ kept ∙ ap (λ n. get_or rm.masters n none) jk ∙ sym before in
              rw apart (
                masters ∙ rw same_master refl,
                slaves ∙ rw (find-assign_ne q p (new_slave_partition now) rm.slaves apart) refl,
              )
        ]

    add_partitions-Added :
        (ps : List PartitionInfo) (rm : Manager env Cmd to_binlog)
        → length rm.masters ≡ 8
        → all_db ps ≡ true
        → (rm' : Manager env Cmd to_binlog) × (add_partitions env Cmd to_binlog new_master now ps rm
            ≡ some rm')
          × ((q : PartitionInfo) → is_db q ≡ true → Added rm ps rm' q)
    unfolding add_partitions all_db is_in MasterSlots.assign store_slave
    add_partitions-Added [] rm eight h = (rm, refl, λ q dbq. (refl, refl))
    add_partitions-Added (p ∷ ps) rm eight h =
        let dbp : is_db p ≡ true = ground (arith, h) in
        let (i, at, lt, name, at') = slot-db (Master env Cmd to_binlog) p rm.masters eight dbp in
        let rm1 =
          with_partition env Cmd to_binlog new_master now p rm
            (set rm.masters i (some (new_master p))) in
        let (rm', e, all) =
          add_partitions-Added ps rm1 (length-set rm.masters i (some (new_master p)) ∙ eight)
            (ground (arith, h)) in
        (
          rm',
          rw (at, add_partitions, MasterSlots.assign) e,
          λ q dbq. add_one rm p q i ps rm' eight dbp dbq at lt name (all q dbq),
        )

    add_partitions-none :
        (ps : List PartitionInfo) (rm : Manager env Cmd to_binlog)
        → length rm.masters ≡ 8
        → all_db ps ≡ false
        → add_partitions env Cmd to_binlog new_master now ps rm ≡ none
    unfolding add_partitions all_db MasterSlots.assign store_slave
    add_partitions-none [] rm eight h = ground (arith, h)
    add_partitions-none (p ∷ ps) rm eight h = elim (Bool-cases (is_db p)) [
      | inr other ↦
          let none_there = slot-none (Master env Cmd to_binlog) p rm.masters other in
          rw (none_there, add_partitions, MasterSlots.assign) refl
      | inl db ↦
          let (i, at, lt, name, at') = slot-db (Master env Cmd to_binlog) p rm.masters eight db in
          rw (at, add_partitions, MasterSlots.assign)
            (add_partitions-none ps
              (with_partition env Cmd to_binlog new_master now p rm
                (set rm.masters i (some (new_master p))))
              (length-set rm.masters i (some (new_master p)) ∙ eight) (ground (arith, h, db)))
    ]

    -- With its eight slots, AddSyncPartition ends in one of three ways. It returns OK: then all
    -- the partitions are of a database, number 0 of db0 to db7, none of them was known before, and
    -- a partition of a database has a master exactly if it had one or is one of those added, and
    -- the slave that it had or, if it is one of those, a new one. It returns Corruption and
    -- changes nothing. Or the program ends at an assertion, and one of the partitions is of no
    -- database.
    pub add_sync_partition_cases :
        (rm : Manager env Cmd to_binlog) (ps : List PartitionInfo) (q : PartitionInfo)
        → length rm.masters ≡ max_db_num
        → is_db q ≡ true
        → ((rm' : Manager env Cmd to_binlog) × (add_sync_partition env Cmd to_binlog new_master now
                rm ps
              ≡ some (ok, rm'))
            × (all_db ps ≡ true)
            × ((is_in q ps && is_known env Cmd to_binlog rm q) ≡ false)
            × Added rm ps rm' q)
          ⊎ (add_sync_partition env Cmd to_binlog new_master now rm ps ≡ some (corruption, rm))
          ⊎ ((add_sync_partition env Cmd to_binlog new_master now rm ps ≡ none)
              × (all_db ps ≡ false))
    unfolding add_sync_partition
    add_sync_partition_cases rm ps q eight dbq = elim (sanity_check_cases env Cmd to_binlog rm ps) [
      | inl good ↦ elim (Bool-cases (all_db ps)) [
        | inl db ↦
            let (rm', e, all) = add_partitions-Added ps rm eight db in
            inl (
              rm',
              rw (good, e, add_sync_partition) refl,
              db,
              sanity_check-new env Cmd to_binlog rm ps q eight dbq good,
              all q dbq,
            )
        | inr other ↦
            let e = add_partitions-none ps rm eight other in
            inr (inr (rw (good, e, add_sync_partition) refl, other))
      ]
      | inr (inl bad) ↦ inr (inl (rw (bad, add_sync_partition) refl))
      | inr (inr ends) ↦ inr (
          inr (
            rw (ends, add_sync_partition) refl,
            sanity_check-none env Cmd to_binlog rm ps eight ends,
          ))
    ]
