-- ===== src/ReplicaManager/Machine.antt =====
-- The loop of `RunSyncSlavePartitionStateMachine` over all partitions.
use pika.Prelude.{
  ℕ, ◌≡◌, refl, ap, sym, ◌∙◌, subst, inl, inr, Bool, false, List, [], ◌∷◌, map, Option, none, some,
  Bool-cases, Option-cases,
}
use pika.Env.{Env}
use pika.Status.{Status}
use pika.Transverter.{BinlogItem}
use pika.RmNode.{PartitionInfo, eq}
use pika.PartitionTable.{find, find-assign_self, find-assign_ne, eq_of_eq}
use pika.SlavePartition.{SyncSlavePartition}
use pika.ReplicaManager.Connect.{Request, Manager}
use pika.ReplicaManager.States.{Move, stay, run_partition-MovesAt}
use pika.ReplicaManager.DbSync.{
  run_partition, run_partitions, run_sync_slave_partition_state_machine,
}

-- The keys of a map.
abbrev pub NotIn : PartitionInfo → List PartitionInfo → Type 0
NotIn q [] = Unit {0}
NotIn q (p ∷ ps) = (eq p q ≡ false) × NotIn q ps

abbrev pub Distinct : List PartitionInfo → Type 0
Distinct [] = Unit {0}
Distinct (p ∷ ps) = NotIn p ps × Distinct ps

module _ (env : Env) (Cmd : Type 0) (to_binlog : Cmd → BinlogItem → List ℕ)
    (string2l : List ℕ → Option ℕ) (change_db : PartitionInfo → Bool) (consensus_level now : ℕ)
    (send : Request → Status) where
  -- One round of the loop.
  abbrev round : PartitionInfo → Manager env Cmd to_binlog → Manager env Cmd to_binlog
  round p rm = elim (find p rm.slaves) [
    | none ↦ rm
    | some s ↦
        run_partition env Cmd to_binlog send string2l change_db consensus_level now rm p
          s.repl_state
  ]

  round-other :
      (p q : PartitionInfo) (rm : Manager env Cmd to_binlog)
      → eq p q ≡ false
      → find q (round p rm).slaves ≡ find q rm.slaves
  round-other p q rm apart = elim (Option-cases (find p rm.slaves)) [
    | inl absent ↦ rw (absent, round) refl
    | inr (s, there) ↦
        rw (there, round)
          (elim (run_partition-MovesAt env Cmd to_binlog string2l change_db consensus_level now send
            rm p s s.repl_state there refl) [
              | inl same ↦ ap (find q) same
              | inr (s', moved, move) ↦ ap (find q) moved ∙ find-assign_ne q p s' rm.slaves apart
            ])
  ]

  round-Move :
      (p : PartitionInfo) (rm : Manager env Cmd to_binlog) (s : SyncSlavePartition)
      → find p rm.slaves ≡ some s
      → (s' : SyncSlavePartition) × (find p (round p rm).slaves ≡ some s') × Move s s'
  round-Move p rm s there =
      rw (there, round)
        (elim (run_partition-MovesAt env Cmd to_binlog string2l change_db consensus_level now send
          rm p s s.repl_state there refl) [
            | inl same ↦ (s, ap (find p) same ∙ there, stay)
            | inr (s', moved, move) ↦
                (s', ap (find p) moved ∙ find-assign_self p s' rm.slaves, move)
          ])

  run_other :
      (ps : List PartitionInfo) (q : PartitionInfo) (rm : Manager env Cmd to_binlog)
      → NotIn q ps
      → find q
          (run_partitions env Cmd to_binlog send string2l change_db consensus_level now ps
            rm).slaves
        ≡ find q rm.slaves
  unfolding run_partitions
  run_other [] q rm h = refl
  run_other (p ∷ ps) q rm h = run_other ps q (round p rm) h.1 ∙ round-other p q rm h.0

  run_partitions-Move :
      (ps : List PartitionInfo) (q : PartitionInfo) (rm : Manager env Cmd to_binlog)
      (s : SyncSlavePartition)
      → Distinct ps
      → find q rm.slaves ≡ some s
      → (s' : SyncSlavePartition) × (find q
            (run_partitions env Cmd to_binlog send string2l change_db consensus_level now ps
              rm).slaves
          ≡ some s')
        × Move s s'
  unfolding run_partitions
  run_partitions-Move [] q rm s d h = (s, h, stay)
  run_partitions-Move (p ∷ ps) q rm s d h = elim (Bool-cases (eq p q)) [
    | inl same ↦
        let e = eq_of_eq p q same in
        let one =
          round-Move p rm s (subst (λ (k : PartitionInfo). find k rm.slaves ≡ some s) (sym e) h) in
        (
          one.0,
          subst
              (λ (k : PartitionInfo).
                find k
                  (run_partitions env Cmd to_binlog send string2l change_db consensus_level now ps
                    (round p rm)).slaves
                ≡ some one.0)
              e (run_other ps p (round p rm) d.0 ∙ one.1),
          one.2,
        )
    | inr apart ↦ run_partitions-Move ps q (round p rm) s d.1 (round-other p q rm apart ∙ h)
  ]

  -- RunSyncSlavePartitionStateMachine changes nothing of a slave partition but its state, and that
  -- only from TryConnect or TryDBSync to WaitReply or Error, or from WaitDBSync to TryConnect or
  -- Error, if each partition has one entry; the other states stay.
  pub run_state_machine-Move :
      (rm : Manager env Cmd to_binlog) (q : PartitionInfo) (s : SyncSlavePartition)
      → Distinct (map (λ (e : PartitionInfo × SyncSlavePartition). e.0) rm.slaves)
      → find q rm.slaves ≡ some s
      → (s' : SyncSlavePartition) × (find q
            (run_sync_slave_partition_state_machine env Cmd to_binlog send string2l change_db
              consensus_level now rm).1.slaves
          ≡ some s')
        × Move s s'
  unfolding run_sync_slave_partition_state_machine
  run_state_machine-Move rm q s d h =
      run_partitions-Move (map (λ (e : PartitionInfo × SyncSlavePartition). e.0) rm.slaves) q rm s d
        h
