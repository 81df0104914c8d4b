-- ===== src/SyncMaster/Timeout.antt =====
-- `CheckSyncTimeout`: which slaves a master keeps.
use pika.Prelude.{
  ℕ, ◌+◌, ◌%◌, ◌^◌, ◌≡◌, ap, ◌⊎◌, inl, inr, Bool, true, false, ◌&&◌, List, [], ◌∷◌, ltb, arith,
  Bool-cases, bytes_eq, bytes_eq_refl,
}
use pika.Prelude.Table.{erase}
use pika.Env.{Env}
use pika.Status.{Status, ok, is_ok}
use pika.LogOffset
use pika.SlaveNode.{SlaveNode}
use pika.SyncProgress.{SyncProgress, slave_key, remove_slave_node}
use pika.WriteQueue.{WriteQueues}
use pika.SyncMaster.{
  Slaves, check_slaves, remove_nodes, check_sync_timeout, recv_keep_alive_timeout,
  send_keep_alive_timeout,
}

module _ (env : Env) where
  -- A slave that was not heard from for longer than the time allowed.
  abbrev pub is_lost : ℕ → SlaveNode env → Bool
  is_lost now n = ltb ((n.last_recv_time + recv_keep_alive_timeout) % 2 ^ 64) now

  -- Every slave stands under the key of its own address.
  abbrev pub AllKeyed : Slaves env → Type 0
  AllKeyed [] = Unit {0}
  AllKeyed ((k, n) ∷ slaves) = (k ≡ slave_key n.ip n.port) × AllKeyed slaves

  abbrev pub AllHeard : ℕ → Slaves env → Type 0
  AllHeard now [] = Unit {0}
  AllHeard now ((k, n) ∷ slaves) = (is_lost now n ≡ false) × AllHeard now slaves

  -- The key is that of one of the nodes.
  abbrev Listed : List ℕ → List (List ℕ × ℕ) → Type 0
  Listed k [] = ⊥
  Listed k ((ip, port) ∷ nodes) = (k ≡ slave_key ip port) ⊎ Listed k nodes

  -- A slave that is lost stands under the key of one of the nodes.
  abbrev AllListed : ℕ → List (List ℕ × ℕ) → Slaves env → Type 0
  AllListed now nodes [] = Unit {0}
  AllListed now nodes ((k, n) ∷ slaves) =
      ((is_lost now n ≡ false) ⊎ Listed k nodes) × AllListed now nodes slaves

  AllListed-cons :
      (now : ℕ) (ip : List ℕ) (port : ℕ) (nodes : List (List ℕ × ℕ)) (slaves : Slaves env)
      → AllListed now nodes slaves
      → AllListed now ((ip, port) ∷ nodes) slaves
  AllListed-cons now ip port nodes [] h = tt
  AllListed-cons now ip port nodes ((k, n) ∷ slaves) (inl heard, h) =
      (inl heard, AllListed-cons now ip port nodes slaves h)
  AllListed-cons now ip port nodes ((k, n) ∷ slaves) (inr listed, h) =
      (inr (inr listed), AllListed-cons now ip port nodes slaves h)

  check_slaves-AllListed :
      (ping : List ℕ → ℕ → Status) (now : ℕ) (slaves : Slaves env)
      → AllKeyed slaves
      → is_ok (check_slaves env ping now slaves).0 ≡ true
      → AllListed now (check_slaves env ping now slaves).2 (check_slaves env ping now slaves).1
  unfolding check_slaves
  check_slaves-AllListed ping now [] keyed h = tt
  check_slaves-AllListed ping now ((k, n) ∷ slaves) keyed h = elim (Bool-cases (is_lost now n)) [
    | inl lost ↦ rw lost (
      inr (inl keyed.0),
      AllListed-cons now n.ip n.port (check_slaves env ping now slaves).2
          (check_slaves env ping now slaves).1
          (check_slaves-AllListed ping now slaves keyed.1 (rw lost at h)),
    )
    | inr heard ↦
        let quiet =
          ltb ((n.last_send_time + send_keep_alive_timeout) % 2 ^ 64) now
          && LogOffset.eq n.sent_offset n.acked_offset in
        elim (Bool-cases quiet) [
          | inr busy ↦
              rw (heard, busy)
                (inl heard, check_slaves-AllListed ping now slaves keyed.1 (rw (heard, busy) at h))
          | inl idle ↦ elim (Bool-cases (is_ok (ping n.ip n.port))) [
            | inl sent ↦
                rw (heard, idle, sent)
                  (
                    inl heard,
                    check_slaves-AllListed ping now slaves keyed.1 (rw (heard, idle, sent) at h),
                  )
            | inr failed ↦ absurd (cc (rw (heard, idle, failed) at h))
          ]
        ]
  ]

  erase-AllListed :
      (now : ℕ) (ip : List ℕ) (port : ℕ) (nodes : List (List ℕ × ℕ)) (slaves : Slaves env)
      → AllListed now ((ip, port) ∷ nodes) slaves
      → AllListed now nodes (erase (slave_key ip port) slaves)
  unfolding erase
  erase-AllListed now ip port nodes [] h = tt
  erase-AllListed now ip port nodes ((k, n) ∷ slaves) h =
      elim (Bool-cases (bytes_eq k (slave_key ip port))) [
        | inl same ↦ rw same (erase-AllListed now ip port nodes slaves h.1)
        | inr other ↦ rw other (
          elim h.0 [
            | inl heard ↦ inl heard
            | inr (inl e) ↦ absurd (
                cc (
                  other,
                  ap (λ (j : List ℕ). bytes_eq j (slave_key ip port)) e,
                  bytes_eq_refl (slave_key ip port),
                ))
            | inr (inr listed) ↦ inr listed
          ],
          erase-AllListed now ip port nodes slaves h.1,
        )
      ]

  AllListed-AllHeard :
      (now : ℕ) (slaves : Slaves env) → AllListed now [] slaves → AllHeard now slaves
  AllListed-AllHeard now [] h = tt
  AllListed-AllHeard now ((k, n) ∷ slaves) (inl heard, h) = (heard, AllListed-AllHeard now slaves h)
  AllListed-AllHeard now ((k, n) ∷ slaves) (inr x, h) = elim x [ ]

  remove_nodes-AllHeard :
      (now : ℕ) (nodes : List (List ℕ × ℕ)) (s : SyncProgress env)
      → AllListed now nodes s.slaves
      → AllHeard now (remove_nodes env s nodes).slaves
  unfolding remove_nodes remove_slave_node
  remove_nodes-AllHeard now [] s h = AllListed-AllHeard now s.slaves h
  remove_nodes-AllHeard now ((ip, port) ∷ nodes) s h =
      remove_nodes-AllHeard now nodes (remove_slave_node env s ip port).1
        (erase-AllListed now ip port nodes s.slaves h)

  -- A CheckSyncTimeout that returns OK leaves no slave that was not heard from within the time
  -- allowed, if every slave stands under the key of its own address.
  pub check_sync_timeout-AllHeard :
      (ping : List ℕ → ℕ → Status) (s : SyncProgress env) (w : WriteQueues) (now : ℕ)
      → AllKeyed s.slaves
      → (check_sync_timeout env ping s w now).0 ≡ ok
      → AllHeard now (check_sync_timeout env ping s w now).1.slaves
  unfolding check_sync_timeout
  check_sync_timeout-AllHeard ping s w now keyed h =
      elim (Bool-cases (is_ok (check_slaves env ping now s.slaves).0)) [
        | inl good ↦ rw good (
            remove_nodes-AllHeard now (check_slaves env ping now s.slaves).2
              (record s { slaves = (check_slaves env ping now s.slaves).1 })
              (check_slaves-AllListed ping now s.slaves keyed good))
        | inr bad ↦ absurd (ground arith)
      ]
