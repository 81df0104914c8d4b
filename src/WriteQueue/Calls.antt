-- ===== src/WriteQueue/Calls.antt =====
-- The calls of `SendSlaveBinlogChips` that `ConsumeWriteQueue` makes, seen from one slave.
use pika.Prelude.{
  ℕ, ◌≡◌, refl, sym, inl, inr, Bool, true, false, List, [], ◌∷◌, ◌++◌, Option, none, some,
  append_assoc, append-nil, arith, Bool-cases, if◌then◌else◌, bytes_eq, eq_of_bytes_eq,
}
use pika.Prelude.Table.{lookup, erase, lookup-erase_self, lookup-erase_ne}
use pika.Status.{Status, is_ok}
use pika.RmNode.{WriteTask}
use pika.WriteQueue.{
  WriteQueues, ToSend, Call, queue_index, send_batches, send_slaves, erase_queues,
}
use pika.WriteQueue.Batches.{concat}
use pika.WriteQueue.Fifo.{of_partition, of_partition-append, sent_to}

-- Whether a call goes to the slave.
abbrev pub is_to : List ℕ → Call → Bool
is_to index c = bytes_eq (queue_index c.ip c.port) index

-- What the slave is sent of a partition, in the order of the calls.
unfoldable pub received : List ℕ → ℕ → List Call → List WriteTask
received index p [] = []
received index p (c ∷ calls) =
    if is_to index c
    then received index p calls ++ of_partition p c.tasks
    else received index p calls

unfoldable pub mem : List ℕ → List (List ℕ) → Bool
mem index [] = false
mem index (j ∷ js) = if bytes_eq j index then true else mem index js

module _ (parse_ip_port : List ℕ → Option (List ℕ × ℕ)) where
  -- The index of a queue is the text of an address.
  abbrev pub IsNamed : List ℕ → Type 0
  IsNamed index =
      (ip : List ℕ) × (port : ℕ) × (parse_ip_port index ≡ some (ip, port))
      × (queue_index ip port ≡ index)

  abbrev pub AllNamed {ℓ} : {V : Type ℓ} → List (List ℕ × V) → Type 0
  AllNamed [] = Unit {0}
  AllNamed ((index, v) ∷ m) = IsNamed index × AllNamed m

-- Whether one of the calls to the slave failed.
unfoldable pub has_failed : (List Call → Call → Status) → List ℕ → List Call → Bool
has_failed answer index [] = false
has_failed answer index (c ∷ calls) =
    if is_to index c
    then (if is_ok (answer calls c) then has_failed answer index calls else true)
    else has_failed answer index calls

module _ (answer : List Call → Call → Status) (parse_ip_port : List ℕ → Option (List ℕ × ℕ)) where
  module _ (index : List ℕ) (p : ℕ) (ip : List ℕ) (port : ℕ) where
    send_batches-received :
        (bs : List (List WriteTask)) (calls : List Call)
        → received index p (send_batches answer parse_ip_port ip port bs calls).0 ≡ (
            if bytes_eq (queue_index ip port) index
            then received index p calls ++ of_partition p (concat bs)
            else received index p calls)
    unfolding send_batches received concat of_partition
    send_batches-received [] calls = ground (arith, append-nil (received index p calls))
    send_batches-received (b ∷ bs) calls =
        let ih = send_batches-received bs (record { ip = ip; port = port; tasks = b } ∷ calls) in
        ground (
          arith,
          ih,
          append_assoc (received index p calls) (of_partition p b) (of_partition p (concat bs)),
          of_partition-append p b (concat bs),
        )

    send_batches-has_failed :
        (bs : List (List WriteTask)) (calls : List Call)
        → has_failed answer index (send_batches answer parse_ip_port ip port bs calls).0 ≡ (
            if bytes_eq (queue_index ip port) index
            then (if (send_batches answer parse_ip_port ip port bs calls).1
                then true
                else has_failed answer index calls)
            else has_failed answer index calls)
    unfolding send_batches has_failed
    send_batches-has_failed [] calls = ground arith
    send_batches-has_failed (b ∷ bs) calls =
        let ih = send_batches-has_failed bs (record { ip = ip; port = port; tasks = b } ∷ calls) in
        ground (arith, ih)

  pub send_slaves-received :
      (index : List ℕ) (p : ℕ) (m : ToSend) (calls : List Call)
      → AllNamed parse_ip_port m
      → received index p (send_slaves answer parse_ip_port m calls).0
        ≡ received index p calls ++ of_partition p (sent_to index m)
  unfolding send_slaves sent_to of_partition
  send_slaves-received index p [] calls h = sym (append-nil (received index p calls))
  send_slaves-received index p ((j, bs) ∷ m) calls ((ip, port, e, k), h) =
      let calls' = (send_batches answer parse_ip_port ip port bs calls).0 in
      let one : received index p calls' ≡ (
          if bytes_eq j index
          then received index p calls ++ of_partition p (concat bs)
          else received index p calls) =
        rw k at (send_batches-received index p ip port bs calls) in
      let ih = send_slaves-received index p m calls' h in
      rw (e, send_slaves)
        (elim (Bool-cases (bytes_eq j index)) [
          | inl same ↦
              rw (ih, one, same, of_partition-append p (concat bs) (sent_to index m))
                (append_assoc (received index p calls) (of_partition p (concat bs))
                  (of_partition p (sent_to index m)))
          | inr other ↦ rw (ih, one, other) refl
        ])

  pub send_slaves-has_failed :
      (index : List ℕ) (m : ToSend) (calls : List Call)
      → AllNamed parse_ip_port m
      → has_failed answer index (send_slaves answer parse_ip_port m calls).0 ≡ (
          if mem index (send_slaves answer parse_ip_port m calls).1
          then true
          else has_failed answer index calls)
  unfolding send_slaves mem
  send_slaves-has_failed index [] calls h = refl
  send_slaves-has_failed index ((j, bs) ∷ m) calls ((ip, port, e, k), h) =
      let calls' = (send_batches answer parse_ip_port ip port bs calls).0 in
      let one = rw k at (send_batches-has_failed index 0 ip port bs calls) in
      let ih = send_slaves-has_failed index m calls' h in
      rw (e, send_slaves) (ground (arith, one, ih))

  pub lookup-erase_queues :
      (index : List ℕ) (js : List (List ℕ)) (w : WriteQueues)
      → lookup index (erase_queues answer parse_ip_port js w)
        ≡ (if mem index js then none else lookup index w)
  unfolding erase_queues mem
  lookup-erase_queues index [] w = refl
  lookup-erase_queues index (j ∷ js) w =
      let ih = lookup-erase_queues index js (erase j w) in
      elim (Bool-cases (bytes_eq j index)) [
        | inl same ↦
            let e = eq_of_bytes_eq j index same in
            rw (same, ih, e, lookup-erase_self index w) (ground arith)
        | inr other ↦ rw (other, ih, lookup-erase_ne index j w other) refl
      ]
