-- ===== src/WriteQueue/Channel.antt =====
-- What the queues promise one slave and one partition: a channel that keeps its order, and how
-- `ProduceWriteQueue`, `ConsumeWriteQueue` and `DropItemInWriteQueue` implement it.
use pika.Prelude.{
  ℕ, ◌≡◌, refl, ◌∙◌, inl, inr, List, [], ◌∷◌, ◌++◌, Option, append_assoc, append-nil, ◌==◌, arith,
  Bool-cases, if◌then◌else◌, bytes_eq, eq_of_bytes_eq,
}
use pika.Prelude.Table.{
  insert, erase, lookup-insert_self, lookup-insert_ne, lookup-erase_self, lookup-erase_ne,
}
use pika.RmNode.{WriteTask}
use pika.Status.{Status}
use pika.WriteQueue.{
  PartitionQueues, WriteQueues, Call, queues_of, push_partition, produce_tasks, take_packets,
  take_slaves, send_slaves, erase_queues, consume_write_queue, binlog_send_packet_num,
}
use pika.WriteQueue.Batches.{concat}
use pika.WriteQueue.Fifo.{pending, queue_of, take_slaves_lem}
use pika.WriteQueue.Calls.{
  received, has_failed, mem, send_slaves-received, send_slaves-has_failed, lookup-erase_queues,
}
use pika.WriteQueue.Invariant.{IsSound, queue_of-push_partition, take_slaves-AllNamed}

-- The queue after tasks for one slave and one partition were pushed.
unfoldable pub pushed : List ℕ → ℕ → List ℕ → ℕ → List WriteTask → List WriteTask → List WriteTask
pushed index p j q ts queue =
    if bytes_eq j index then (if q == p then queue ++ ts else queue) else queue

pending-insert :
    (index : List ℕ) (p : ℕ) (j : List ℕ) (m : PartitionQueues) (w : WriteQueues)
    → pending index p (insert j m w)
      ≡ (if bytes_eq j index then queue_of p m else pending index p w)
unfolding pending queues_of
pending-insert index p j m w = elim (Bool-cases (bytes_eq j index)) [
  | inl same ↦
      let e = eq_of_bytes_eq j index same in
      rw (same, e) (ground (arith, lookup-insert_self index m w))
  | inr other ↦ ground (arith, other, lookup-insert_ne index j m w other)
]

pending_eq :
    (index j : List ℕ) (p : ℕ) (w : WriteQueues)
    → j ≡ index
    → queue_of p (queues_of j w) ≡ pending index p w
unfolding pending
pending_eq index j p w e = rw e refl

pub produce_tasks-pending :
    (index : List ℕ) (p : ℕ) (j : List ℕ) (q : ℕ) (ts : List WriteTask) (w : WriteQueues)
    → pending index p (produce_tasks j q ts w) ≡ pushed index p j q ts (pending index p w)
unfolding produce_tasks pushed
produce_tasks-pending index p j q [] w = ground (arith, append-nil (pending index p w))
produce_tasks-pending index p j q (t ∷ ts) w =
    let m = push_partition q t (queues_of j w) in
    let ih = produce_tasks-pending index p j q ts (insert j m w) in
    let one = pending-insert index p j m w in
    let two = queue_of-push_partition p q t (queues_of j w) in
    elim (Bool-cases (bytes_eq j index)) [
      | inl same ↦
          let e = pending_eq index j p w (eq_of_bytes_eq j index same) in
          ground (arith, ih, one, two, same, e, append_assoc (pending index p w) (t ∷ []) ts)
      | inr other ↦ ground (arith, ih, one, other)
    ]

pending-erase_queues :
    (answer : List Call → Call → Status) (parse_ip_port : List ℕ → Option (List ℕ × ℕ))
    (index : List ℕ) (p : ℕ) (js : List (List ℕ)) (w : WriteQueues)
    → pending index p (erase_queues answer parse_ip_port js w)
      ≡ (if mem index js then [] else pending index p w)
unfolding pending queues_of queue_of
pending-erase_queues answer parse_ip_port index p js w = elim (Bool-cases (mem index js)) [
  | inl named ↦ ground (arith, named, lookup-erase_queues answer parse_ip_port index js w)
  | inr kept ↦ ground (arith, kept, lookup-erase_queues answer parse_ip_port index js w)
]

pub pending-erase :
    (index : List ℕ) (p : ℕ) (j : List ℕ) (w : WriteQueues)
    → pending index p (erase j w) ≡ (if bytes_eq j index then [] else pending index p w)
unfolding pending queues_of queue_of
pending-erase index p j w = elim (Bool-cases (bytes_eq j index)) [
  | inl same ↦
      let e = eq_of_bytes_eq j index same in
      rw (same, e) (ground (arith, lookup-erase_self index w))
  | inr other ↦ ground (arith, other, lookup-erase_ne index j w other)
]

-- A `ConsumeWriteQueue` sends a slave what the rounds over a queue take, and forgets the queue if one
-- of the calls to the slave failed.
pub consume_write_queue_lem :
    (answer : List Call → Call → Status) (parse_ip_port : List ℕ → Option (List ℕ × ℕ))
    (index : List ℕ) (p : ℕ) (w : WriteQueues)
    → IsSound parse_ip_port w
    → (n : ℕ) × (received index p (consume_write_queue answer parse_ip_port w).0
        ≡ concat (take_packets binlog_send_packet_num (pending index p w) n).to_send)
      × (pending index p (consume_write_queue answer parse_ip_port w).1 ≡ (
          if has_failed answer index (consume_write_queue answer parse_ip_port w).0
          then []
          else (take_packets binlog_send_packet_num (pending index p w) n).left))
unfolding consume_write_queue received has_failed
consume_write_queue_lem answer parse_ip_port index p w h =
    let to_send = (take_slaves w 0).0 in
    let taken = take_slaves_lem index p w 0 h.queues in
    let named = (take_slaves-AllNamed parse_ip_port w 0 h.named).0 in
    let js = (send_slaves answer parse_ip_port to_send []).1 in
    let got = send_slaves-received answer parse_ip_port index p to_send [] named in
    let failed = send_slaves-has_failed answer parse_ip_port index to_send [] named in
    let erased = pending-erase_queues answer parse_ip_port index p js (take_slaves w 0).1 in
    (
      taken.0,
      got ∙ taken.1,
      rw (failed, erased, taken.2)
          (elim (Bool-cases (mem index js)) [
            | inl named ↦ rw named refl
            | inr kept ↦ rw kept refl
          ]),
    )
