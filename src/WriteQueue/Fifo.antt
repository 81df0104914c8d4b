-- ===== src/WriteQueue/Fifo.antt =====
-- What `ConsumeWriteQueue` takes of one slave's queues, seen from one partition.
use pika.Prelude.{
  ℕ, zero, suc, ◌≡◌, refl, ap, sym, inl, inr, ◌∙◌, subst, false, List, [], ◌∷◌, ◌++◌, none,
  append_assoc, append-nil, ◌==◌, arith, Bool-cases, if◌then◌else◌, bytes_eq, eq_of_bytes_eq,
}
use pika.Prelude.Table.{lookup}
use pika.RmNode.{WriteTask}
use pika.WriteQueue.{
  PartitionQueues, WriteQueues, ToSend, take_packets, take_partitions, take_slaves, push_to_send,
  queues_of, binlog_send_packet_num,
}
use pika.WriteQueue.Batches.{concat, take_packets_lem}

-- The tasks of one partition, in their order.
unfoldable pub of_partition : ℕ → List WriteTask → List WriteTask
of_partition p [] = []
of_partition p (t ∷ ts) =
    let rest = of_partition p ts in
    if t.rm_node.partition_info.partition_id == p then t ∷ rest else rest

-- The queue of a partition, empty where there is none.
unfoldable pub queue_of : ℕ → PartitionQueues → List WriteTask
queue_of p [] = []
queue_of p ((q, queue) ∷ m) = if q == p then queue else queue_of p m

-- What waits for a slave and a partition.
unfoldable pub pending : List ℕ → ℕ → WriteQueues → List WriteTask
pending index p w = queue_of p (queues_of index w)

abbrev pub Tagged : ℕ → List WriteTask → Type 0
Tagged p [] = Unit {0}
Tagged p (t ∷ ts) = (t.rm_node.partition_info.partition_id ≡ p) × Tagged p ts

abbrev pub Absent : ℕ → PartitionQueues → Type 0
Absent p [] = Unit {0}
Absent p ((q, queue) ∷ m) = ((q == p) ≡ false) × Absent p m

-- A partition has one queue, which holds the tasks of that partition.
abbrev pub IsPartitions : PartitionQueues → Type 0
IsPartitions [] = Unit {0}
IsPartitions ((p, queue) ∷ m) = Tagged p queue × Absent p m × IsPartitions m

concat-append : (xs ys : List (List WriteTask)) → concat (xs ++ ys) ≡ concat xs ++ concat ys
unfolding concat
concat-append [] ys = refl
concat-append (x ∷ xs) ys = rw (concat-append xs ys, append_assoc) refl

pub of_partition-append :
    (p : ℕ) (xs ys : List WriteTask)
    → of_partition p (xs ++ ys) ≡ of_partition p xs ++ of_partition p ys
unfolding of_partition
of_partition-append p [] ys = refl
of_partition-append p (x ∷ xs) ys = elim (Bool-cases (x.rm_node.partition_info.partition_id == p)) [
  | inl same ↦ rw same (ap (◌∷◌ x) (of_partition-append p xs ys))
  | inr other ↦ rw other (of_partition-append p xs ys)
]

Tagged-front : (p : ℕ) (xs ys : List WriteTask) → Tagged p (xs ++ ys) → Tagged p xs
Tagged-front p [] ys h = tt
Tagged-front p (x ∷ xs) ys h = (h.0, Tagged-front p xs ys h.1)

of_partition_same : (p : ℕ) (ts : List WriteTask) → Tagged p ts → of_partition p ts ≡ ts
unfolding of_partition
of_partition_same p [] h = refl
of_partition_same p (t ∷ ts) h = ground (arith, of_partition_same p ts h.1, h.0)

of_partition_other :
    (p q : ℕ) (ts : List WriteTask) → Tagged q ts → (q == p) ≡ false → of_partition p ts ≡ []
unfolding of_partition
of_partition_other p q [] h e = refl
of_partition_other p q (t ∷ ts) h e = ground (arith, of_partition_other p q ts h.1 e, h.0, e)

-- What is taken of a queue has the queue's tag.
taken-Tagged :
    (q packets : ℕ) (queue : List WriteTask) (counter : ℕ)
    → Tagged q queue
    → Tagged q (concat (take_packets packets queue counter).to_send)
taken-Tagged q packets queue counter h =
    let r = take_packets packets queue counter in
    Tagged-front q (concat r.to_send) r.left
      (subst (Tagged q) (sym (take_packets_lem packets queue counter).0) h)

queue_of-Absent : (p : ℕ) (m : PartitionQueues) → Absent p m → queue_of p m ≡ []
unfolding queue_of
queue_of-Absent p [] h = refl
queue_of-Absent p ((q, queue) ∷ m) h = rw (h.0) (queue_of-Absent p m h.1)

of_partition_nil : (p : ℕ) → of_partition p (concat []) ≡ []
unfolding of_partition concat
of_partition_nil p = refl

pub take_packets_none :
    (packets counter : ℕ)
    → (concat (take_packets packets [] counter).to_send ≡ [])
      × ((take_packets packets [] counter).left ≡ [])
unfolding take_packets concat
take_packets_none zero counter = (refl, refl)
take_packets_none (suc packets) counter = (refl, refl)

-- Of one partition the loop takes what the rounds over its queue take, from some counter.
pub take_partitions_lem :
    (p : ℕ) (m : PartitionQueues) (counter : ℕ)
    → IsPartitions m
    → (n : ℕ) × (of_partition p (concat (take_partitions m counter).0)
        ≡ concat (take_packets binlog_send_packet_num (queue_of p m) n).to_send)
      × (queue_of p (take_partitions m counter).1
          ≡ (take_packets binlog_send_packet_num (queue_of p m) n).left)
unfolding take_partitions queue_of
take_partitions_lem p [] counter h =
    let none = take_packets_none binlog_send_packet_num 0 in
    (0, of_partition_nil p ∙ sym none.0, sym none.1)
take_partitions_lem p ((q, queue) ∷ m) counter h =
    let r = take_packets binlog_send_packet_num queue counter in
    let tagged = taken-Tagged q binlog_send_packet_num queue counter h.0 in
    let ih = take_partitions_lem p m r.counter h.2 in
    let after = (take_partitions m r.counter).0 in
    elim (Bool-cases (q == p)) [
      | inl same ↦
          let e : q ≡ p = ground (arith, same) in
          let empty = queue_of-Absent p m (subst (λ (k : ℕ). Absent k m) e h.1) in
          let nothing = (rw empty at ih.1) ∙ (take_packets_none binlog_send_packet_num ih.0).0 in
          (
            counter,
            rw
                (
                  same,
                  concat-append,
                  of_partition-append p (concat r.to_send) (concat after),
                  nothing,
                  append-nil,
                )
                (of_partition_same p (concat r.to_send)
                  (subst (λ (k : ℕ). Tagged k (concat r.to_send)) e tagged)),
            rw same refl,
          )
      | inr other ↦ (
        ih.0,
        rw
            (
              other,
              concat-append,
              of_partition-append p (concat r.to_send) (concat after),
              of_partition_other p q (concat r.to_send) tagged other,
            )
            ih.1,
        rw other ih.2,
      )
    ]

-- Each slave has one entry, with queues for its partitions.
abbrev pub IsQueues : WriteQueues → Type 0
IsQueues [] = Unit {0}
IsQueues ((index, m) ∷ w) = IsPartitions m × (lookup index w ≡ none) × IsQueues w

-- What `to_send_map` holds for a slave.
unfoldable pub sent_to : List ℕ → ToSend → List WriteTask
sent_to index [] = []
sent_to index ((j, batches) ∷ m) =
    if bytes_eq j index then concat batches ++ sent_to index m else sent_to index m

sent_to-push_to_send :
    (index j : List ℕ) (batches : List (List WriteTask)) (m : ToSend)
    → sent_to index (push_to_send j batches m)
      ≡ (if bytes_eq j index then concat batches ++ sent_to index m else sent_to index m)
unfolding sent_to concat
sent_to-push_to_send index j [] m = ground arith
sent_to-push_to_send index j (b ∷ batches) m = refl

-- A slave that has no queues is sent nothing.
sent_to-none :
    (index : List ℕ) (w : WriteQueues) (counter : ℕ)
    → lookup index w ≡ none
    → sent_to index (take_slaves w counter).0 ≡ []
unfolding take_slaves lookup sent_to
sent_to-none index [] counter h = refl
sent_to-none index ((j, m) ∷ w) counter h = elim (Bool-cases (bytes_eq j index)) [
  | inl same ↦ absurd (cc (rw same at h))
  | inr other ↦
      rw
        (
          sent_to-push_to_send index j (take_partitions m counter).0
              (take_slaves w (take_partitions m counter).2).0,
          other,
        )
        (sent_to-none index w (take_partitions m counter).2 (rw other at h))
]

pub pending-cons :
    (index : List ℕ) (p : ℕ) (j : List ℕ) (m : PartitionQueues) (w : WriteQueues)
    → pending index p ((j, m) ∷ w) ≡ (if bytes_eq j index then queue_of p m else pending index p w)
unfolding pending queues_of lookup
pending-cons index p j m w = ground arith

pub pending_nil : (index : List ℕ) (p : ℕ) → pending index p [] ≡ []
unfolding pending queues_of queue_of lookup
pending_nil index p = refl

sent_to_nil : (index : List ℕ) (p : ℕ) → of_partition p (sent_to index []) ≡ []
unfolding of_partition sent_to
sent_to_nil index p = refl

-- Of one slave and one partition `ConsumeWriteQueue` takes what the rounds over that queue take.
pub take_slaves_lem :
    (index : List ℕ) (p : ℕ) (w : WriteQueues) (counter : ℕ)
    → IsQueues w
    → (n : ℕ) × (of_partition p (sent_to index (take_slaves w counter).0)
        ≡ concat (take_packets binlog_send_packet_num (pending index p w) n).to_send)
      × (pending index p (take_slaves w counter).1
          ≡ (take_packets binlog_send_packet_num (pending index p w) n).left)
unfolding take_slaves
take_slaves_lem index p [] counter h =
    let none = take_packets_none binlog_send_packet_num 0 in
    (
      0,
      rw (pending_nil index p) (sent_to_nil index p ∙ sym none.0),
      rw (pending_nil index p) (sym none.1),
    )
take_slaves_lem index p ((j, m) ∷ w) counter h =
    let batches = (take_partitions m counter).0 in
    let n = (take_partitions m counter).2 in
    let rest = (take_slaves w n).0 in
    let cons1 = pending-cons index p j m w in
    let cons2 = pending-cons index p j (take_partitions m counter).1 (take_slaves w n).1 in
    elim (Bool-cases (bytes_eq j index)) [
      | inl same ↦
          let here = take_partitions_lem p m counter h.0 in
          let e : j ≡ index = eq_of_bytes_eq j index same in
          let nothing = sent_to-none index w n (subst (λ (k : List ℕ). lookup k w ≡ none) e h.1) in
          (
            here.0,
            rw (cons1, sent_to-push_to_send index j batches rest, same, nothing, append-nil) here.1,
            rw (cons1, cons2, same) here.2,
          )
      | inr other ↦
          let ih = take_slaves_lem index p w n h.2 in
          (
            ih.0,
            rw (cons1, sent_to-push_to_send index j batches rest, other) ih.1,
            rw (cons1, cons2, other) ih.2,
          )
    ]
