-- ===== src/WriteQueue/Invariant.antt =====
-- The invariant of `write_queues_`: one entry for each slave under the text of its address, one
-- queue for each partition, with the tasks of that partition.
use pika.Prelude.{
  ℕ, ◌≡◌, refl, sym, ◌∙◌, subst, inl, inr, false, List, [], ◌∷◌, ◌++◌, Option, none, ◌==◌, arith,
  Bool-cases, if◌then◌else◌, bytes_eq, bytes_eq_refl, eq_of_bytes_eq,
}
use pika.Prelude.Table.{lookup, insert, erase, lookup-insert_ne}
use pika.RmNode.{WriteTask}
use pika.WriteQueue.{
  PartitionQueues, WriteQueues, ToSend, queues_of, push_partition, produce_tasks, take_packets,
  take_partitions, take_slaves, push_to_send, binlog_send_packet_num,
}
use pika.WriteQueue.Batches.{concat, take_packets_lem}
use pika.WriteQueue.Fifo.{IsPartitions, IsQueues, Tagged, Absent, queue_of}
use pika.WriteQueue.Calls.{AllNamed, IsNamed}

Tagged-append : (p : ℕ) (xs ys : List WriteTask) → Tagged p xs → Tagged p ys → Tagged p (xs ++ ys)
Tagged-append p [] ys h k = k
Tagged-append p (x ∷ xs) ys h k = (h.0, Tagged-append p xs ys h.1 k)

Tagged-back : (p : ℕ) (xs ys : List WriteTask) → Tagged p (xs ++ ys) → Tagged p ys
Tagged-back p [] ys h = h
Tagged-back p (x ∷ xs) ys h = Tagged-back p xs ys h.1

Absent-push_partition :
    (q p : ℕ) (t : WriteTask) (m : PartitionQueues)
    → Absent q m
    → (p == q) ≡ false
    → Absent q (push_partition p t m)
unfolding push_partition
Absent-push_partition q p t [] h e = (e, tt)
Absent-push_partition q p t ((r, queue) ∷ m) h e = elim (Bool-cases (r == p)) [
  | inl same ↦ rw same h
  | inr other ↦ rw other (h.0, Absent-push_partition q p t m h.1 e)
]

push_partition-IsPartitions :
    (p : ℕ) (t : WriteTask) (m : PartitionQueues)
    → t.rm_node.partition_info.partition_id ≡ p
    → IsPartitions m
    → IsPartitions (push_partition p t m)
unfolding push_partition
push_partition-IsPartitions p t [] e h = ((e, tt), tt, tt)
push_partition-IsPartitions p t ((q, queue) ∷ m) e h = elim (Bool-cases (q == p)) [
  | inl same ↦
      let k : p ≡ q = ground (arith, same) in
      rw same (Tagged-append q queue (t ∷ []) h.0 (e ∙ k, tt), h.1, h.2)
  | inr other ↦
      let k : (p == q) ≡ false = ground (arith, other) in
      rw other (h.0, Absent-push_partition q p t m h.1 k, push_partition-IsPartitions p t m e h.2)
]

pub queue_of-push_partition :
    (r p : ℕ) (t : WriteTask) (m : PartitionQueues)
    → queue_of r (push_partition p t m)
      ≡ (if p == r then queue_of r m ++ (t ∷ []) else queue_of r m)
unfolding push_partition queue_of
queue_of-push_partition r p t [] = ground arith
queue_of-push_partition r p t ((q, queue) ∷ m) = ground (arith, queue_of-push_partition r p t m)

Absent-take_partitions :
    (p : ℕ) (m : PartitionQueues) (counter : ℕ)
    → Absent p m
    → Absent p (take_partitions m counter).1
unfolding take_partitions
Absent-take_partitions p [] counter h = tt
Absent-take_partitions p ((q, queue) ∷ m) counter h = (
  h.0,
  Absent-take_partitions p m (take_packets binlog_send_packet_num queue counter).counter h.1,
)

take_partitions-IsPartitions :
    (m : PartitionQueues) (counter : ℕ)
    → IsPartitions m
    → IsPartitions (take_partitions m counter).1
unfolding take_partitions
take_partitions-IsPartitions [] counter h = tt
take_partitions-IsPartitions ((p, queue) ∷ m) counter h =
    let r = take_packets binlog_send_packet_num queue counter in
    (
      Tagged-back p (concat r.to_send) r.left
          (subst (Tagged p) (sym (take_packets_lem binlog_send_packet_num queue counter).0) h.0),
      Absent-take_partitions p m r.counter h.1,
      take_partitions-IsPartitions m r.counter h.2,
    )

lookup-take_slaves-none :
    (index : List ℕ) (w : WriteQueues) (counter : ℕ)
    → lookup index w ≡ none
    → lookup index (take_slaves w counter).1 ≡ none
unfolding take_slaves lookup
lookup-take_slaves-none index [] counter h = refl
lookup-take_slaves-none index ((j, m) ∷ w) counter h = elim (Bool-cases (bytes_eq j index)) [
  | inl same ↦ absurd (cc (rw same at h))
  | inr other ↦
      rw other (lookup-take_slaves-none index w (take_partitions m counter).2 (rw other at h))
]

pub take_slaves-IsQueues :
    (w : WriteQueues) (counter : ℕ) → IsQueues w → IsQueues (take_slaves w counter).1
unfolding take_slaves
take_slaves-IsQueues [] counter h = tt
take_slaves-IsQueues ((index, m) ∷ w) counter h =
    let n = (take_partitions m counter).2 in
    (
      take_partitions-IsPartitions m counter h.0,
      lookup-take_slaves-none index w n h.1,
      take_slaves-IsQueues w n h.2,
    )

lookup-erase-none :
    (index j : List ℕ) (w : WriteQueues) → lookup index w ≡ none → lookup index (erase j w) ≡ none
unfolding lookup erase
lookup-erase-none index j [] h = refl
lookup-erase-none index j ((i, m) ∷ w) h = ground (arith, lookup-erase-none index j w, h)

pub erase-IsQueues : (j : List ℕ) (w : WriteQueues) → IsQueues w → IsQueues (erase j w)
unfolding erase
erase-IsQueues j [] h = tt
erase-IsQueues j ((index, m) ∷ w) h = elim (Bool-cases (bytes_eq index j)) [
  | inl same ↦ rw same (erase-IsQueues j w h.2)
  | inr other ↦ rw other (h.0, lookup-erase-none index j w h.1, erase-IsQueues j w h.2)
]

pub insert-IsQueues :
    (index : List ℕ) (m : PartitionQueues) (w : WriteQueues)
    → IsPartitions m
    → IsQueues w
    → IsQueues (insert index m w)
unfolding insert lookup
insert-IsQueues index m [] k h = (k, refl, tt)
insert-IsQueues index m ((j, n) ∷ w) k h = elim (Bool-cases (bytes_eq j index)) [
  | inl same ↦ rw same (k, h.1, h.2)
  | inr other ↦
      let apart : bytes_eq index j ≡ false =
        ground (arith, eq_of_bytes_eq index j, bytes_eq_refl j, other) in
      rw other (h.0, lookup-insert_ne j index m w apart ∙ h.1, insert-IsQueues index m w k h.2)
]

queues_of-cons :
    (index j : List ℕ) (m : PartitionQueues) (w : WriteQueues)
    → queues_of index ((j, m) ∷ w) ≡ (if bytes_eq j index then m else queues_of index w)
unfolding queues_of lookup
queues_of-cons index j m w = ground arith

queues_of_nil : (index : List ℕ) → IsPartitions (queues_of index [])
unfolding queues_of lookup
queues_of_nil index = tt

queues_of-IsPartitions :
    (index : List ℕ) (w : WriteQueues) → IsQueues w → IsPartitions (queues_of index w)
queues_of-IsPartitions index [] h = queues_of_nil index
queues_of-IsPartitions index ((j, m) ∷ w) h = elim (Bool-cases (bytes_eq j index)) [
  | inl same ↦ rw (queues_of-cons index j m w, same) h.0
  | inr other ↦ rw (queues_of-cons index j m w, other) (queues_of-IsPartitions index w h.2)
]

module _ (parse_ip_port : List ℕ → Option (List ℕ × ℕ)) where
  insert-AllNamed :
      (index : List ℕ) (m : PartitionQueues) (w : WriteQueues)
      → IsNamed parse_ip_port index
      → AllNamed parse_ip_port w
      → AllNamed parse_ip_port (insert index m w)
  unfolding insert
  insert-AllNamed index m [] k h = (k, tt)
  insert-AllNamed index m ((j, n) ∷ w) k h = elim (Bool-cases (bytes_eq j index)) [
    | inl same ↦ rw same h
    | inr other ↦ rw other (h.0, insert-AllNamed index m w k h.1)
  ]

  pub erase-AllNamed :
      (j : List ℕ) (w : WriteQueues) → AllNamed parse_ip_port w → AllNamed parse_ip_port (erase j w)
  unfolding erase
  erase-AllNamed j [] h = tt
  erase-AllNamed j ((index, m) ∷ w) h = elim (Bool-cases (bytes_eq index j)) [
    | inl same ↦ rw same (erase-AllNamed j w h.1)
    | inr other ↦ rw other (h.0, erase-AllNamed j w h.1)
  ]

  push_to_send-AllNamed :
      (index : List ℕ) (bs : List (List WriteTask)) (m : ToSend)
      → IsNamed parse_ip_port index
      → AllNamed parse_ip_port m
      → AllNamed parse_ip_port (push_to_send index bs m)
  push_to_send-AllNamed index [] m k h = h
  push_to_send-AllNamed index (b ∷ bs) m k h = (k, h)

  pub take_slaves-AllNamed :
      (w : WriteQueues) (counter : ℕ)
      → AllNamed parse_ip_port w
      → AllNamed parse_ip_port (take_slaves w counter).0
        × AllNamed parse_ip_port (take_slaves w counter).1
  unfolding take_slaves
  take_slaves-AllNamed [] counter h = (tt, tt)
  take_slaves-AllNamed ((index, m) ∷ w) counter h =
      let n = (take_partitions m counter).2 in
      let ih = take_slaves-AllNamed w n h.1 in
      (
        push_to_send-AllNamed index (take_partitions m counter).0 (take_slaves w n).0 h.0 ih.0,
        (h.0, ih.1),
      )

  -- The invariant.
  pub record IsSound (w : WriteQueues) : Type 0 where
    pub queues : IsQueues w
    pub named : AllNamed parse_ip_port w

  pub erase-IsSound : (j : List ℕ) (w : WriteQueues) → IsSound w → IsSound (erase j w)
  erase-IsSound j w h = record {
    queues = erase-IsQueues j w h.queues;
    named = erase-AllNamed j w h.named;
  }

  pub take_slaves-IsSound :
      (w : WriteQueues) (counter : ℕ) → IsSound w → IsSound (take_slaves w counter).1
  take_slaves-IsSound w counter h = record {
    queues = take_slaves-IsQueues w counter h.queues;
    named = (take_slaves-AllNamed w counter h.named).1;
  }

  -- `ProduceWriteQueue` keeps the invariant if the tasks are of the partition.
  pub produce_tasks-IsSound :
      (index : List ℕ) (p : ℕ) (ts : List WriteTask) (w : WriteQueues)
      → IsNamed parse_ip_port index
      → Tagged p ts
      → IsSound w
      → IsSound (produce_tasks index p ts w)
  unfolding produce_tasks
  produce_tasks-IsSound index p [] w k e h = h
  produce_tasks-IsSound index p (t ∷ ts) w k e h =
      let m = push_partition p t (queues_of index w) in
      produce_tasks-IsSound index p ts (insert index m w) k e.1 (record {
        queues =
            insert-IsQueues index m w
              (push_partition-IsPartitions p t (queues_of index w) e.0
                (queues_of-IsPartitions index w h.queues))
              h.queues;
        named = insert-AllNamed index m w k h.named;
      })
