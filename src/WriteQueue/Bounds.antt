-- ===== src/WriteQueue/Bounds.antt =====
-- The size of what `ConsumeWriteQueue` hands to one call of `SendSlaveBinlogChips`.
use pika.Prelude.{ℕ, ◌≤◌, ◌<◌, List, [], ◌∷◌, ◌++◌, Option, Option-cases, inl, inr, length}
use pika.RmNode.{WriteTask}
use pika.Status.{Status}
use pika.WriteQueue.{
  PartitionQueues, WriteQueues, ToSend, Call, take_packets, take_partitions, take_slaves,
  push_to_send, send_batches, send_slaves, consume_write_queue, binlog_send_packet_num,
  binlog_send_batch_num, max_conn_rbuf_hb,
}
use pika.WriteQueue.Batches.{
  bytes, AllBelow, AllSized, AllWithin, take_packets-AllSized, take_packets-AllWithin,
}

-- From one to 100 tasks, whose binlogs keep within the limit of 512 MB.
abbrev pub IsBatch : List WriteTask → Type 0
IsBatch b = (0 < length b) × (length b ≤ binlog_send_batch_num) × (bytes b ≤ max_conn_rbuf_hb)

abbrev AllBatches : List (List WriteTask) → Type 0
AllBatches [] = Unit {0}
AllBatches (b ∷ bs) = IsBatch b × AllBatches bs

abbrev AllToSend : ToSend → Type 0
AllToSend [] = Unit {0}
AllToSend ((index, bs) ∷ m) = AllBatches bs × AllToSend m

abbrev pub AllCalls : List Call → Type 0
AllCalls [] = Unit {0}
AllCalls (c ∷ calls) = IsBatch c.tasks × AllCalls calls

-- No binlog of the queues is longer than the limit.
abbrev pub PartitionsBelow : PartitionQueues → Type 0
PartitionsBelow [] = Unit {0}
PartitionsBelow ((p, queue) ∷ m) = AllBelow max_conn_rbuf_hb queue × PartitionsBelow m

abbrev pub QueuesBelow : WriteQueues → Type 0
QueuesBelow [] = Unit {0}
QueuesBelow ((index, m) ∷ w) = PartitionsBelow m × QueuesBelow w

AllBatches-join : (bs : List (List WriteTask)) → AllSized bs → AllWithin bs → AllBatches bs
AllBatches-join [] h k = tt
AllBatches-join (b ∷ bs) h k = ((h.0, h.1, k.0), AllBatches-join bs h.2 k.1)

AllBatches-append :
    (xs ys : List (List WriteTask)) → AllBatches xs → AllBatches ys → AllBatches (xs ++ ys)
AllBatches-append [] ys h k = k
AllBatches-append (x ∷ xs) ys h k = (h.0, AllBatches-append xs ys h.1 k)

take_partitions-AllBatches :
    (m : PartitionQueues) (counter : ℕ)
    → PartitionsBelow m
    → AllBatches (take_partitions m counter).0
unfolding take_partitions
take_partitions-AllBatches [] counter h = tt
take_partitions-AllBatches ((p, queue) ∷ m) counter h =
    let r = take_packets binlog_send_packet_num queue counter in
    AllBatches-append r.to_send (take_partitions m r.counter).0
      (AllBatches-join r.to_send (take_packets-AllSized binlog_send_packet_num queue counter)
        (take_packets-AllWithin binlog_send_packet_num queue counter h.0))
      (take_partitions-AllBatches m r.counter h.1)

push_to_send-AllToSend :
    (index : List ℕ) (bs : List (List WriteTask)) (m : ToSend)
    → AllBatches bs
    → AllToSend m
    → AllToSend (push_to_send index bs m)
push_to_send-AllToSend index [] m h k = k
push_to_send-AllToSend index (b ∷ bs) m h k = (h, k)

take_slaves-AllToSend :
    (w : WriteQueues) (counter : ℕ) → QueuesBelow w → AllToSend (take_slaves w counter).0
unfolding take_slaves
take_slaves-AllToSend [] counter h = tt
take_slaves-AllToSend ((index, m) ∷ w) counter h =
    let n = (take_partitions m counter).2 in
    push_to_send-AllToSend index (take_partitions m counter).0 (take_slaves w n).0
      (take_partitions-AllBatches m counter h.0) (take_slaves-AllToSend w n h.1)

module _ (answer : List Call → Call → Status) (parse_ip_port : List ℕ → Option (List ℕ × ℕ)) where
  send_batches-AllCalls :
      (ip : List ℕ) (port : ℕ) (bs : List (List WriteTask)) (calls : List Call)
      → AllBatches bs
      → AllCalls calls
      → AllCalls (send_batches answer parse_ip_port ip port bs calls).0
  unfolding send_batches
  send_batches-AllCalls ip port [] calls h k = k
  send_batches-AllCalls ip port (b ∷ bs) calls h k =
      send_batches-AllCalls ip port bs (record { ip = ip; port = port; tasks = b } ∷ calls) h.1
        (h.0, k)

  send_slaves-AllCalls :
      (m : ToSend) (calls : List Call)
      → AllToSend m
      → AllCalls calls
      → AllCalls (send_slaves answer parse_ip_port m calls).0
  unfolding send_slaves
  send_slaves-AllCalls [] calls h k = k
  send_slaves-AllCalls ((index, bs) ∷ m) calls h k = elim (Option-cases (parse_ip_port index)) [
    | inl bad ↦ rw (bad, send_slaves) (send_slaves-AllCalls m calls h.1 k)
    | inr ((ip, port), e) ↦
        rw (e, send_slaves)
          (send_slaves-AllCalls m (send_batches answer parse_ip_port ip port bs calls).0 h.1
            (send_batches-AllCalls ip port bs calls h.0 k))
  ]

  -- If no queued binlog is longer than 512 MB, every call of SendSlaveBinlogChips that
  -- ConsumeWriteQueue makes has from 1 to 100 tasks, with at most 512 MB of binlogs in all.
  pub consume_write_queue-AllCalls :
      (w : WriteQueues) → QueuesBelow w → AllCalls (consume_write_queue answer parse_ip_port w).0
  unfolding consume_write_queue
  consume_write_queue-AllCalls w h =
      send_slaves-AllCalls (take_slaves w 0).0 [] (take_slaves-AllToSend w 0 h) tt
