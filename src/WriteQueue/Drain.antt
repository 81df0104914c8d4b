-- ===== src/WriteQueue/Drain.antt =====
-- How many calls of `ConsumeWriteQueue` empty a queue, and what stops them.
use pika.Prelude.{
  ℕ, zero, suc, ◌-◌, ◌≤◌, ◌<◌, ◌^◌, ◌≡◌, refl, sym, ◌∙◌, subst, inl, inr, List, [], ◌∷◌, Option,
  arith, Bool-cases, if◌then◌else◌, length,
}
use pika.RmNode.{WriteTask}
use pika.Status.{Status}
use pika.WriteQueue.{
  WriteQueues, Call, take_packets, consume_write_queue, binlog_send_packet_num, max_conn_rbuf_hb,
}
use pika.WriteQueue.Batches.{
  concat, AllBelow, AllBelow-append, take_packets_lem, take_packets-shrinks, take_packets-blocked,
}
use pika.WriteQueue.Fifo.{pending, take_packets_none}
use pika.WriteQueue.Calls.{received, has_failed}
use pika.WriteQueue.Invariant.{IsSound}
use pika.WriteQueue.Channel.{consume_write_queue_lem}
use pika.WriteQueue.Run.{consume_write_queue-IsSound}

-- What is left of a queue.
left_lem :
    (queue : List WriteTask) (counter : ℕ)
    → AllBelow max_conn_rbuf_hb queue
    → AllBelow max_conn_rbuf_hb (take_packets binlog_send_packet_num queue counter).left
      × (length (take_packets binlog_send_packet_num queue counter).left ≤ length queue - 1)
left_lem [] counter all =
    rw ((take_packets_none binlog_send_packet_num counter).1) (tt, omega arith)
left_lem (t ∷ queue) counter all =
    let r = take_packets binlog_send_packet_num (t ∷ queue) counter in
    (
      AllBelow-append max_conn_rbuf_hb (concat r.to_send) r.left (
          subst (AllBelow max_conn_rbuf_hb)
            (sym (take_packets_lem binlog_send_packet_num (t ∷ queue) counter).0) all),
      omega (arith, take_packets-shrinks 39 t queue counter all.0),
    )

concat_nil : concat [] ≡ []
unfolding concat
concat_nil = refl

nil_of_length : (ts : List WriteTask) → length ts ≤ 0 → ts ≡ []
nil_of_length [] h = refl
nil_of_length (t ∷ ts) h = absurd (omega arith)

module _ (parse_ip_port : List ℕ → Option (List ℕ × ℕ)) where
  -- `ConsumeWriteQueue` called for each of `n` rounds; each round has its answers.
  unfoldable pub rounds : (ℕ → List Call → Call → Status) → ℕ → WriteQueues → WriteQueues
  rounds answers zero w = w
  rounds answers (suc n) w = rounds answers n (consume_write_queue (answers n) parse_ip_port w).1

  round_lem :
      (answer : List Call → Call → Status) (index : List ℕ) (p : ℕ) (w : WriteQueues)
      → IsSound parse_ip_port w
      → AllBelow max_conn_rbuf_hb (pending index p w)
      → AllBelow max_conn_rbuf_hb (pending index p (consume_write_queue answer parse_ip_port w).1)
        × (length (pending index p (consume_write_queue answer parse_ip_port w).1)
            ≤ length (pending index p w) - 1)
  round_lem answer index p w h all =
      let r = consume_write_queue_lem answer parse_ip_port index p w h in
      let calls = (consume_write_queue answer parse_ip_port w).0 in
      elim (Bool-cases (has_failed answer index calls)) [
        | inl failed ↦ rw (r.2, failed) (tt, omega arith)
        | inr sent ↦ rw (r.2, sent) (left_lem (pending index p w) r.0 all)
      ]

  -- If the queues have their invariant and no binlog of one queue is longer than 512 MB, as many
  -- calls of ConsumeWriteQueue as it has tasks empty it, whatever the calls to the slaves answer.
  pub rounds_drain :
      (answers : ℕ → List Call → Call → Status) (index : List ℕ) (p n : ℕ) (w : WriteQueues)
      → IsSound parse_ip_port w
      → AllBelow max_conn_rbuf_hb (pending index p w)
      → length (pending index p w) ≤ n
      → pending index p (rounds answers n w) ≡ []
  unfolding rounds
  rounds_drain answers index p zero w h all short = nil_of_length (pending index p w) (omega arith)
  rounds_drain answers index p (suc n) w h all short =
      let one = round_lem (answers n) index p w h all in
      rounds_drain answers index p n (consume_write_queue (answers n) parse_ip_port w).1
        (consume_write_queue-IsSound parse_ip_port (answers n) w h) one.0 (omega (arith, one.1))

  -- If the queues have their invariant and the first binlog of a queue is longer than 512 MB and
  -- shorter than 2 GB, ConsumeWriteQueue sends nothing of that queue, and leaves it as it is
  -- unless another call to the slave fails.
  pub consume_write_queue_blocked :
      (answer : List Call → Call → Status) (index : List ℕ) (p : ℕ) (w : WriteQueues)
      (t : WriteTask) (queue : List WriteTask)
      → IsSound parse_ip_port w
      → pending index p w ≡ t ∷ queue
      → max_conn_rbuf_hb < length t.binlog_chip.binlog
      → length t.binlog_chip.binlog < 2 ^ 31
      → (received index p (consume_write_queue answer parse_ip_port w).0 ≡ [])
        × (pending index p (consume_write_queue answer parse_ip_port w).1 ≡ (
            if has_failed answer index (consume_write_queue answer parse_ip_port w).0
            then []
            else t ∷ queue))
  consume_write_queue_blocked answer index p w t queue h e over small =
      let r = consume_write_queue_lem answer parse_ip_port index p w h in
      let stuck = take_packets-blocked binlog_send_packet_num t queue r.0 over small in
      ((rw (e, stuck) at r.1) ∙ concat_nil, rw (e, stuck) at r.2)
