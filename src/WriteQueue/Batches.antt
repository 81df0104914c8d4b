-- ===== src/WriteQueue/Batches.antt =====
-- How `ConsumeWriteQueue` cuts one queue into batches.
use pika.Prelude.{
  ℕ, zero, suc, ◌+◌, ◌%◌, ◌^◌, ◌≤◌, ◌<◌, ◌≡◌, refl, ap, sym, subst, inl, inr, List, [], ◌∷◌, ◌++◌,
  append_assoc, ltb, arith, Bool-cases, length, length-append,
}
use pika.RmNode.{WriteTask}
use pika.WriteQueue.{
  Taken, fill_batch, batch_index, push_batch, take_packets, is_over, max_conn_rbuf_hb,
  binlog_send_batch_num,
}

-- The bytes of the binlogs.
abbrev pub bytes : List WriteTask → ℕ
bytes [] = 0
bytes (t ∷ ts) = length t.binlog_chip.binlog + bytes ts

-- No binlog is longer than `n`.
abbrev pub AllBelow : ℕ → List WriteTask → Type 0
AllBelow n [] = Unit {0}
AllBelow n (t ∷ ts) = (length t.binlog_chip.binlog ≤ n) × AllBelow n ts

unfoldable pub concat : List (List WriteTask) → List WriteTask
concat [] = []
concat (b ∷ bs) = b ++ concat bs

-- A batch is a front of the queue, is counted, and has no more tasks than there is room for.
pub fill_batch_lem :
    (room size : ℕ) (queue : List WriteTask) (counter : ℕ)
    → ((fill_batch room size queue counter).to_send ++ (fill_batch room size queue counter).left
        ≡ queue)
      × ((fill_batch room size queue counter).counter
          ≡ counter + length (fill_batch room size queue counter).to_send)
      × (length (fill_batch room size queue counter).to_send ≤ room)
unfolding fill_batch
fill_batch_lem zero size queue counter = (refl, omega arith, omega arith)
fill_batch_lem (suc room) size [] counter = (refl, omega arith, omega arith)
fill_batch_lem (suc room) size (t ∷ queue) counter =
    let s = (size + length t.binlog_chip.binlog) % 2 ^ 32 in
    let ih = fill_batch_lem room s queue (counter + 1) in
    elim (Bool-cases (is_over s)) [
      | inl over ↦ rw over (refl, omega arith, omega arith)
      | inr fits ↦ rw fits (ap (◌∷◌ t) ih.0, omega (arith, ih.1), omega (arith, ih.2))
    ]

-- Where no binlog is longer than the limit, the sum does not pass the range of an `int`, and a
-- batch stays within the limit.
pub fill_batch-bytes :
    (room size : ℕ) (queue : List WriteTask) (counter : ℕ)
    → size ≤ max_conn_rbuf_hb
    → AllBelow max_conn_rbuf_hb queue
    → size + bytes (fill_batch room size queue counter).to_send ≤ max_conn_rbuf_hb
unfolding fill_batch is_over
fill_batch-bytes zero size queue counter h all = omega arith
fill_batch-bytes (suc room) size [] counter h all = omega arith
fill_batch-bytes (suc room) size (t ∷ queue) counter h all =
    let n = length t.binlog_chip.binlog in
    let small : (size + n) % 2 ^ 32 ≡ size + n = omega (arith, h, all.0) in
    let ih = fill_batch-bytes room (size + n) queue (counter + 1) in
    rw small (ground (arith, ih, h, all.0, all.1))

-- A batch begins with the first task unless that task alone is over the limit.
pub fill_batch_first :
    (room : ℕ) (t : WriteTask) (queue : List WriteTask) (counter : ℕ)
    → length t.binlog_chip.binlog ≤ max_conn_rbuf_hb
    → (fill_batch (suc room) 0 (t ∷ queue) counter).to_send
      ≡ t ∷ (fill_batch room (length t.binlog_chip.binlog) queue (counter + 1)).to_send
unfolding fill_batch is_over
fill_batch_first room t queue counter h =
    let small : (0 + length t.binlog_chip.binlog) % 2 ^ 32 ≡ length t.binlog_chip.binlog =
      omega (arith, h) in
    rw small (ground (arith, h))

pub fill_batch_blocked :
    (room : ℕ) (t : WriteTask) (queue : List WriteTask) (counter : ℕ)
    → max_conn_rbuf_hb < length t.binlog_chip.binlog
    → length t.binlog_chip.binlog < 2 ^ 31
    → fill_batch room 0 (t ∷ queue) counter
      ≡ record { to_send = []; left = t ∷ queue; counter = counter }
unfolding fill_batch is_over
fill_batch_blocked zero t queue counter h k = refl
fill_batch_blocked (suc room) t queue counter h k =
    let small : (0 + length t.binlog_chip.binlog) % 2 ^ 32 ≡ length t.binlog_chip.binlog =
      omega (arith, k) in
    rw small (ground (arith, h, k))

-- Every batch has a task, and at most 100 of them.
abbrev pub AllSized : List (List WriteTask) → Type 0
AllSized [] = Unit {0}
AllSized (b ∷ bs) = (0 < length b) × (length b ≤ binlog_send_batch_num) × AllSized bs

-- The binlogs of every batch keep within the limit.
abbrev pub AllWithin : List (List WriteTask) → Type 0
AllWithin [] = Unit {0}
AllWithin (b ∷ bs) = (bytes b ≤ max_conn_rbuf_hb) × AllWithin bs

concat-push_batch :
    (b : List WriteTask) (bs : List (List WriteTask)) → concat (push_batch b bs) ≡ b ++ concat bs
unfolding concat
concat-push_batch [] bs = refl
concat-push_batch (t ∷ b) bs = refl

length-push_batch :
    (b : List WriteTask) (bs : List (List WriteTask)) → length (push_batch b bs) ≤ suc (length bs)
length-push_batch [] bs = omega arith
length-push_batch (t ∷ b) bs = omega arith

push_batch-AllSized :
    (b : List WriteTask) (bs : List (List WriteTask))
    → length b ≤ binlog_send_batch_num
    → AllSized bs
    → AllSized (push_batch b bs)
push_batch-AllSized [] bs h all = all
push_batch-AllSized (t ∷ b) bs h all = (omega arith, h, all)

push_batch-AllWithin :
    (b : List WriteTask) (bs : List (List WriteTask))
    → bytes b ≤ max_conn_rbuf_hb
    → AllWithin bs
    → AllWithin (push_batch b bs)
push_batch-AllWithin [] bs h all = all
push_batch-AllWithin (t ∷ b) bs h all = (h, all)

pub AllBelow-append : (n : ℕ) (xs ys : List WriteTask) → AllBelow n (xs ++ ys) → AllBelow n ys
AllBelow-append n [] ys h = h
AllBelow-append n (x ∷ xs) ys h = AllBelow-append n xs ys h.1

-- The first batch of a queue.
abbrev first_batch : List WriteTask → ℕ → Taken WriteTask
first_batch queue counter = fill_batch (batch_index queue) 0 queue counter

batch_index_le : (queue : List WriteTask) → batch_index queue ≤ binlog_send_batch_num
unfolding batch_index
batch_index_le queue = ground arith

first_batch-left :
    (queue : List WriteTask) (counter : ℕ)
    → AllBelow max_conn_rbuf_hb queue
    → AllBelow max_conn_rbuf_hb (first_batch queue counter).left
first_batch-left queue counter all =
    AllBelow-append max_conn_rbuf_hb (first_batch queue counter).to_send
      (first_batch queue counter).left
      (subst (AllBelow max_conn_rbuf_hb)
        (sym (fill_batch_lem (batch_index queue) 0 queue counter).0) all)

-- The rounds over a queue take a front of it, in batches, and count what they take.
pub take_packets_lem :
    (packets : ℕ) (queue : List WriteTask) (counter : ℕ)
    → (concat (take_packets packets queue counter).to_send
          ++ (take_packets packets queue counter).left
        ≡ queue)
      × ((take_packets packets queue counter).counter
          ≡ counter + length (concat (take_packets packets queue counter).to_send))
      × (length (take_packets packets queue counter).to_send ≤ packets)
unfolding take_packets concat
take_packets_lem zero queue counter = (refl, omega arith, omega arith)
take_packets_lem (suc packets) [] counter = (refl, omega arith, omega arith)
take_packets_lem (suc packets) (t ∷ queue) counter =
    let b = first_batch (t ∷ queue) counter in
    let first = fill_batch_lem (batch_index (t ∷ queue)) 0 (t ∷ queue) counter in
    let ih = take_packets_lem packets b.left b.counter in
    let more = (take_packets packets b.left b.counter).to_send in
    (
      rw (concat-push_batch b.to_send more, append_assoc, ih.0) first.0,
      rw (concat-push_batch b.to_send more)
          (omega (arith, first.1, ih.1, length-append b.to_send (concat more))),
      omega (arith, ih.2, length-push_batch b.to_send more),
    )

pub take_packets-AllSized :
    (packets : ℕ) (queue : List WriteTask) (counter : ℕ)
    → AllSized (take_packets packets queue counter).to_send
unfolding take_packets
take_packets-AllSized zero queue counter = tt
take_packets-AllSized (suc packets) [] counter = tt
take_packets-AllSized (suc packets) (t ∷ queue) counter =
    let b = first_batch (t ∷ queue) counter in
    let first = fill_batch_lem (batch_index (t ∷ queue)) 0 (t ∷ queue) counter in
    push_batch-AllSized b.to_send (take_packets packets b.left b.counter).to_send
      (omega (arith, first.2, batch_index_le (t ∷ queue)))
      (take_packets-AllSized packets b.left b.counter)

pub take_packets-AllWithin :
    (packets : ℕ) (queue : List WriteTask) (counter : ℕ)
    → AllBelow max_conn_rbuf_hb queue
    → AllWithin (take_packets packets queue counter).to_send
unfolding take_packets
take_packets-AllWithin zero queue counter all = tt
take_packets-AllWithin (suc packets) [] counter all = tt
take_packets-AllWithin (suc packets) (t ∷ queue) counter all =
    let b = first_batch (t ∷ queue) counter in
    push_batch-AllWithin b.to_send (take_packets packets b.left b.counter).to_send
      (omega
        (arith, fill_batch-bytes (batch_index (t ∷ queue)) 0 (t ∷ queue) counter (omega arith) all))
      (take_packets-AllWithin packets b.left b.counter (first_batch-left (t ∷ queue) counter all))

batch_index-suc :
    (t : WriteTask) (queue : List WriteTask) → (k : ℕ) × (batch_index (t ∷ queue) ≡ suc k)
unfolding batch_index
batch_index-suc t queue = elim (Bool-cases (ltb binlog_send_batch_num (length (t ∷ queue)))) [
  | inl long ↦ (99, ground arith)
  | inr short ↦ (length queue, ground arith)
]

-- A round takes something from a queue whose first binlog is within the limit.
pub take_packets-shrinks :
    (packets : ℕ) (t : WriteTask) (queue : List WriteTask) (counter : ℕ)
    → length t.binlog_chip.binlog ≤ max_conn_rbuf_hb
    → length (take_packets (suc packets) (t ∷ queue) counter).left < length (t ∷ queue)
unfolding take_packets
take_packets-shrinks packets t queue counter h =
    let b = first_batch (t ∷ queue) counter in
    let (k, room) = batch_index-suc t queue in
    let first : length b.to_send
        ≡ suc (length (fill_batch k (length t.binlog_chip.binlog) queue (counter + 1)).to_send) =
      rw (room, fill_batch_first k t queue counter h) refl in
    let whole = (fill_batch_lem (batch_index (t ∷ queue)) 0 (t ∷ queue) counter).0 in
    let rest = (take_packets_lem packets b.left b.counter).0 in
    omega (
      arith,
      first,
      ap length whole,
      length-append b.to_send b.left,
      ap length rest,
      length-append (concat (take_packets packets b.left b.counter).to_send)
          (take_packets packets b.left b.counter).left,
    )

-- A binlog over the limit, of fewer than 2 GB, is never taken, and neither is what waits behind it.
pub take_packets-blocked :
    (packets : ℕ) (t : WriteTask) (queue : List WriteTask) (counter : ℕ)
    → max_conn_rbuf_hb < length t.binlog_chip.binlog
    → length t.binlog_chip.binlog < 2 ^ 31
    → take_packets packets (t ∷ queue) counter
      ≡ record { to_send = []; left = t ∷ queue; counter = counter }
unfolding take_packets
take_packets-blocked zero t queue counter h k = refl
take_packets-blocked (suc packets) t queue counter h k =
    rw (fill_batch_blocked (batch_index (t ∷ queue)) t queue counter h k)
      (rw (take_packets-blocked packets t queue counter h k) refl)
