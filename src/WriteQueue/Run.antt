-- ===== src/WriteQueue/Run.antt =====
-- Any sequence of calls on the queues, seen by one slave and one partition.
use pika.Prelude.{
  ℕ, ◌≡◌, refl, ap, sym, ◌∙◌, inl, inr, List, [], ◌∷◌, ◌++◌, Option, append_assoc, append-nil,
  Bool-cases, if◌then◌else◌, bytes_eq,
}
use pika.RmNode.{WriteTask}
use pika.Status.{Status}
use pika.WriteQueue.{
  WriteQueues, Call, queue_index, produce_write_queue, take_packets, take_slaves, send_slaves,
  erase_queues, consume_write_queue, drop_item_in_write_queue, binlog_send_packet_num,
}
use pika.WriteQueue.Batches.{concat, take_packets_lem}
use pika.WriteQueue.Fifo.{Tagged, pending, of_partition}
use pika.WriteQueue.Calls.{is_to, received, has_failed, IsNamed}
use pika.WriteQueue.Invariant.{IsSound, erase-IsSound, take_slaves-IsSound, produce_tasks-IsSound}
use pika.WriteQueue.Channel.{pushed, produce_tasks-pending, pending-erase, consume_write_queue_lem}

pub data Op : Type 0 where
  produce : List ℕ → ℕ → ℕ → List WriteTask → Op
  consume : (List Call → Call → Status) → Op
  drop : List ℕ → ℕ → Op

-- The queues and every call that was made, the last one first.
pub record State : Type 0 where
  pub queues : WriteQueues
  pub calls : List Call

abbrev pub start : State
start = record { queues = []; calls = [] }

-- One slave and one partition: the tasks that went out, and those that wait.
pub record Channel : Type 0 where
  pub sent : List WriteTask
  pub waiting : List WriteTask

abbrev pub view : List ℕ → ℕ → State → Channel
view index p s = record { sent = received index p s.calls; waiting = pending index p s.queues }

module _ (parse_ip_port : List ℕ → Option (List ℕ × ℕ)) where
  unfoldable pub step : Op → State → State
  step (produce ip port p tasks) s = record s {
    queues = produce_write_queue ip port p tasks s.queues;
  }
  step (consume answer) s =
      let (calls, queues, counter) = consume_write_queue answer parse_ip_port s.queues in
      record { queues = queues; calls = calls ++ s.calls }
  step (drop ip port) s = record s { queues = drop_item_in_write_queue ip port s.queues }

  unfoldable pub run : List Op → State → State
  run [] s = s
  run (op ∷ ops) s = run ops (step op s)

  -- A producer names a slave by its address, and pushes tasks of the partition that it names.
  abbrev pub Fits : Op → Type 0
  Fits (produce ip port p tasks) = IsNamed parse_ip_port (queue_index ip port) × Tagged p tasks
  Fits (consume answer) = Unit {0}
  Fits (drop ip port) = Unit {0}

  abbrev pub AllFit : List Op → Type 0
  AllFit [] = Unit {0}
  AllFit (op ∷ ops) = Fits op × AllFit ops

  -- What a channel may do at an operation: the tasks that go out are a front of those that wait, and
  -- those behind it go on waiting, unless a call failed or the queue is dropped.
  abbrev pub Allowed : List ℕ → ℕ → Op → State → Channel → Channel → Type 0
  Allowed index p (produce ip port q tasks) s c d =
      (d.sent ≡ c.sent) × (d.waiting ≡ pushed index p (queue_index ip port) q tasks c.waiting)
  Allowed index p (consume answer) s c d =
      (front : List WriteTask) × (rest : List WriteTask) × (c.waiting ≡ front ++ rest)
      × (d.sent ≡ c.sent ++ front)
      × (d.waiting ≡ (
          if has_failed answer index (consume_write_queue answer parse_ip_port s.queues).0
          then []
          else rest))
  Allowed index p (drop ip port) s c d =
      (d.sent ≡ c.sent)
      × (d.waiting ≡ (if bytes_eq (queue_index ip port) index then [] else c.waiting))

  erase_queues-IsSound :
      (answer : List Call → Call → Status) (js : List (List ℕ)) (w : WriteQueues)
      → IsSound parse_ip_port w
      → IsSound parse_ip_port (erase_queues answer parse_ip_port js w)
  unfolding erase_queues
  erase_queues-IsSound answer [] w h = h
  erase_queues-IsSound answer (j ∷ js) w h =
      erase_queues-IsSound answer js _ (erase-IsSound parse_ip_port j w h)

  pub consume_write_queue-IsSound :
      (answer : List Call → Call → Status) (w : WriteQueues)
      → IsSound parse_ip_port w
      → IsSound parse_ip_port (consume_write_queue answer parse_ip_port w).1
  unfolding consume_write_queue
  consume_write_queue-IsSound answer w h =
      erase_queues-IsSound answer (send_slaves answer parse_ip_port (take_slaves w 0).0 []).1
        (take_slaves w 0).1 (take_slaves-IsSound parse_ip_port w 0 h)

  pub step-IsSound :
      (op : Op) (s : State)
      → Fits op
      → IsSound parse_ip_port s.queues
      → IsSound parse_ip_port (step op s).queues
  unfolding step produce_write_queue drop_item_in_write_queue
  step-IsSound (produce ip port p tasks) s f h =
      produce_tasks-IsSound parse_ip_port (queue_index ip port) p tasks s.queues f.0 f.1 h
  step-IsSound (consume answer) s f h = consume_write_queue-IsSound answer s.queues h
  step-IsSound (drop ip port) s f h = erase-IsSound parse_ip_port (queue_index ip port) s.queues h

  received-append :
      (index : List ℕ) (p : ℕ) (xs ys : List Call)
      → received index p (xs ++ ys) ≡ received index p ys ++ received index p xs
  unfolding received
  received-append index p [] ys = sym (append-nil (received index p ys))
  received-append index p (x ∷ xs) ys = elim (Bool-cases (is_to index x)) [
    | inl same ↦
        rw (same, received-append index p xs ys)
          (append_assoc (received index p ys) (received index p xs) (of_partition p x.tasks))
    | inr other ↦ rw (other, received-append index p xs ys) refl
  ]

  step-Allowed :
      (index : List ℕ) (p : ℕ) (op : Op) (s : State)
      → IsSound parse_ip_port s.queues
      → Allowed index p op s (view index p s) (view index p (step op s))
  unfolding step produce_write_queue drop_item_in_write_queue
  step-Allowed index p (produce ip port q tasks) s h =
      (refl, produce_tasks-pending index p (queue_index ip port) q tasks s.queues)
  step-Allowed index p (consume answer) s h =
      let r = consume_write_queue_lem answer parse_ip_port index p s.queues h in
      let t = take_packets binlog_send_packet_num (pending index p s.queues) r.0 in
      let calls = (consume_write_queue answer parse_ip_port s.queues).0 in
      (
        concat t.to_send,
        t.left,
        sym (take_packets_lem binlog_send_packet_num (pending index p s.queues) r.0).0,
        received-append index p calls s.calls ∙ ap (◌++◌ (received index p s.calls)) r.1,
        r.2,
      )
  step-Allowed index p (drop ip port) s h =
      (refl, pending-erase index p (queue_index ip port) s.queues)

  -- Each operation of a sequence does what a channel may do.
  abbrev pub AllAllowed : List ℕ → ℕ → List Op → State → Type 0
  AllAllowed index p [] s = Unit {0}
  AllAllowed index p (op ∷ ops) s =
      Allowed index p op s (view index p s) (view index p (step op s))
      × AllAllowed index p ops (step op s)

  run_refines_lem :
      (index : List ℕ) (p : ℕ) (ops : List Op) (s : State)
      → AllFit ops
      → IsSound parse_ip_port s.queues
      → AllAllowed index p ops s
  run_refines_lem index p [] s f h = tt
  run_refines_lem index p (op ∷ ops) s f h = (
    step-Allowed index p op s h,
    run_refines_lem index p ops (step op s) f.1 (step-IsSound op s f.0 h),
  )

  -- Any sequence of ProduceWriteQueue, ConsumeWriteQueue and DropItemInWriteQueue from empty
  -- queues, whose producers name a slave by a text that parses to its address and push tasks of
  -- their partition, does to each slave and partition what a first-in first-out channel may do:
  -- what goes out is a front of what waits, what is behind it goes on waiting unless a call to the
  -- slave failed in that operation, and only a drop or such a failure forgets it.
  pub run_refines :
      (index : List ℕ) (p : ℕ) (ops : List Op) → AllFit ops → AllAllowed index p ops start
  run_refines index p ops f =
      run_refines_lem index p ops start f (record { queues = tt; named = tt })
