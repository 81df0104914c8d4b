-- ===== src/WriteQueue/Order.antt =====
-- The order in which a slave is sent what was produced for it.
use pika.Prelude.{
  ℕ, ◌≡◌, refl, sym, false, List, [], ◌∷◌, ◌++◌, Option, append_assoc, append-nil, ◌==◌, arith,
  if◌then◌else◌, bytes_eq,
}
use pika.RmNode.{WriteTask}
use pika.WriteQueue.{queue_index, consume_write_queue}
use pika.WriteQueue.Calls.{received, has_failed}
use pika.WriteQueue.Fifo.{pending_nil}
use pika.WriteQueue.Channel.{pushed}
use pika.WriteQueue.Run.{
  Op, produce, consume, drop, State, start, Channel, view, step, run, AllFit, Allowed, AllAllowed,
  run_refines,
}

-- The tasks that one operation, or a sequence, asks to be sent to the slave.
unfoldable pub asked : List ℕ → ℕ → Op → List WriteTask
asked index p (produce ip port q tasks) =
    if bytes_eq (queue_index ip port) index then (if q == p then tasks else []) else []
asked index p (consume answer) = []
asked index p (drop ip port) = []

unfoldable pub all_asked : List ℕ → ℕ → List Op → List WriteTask
all_asked index p [] = []
all_asked index p (op ∷ ops) = asked index p op ++ all_asked index p ops

module _ (parse_ip_port : List ℕ → Option (List ℕ × ℕ)) where
  -- No call to the slave fails, and its queues are not dropped.
  abbrev pub Undisturbed : List ℕ → Op → State → Type 0
  Undisturbed index (produce ip port q tasks) s = Unit {0}
  Undisturbed index (consume answer) s =
      has_failed answer index (consume_write_queue answer parse_ip_port s.queues).0 ≡ false
  Undisturbed index (drop ip port) s = bytes_eq (queue_index ip port) index ≡ false

  abbrev pub AllUndisturbed : List ℕ → List Op → State → Type 0
  AllUndisturbed index [] s = Unit {0}
  AllUndisturbed index (op ∷ ops) s =
      Undisturbed index op s × AllUndisturbed index ops (step parse_ip_port op s)

  module _ (index : List ℕ) (p : ℕ) where
    -- What an undisturbed channel may do leaves the tasks in their order.
    Allowed-asked :
        (op : Op) (s : State) (c d : Channel)
        → Undisturbed index op s
        → Allowed parse_ip_port index p op s c d
        → d.sent ++ d.waiting ≡ (c.sent ++ c.waiting) ++ asked index p op
    unfolding asked pushed
    Allowed-asked (produce ip port q tasks) s c d u a =
        ground
          (arith, a.0, a.1, append_assoc c.sent c.waiting tasks, append-nil (c.sent ++ c.waiting))
    Allowed-asked (consume answer) s c d u (front, rest, whole, sent, waiting) =
        rw (sent, waiting, u, whole, append-nil, append_assoc) refl
    Allowed-asked (drop ip port) s c d u a = rw (a.0, a.1, u, append-nil) refl

    AllAllowed-asked :
        (ops : List Op) (s : State)
        → AllUndisturbed index ops s
        → AllAllowed parse_ip_port index p ops s
        → (view index p (run parse_ip_port ops s)).sent
            ++ (view index p (run parse_ip_port ops s)).waiting
          ≡ ((view index p s).sent ++ (view index p s).waiting) ++ all_asked index p ops
    unfolding run all_asked
    AllAllowed-asked [] s u a = sym (append-nil ((view index p s).sent ++ (view index p s).waiting))
    AllAllowed-asked (op ∷ ops) s u a =
        let c = view index p s in
        let d = view index p (step parse_ip_port op s) in
        rw (AllAllowed-asked ops (step parse_ip_port op s) u.1 a.1, Allowed-asked op s c d u.0 a.0)
          (append_assoc (c.sent ++ c.waiting) (asked index p op) (all_asked index p ops))

    -- In such a sequence, if no call to a slave fails and its queues are not dropped, what the
    -- slave was sent of a partition followed by what still waits is what was produced for it, in
    -- that order, nothing lost and nothing twice.
    pub run_in_order :
        (ops : List Op)
        → AllFit parse_ip_port ops
        → AllUndisturbed index ops start
        → (view index p (run parse_ip_port ops start)).sent
            ++ (view index p (run parse_ip_port ops start)).waiting
          ≡ all_asked index p ops
    unfolding received all_asked
    run_in_order ops f u =
        rw (pending_nil index p) at
          (AllAllowed-asked ops start u (run_refines parse_ip_port index p ops f))
