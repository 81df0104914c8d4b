-- ===== src/SlaveNode/Acks.antt =====
-- `SlaveNode::Update`, sending and activating: the offsets of a node and of its window.
use pika.Prelude.{
  ℕ, ◌≡◌, ◌↔◌, ◌∙◌, refl, sym, inl, inr, true, false, List, [], ◌∷◌, arith, Bool-cases,
}
use pika.Env.{Env}
use pika.LogOffset.{LogOffset, log_origin}
use pika.LogOffset
use pika.LogOffset.Order
use pika.BinlogReader.{Cursor}
use pika.SyncWindow.{SyncWindow, SyncWinItem, new_item}
use pika.SyncWindow
use pika.SyncWindow.Offsets.{
  Above, last_or, mark-Above, last_or-mark, pop_acked-Above, last_or-pop_acked, pop_acked_from,
  Above-append,
}
use pika.Status.{Status, ok}
use pika.BinlogOffset
use pika.SyncWindow.Search.{update_cases}
use pika.SlaveNode.{SlaveNode}
use pika.SlaveNode

LogOffset_eq_refl : (o : LogOffset) → LogOffset.eq o o ≡ true
unfolding LogOffset.eq BinlogOffset.eq
LogOffset_eq_refl o = ground arith

module _ (env : Env) where
  -- The window's offsets rise from the acked offset to the sent one.
  pub record IsOrdered (n : SlaveNode env) : Type 0 where
    pub rising : Above n.acked_offset n.sync_win.win
    pub sent_last : n.sent_offset ≡ last_or n.acked_offset n.sync_win.win

  lt_origin : (o a : LogOffset) → LogOffset.lt o a ≡ true → LogOffset.eq a log_origin ≡ false
  unfolding LogOffset.lt LogOffset.eq BinlogOffset.lt BinlogOffset.eq
  lt_origin o a h = ground arith

  -- The acked offset does not fall, the sent one stays, and what is reported is the acked offset.
  pub record Acknowledged (n : SlaveNode env) (r : Status × SlaveNode env × LogOffset)
      : Type 0 where
    pub ordered : IsOrdered r.1
    pub grows : LogOffset.le n.acked_offset r.1.acked_offset ≡ true
    pub sent_kept : r.1.sent_offset ≡ n.sent_offset
    pub reported : r.0 ≡ ok → r.2 ≡ r.1.acked_offset

  record_ack-refused :
      (n : SlaveNode env) (a : LogOffset)
      → IsOrdered n
      → Acknowledged n (SlaveNode.record_ack env n (false, n.sync_win, a))
  unfolding SlaveNode.record_ack
  record_ack-refused n a h = record {
    ordered = record { rising = h.rising; sent_last = h.sent_last };
    grows = Order.le_refl n.acked_offset;
    sent_kept = refl;
    reported = λ e. cc;
  }

  record_ack-acknowledge :
      (n : SlaveNode env) (i j : ℕ)
      → IsOrdered n
      → Acknowledged n
          (SlaveNode.record_ack env n (SyncWindow.acknowledge n.sync_win i j log_origin))
  unfolding SlaveNode.record_ack SyncWindow.acknowledge
  record_ack-acknowledge n i j h =
      let xs = SyncWindow.mark i j 0 n.sync_win.win in
      let rising = mark-Above i j 0 n.acked_offset n.sync_win.win h.rising in
      let sent : n.sent_offset ≡ last_or n.acked_offset xs =
        h.sent_last ∙ sym (last_or-mark i j 0 n.acked_offset n.sync_win.win) in
      elim (pop_acked_from n.acked_offset log_origin xs rising) [
        | inl (e, e') ↦
            rw (e, LogOffset_eq_refl log_origin)
              (record {
                ordered = record { rising = rising; sent_last = sent };
                grows = Order.le_refl n.acked_offset;
                sent_kept = refl;
                reported = λ k. refl;
              })
        | inr (e, up) ↦
            let new : LogOffset.eq (SyncWindow.pop_acked xs log_origin).1 log_origin ≡ false =
              lt_origin n.acked_offset (SyncWindow.pop_acked xs log_origin).1 up in
            let above = pop_acked-Above n.acked_offset xs rising in
            rw new (record {
              ordered = record {
                rising = rw e above;
                sent_last = rw e (sent ∙ sym (last_or-pop_acked n.acked_offset xs));
              };
              grows = Order.le-of-lt n.acked_offset (SyncWindow.pop_acked xs log_origin).1 up;
              sent_kept = refl;
              reported = λ k. refl;
            })
      ]

  -- On a node whose window rises from the acked to the sent offset, Update with any range keeps it
  -- so, does not lower the acked offset, leaves the sent one, and reports the acked offset if it
  -- succeeds.
  pub update-Acknowledged :
      (n : SlaveNode env) (start end before : LogOffset)
      → IsOrdered n
      → Acknowledged n (SlaveNode.update env n start end before)
  unfolding SlaveNode.update
  update-Acknowledged n start end before h =
      elim (Bool-cases (SlaveNode.is_binlog_sync n.slave_state)) [
        | inr idle ↦ rw idle (record {
          ordered = h;
          grows = Order.le_refl n.acked_offset;
          sent_kept = refl;
          reported = λ e. cc;
        })
        | inl active ↦
            rw active
              (elim (update_cases n.sync_win (new_item start 0) (new_item end 0) log_origin) [
                | inl e ↦ rw e (record_ack-refused n log_origin h)
                | inr (i, j, e) ↦ rw e (record_ack-acknowledge n i j h)
              ])
      ]

  -- Sending a binlog that lies past the sent offset keeps the offsets of a node in order.
  pub send-IsOrdered :
      (n : SlaveNode env) (offset : LogOffset) (size now : ℕ)
      → IsOrdered n
      → LogOffset.lt n.sent_offset offset ≡ true
      → IsOrdered (SlaveNode.send env n offset size now)
  unfolding SlaveNode.send SyncWindow.push
  send-IsOrdered n offset size now h lt =
      let (a, e) =
        Above-append n.acked_offset n.sync_win.win (new_item offset size) h.rising
          (rw (← h.sent_last) lt) in
      record { rising = a; sent_last = sym e }

  last_or-le :
      (o : LogOffset) (xs : List SyncWinItem) → Above o xs → LogOffset.le o (last_or o xs) ≡ true
  last_or-le o [] h = Order.le_refl o
  last_or-le o (x ∷ xs) h =
      Order.le_trans o x.offset _ (Order.le-of-lt o x.offset h.0) (last_or-le x.offset xs h.1)

  below_last :
      (o : LogOffset) (x : SyncWinItem) (xs : List SyncWinItem)
      → Above o (x ∷ xs)
      → LogOffset.lt o (last_or o (x ∷ xs)) ≡ true
  below_last o x xs h = Order.lt-le_trans o x.offset _ h.0 (last_or-le x.offset xs h.1)

  drained :
      (o s : LogOffset) (xs : List SyncWinItem)
      → Above o xs
      → s ≡ last_or o xs
      → (LogOffset.eq s o ≡ true) ↔ (xs ≡ [])
  drained o s [] h e = (λ _. refl, λ _. rw e (LogOffset_eq_refl o))
  drained o s (x ∷ xs) h e =
      let apart : LogOffset.eq s o ≡ false = rw e (Order.not-eq-of-lt o _ (below_last o x xs h)) in
      (λ k. absurd (cc (apart, k)), λ k. cc)

  -- On a node whose offsets are in order, sent_offset == acked_offset says exactly that the window
  -- is empty.
  pub sent-eq-acked :
      (n : SlaveNode env)
      → IsOrdered n
      → (LogOffset.eq n.sent_offset n.acked_offset ≡ true) ↔ (n.sync_win.win ≡ [])
  sent-eq-acked n h = drained n.acked_offset n.sent_offset n.sync_win.win h.rising h.sent_last

  -- Activation leaves the offsets of a node in order exactly if its window was empty.
  pub activate-IsOrdered :
      (n : SlaveNode env) (offset : LogOffset) (reader : Cursor env)
      → IsOrdered (SlaveNode.activate_binlog_sync env n offset reader) ↔ (n.sync_win.win ≡ [])
  unfolding SlaveNode.activate_binlog_sync
  activate-IsOrdered n offset reader = (
    λ h. (drained offset offset n.sync_win.win h.rising h.sent_last).0 (LogOffset_eq_refl offset),
    λ e. record { rising = rw e tt; sent_last = rw e },
  )
