-- ===== src/MemLog/Order.antt =====
-- `AppendLog`: the order of a memory log, from a base up to its last offset.
use pika.Prelude.{◌≡◌, refl, sym, true, List, [], ◌∷◌, ◌++◌}
use pika.LogOffset.{LogOffset}
use pika.LogOffset
use pika.LogOffset.Order
use pika.MemLog.{LogItem, MemLog, append_log, reset}

module _ (Payload : Type 0) where
  abbrev pub Above : LogOffset → List (LogItem Payload) → Type 0
  Above o [] = Unit {0}
  Above o (x ∷ xs) = (LogOffset.lt o x.offset ≡ true) × Above x.offset xs

  abbrev pub last_or : LogOffset → List (LogItem Payload) → LogOffset
  last_or o [] = o
  last_or o (x ∷ xs) = last_or x.offset xs

  -- The log holds what follows `base`, and knows its own end.
  pub record Follows (base : LogOffset) (m : MemLog Payload) : Type 0 where
    pub rising : Above base m.logs
    pub last_known : m.last_offset ≡ last_or base m.logs

  Above-append :
      (o : LogOffset) (xs : List (LogItem Payload)) (x : LogItem Payload)
      → Above o xs
      → LogOffset.lt (last_or o xs) x.offset ≡ true
      → Above o (xs ++ (x ∷ [])) × (last_or o (xs ++ (x ∷ [])) ≡ x.offset)
  Above-append o [] x h lt = ((lt, tt), refl)
  Above-append o (y ∷ ys) x h lt = let (a, e) = Above-append y.offset ys x h.1 lt in ((h.0, a), e)

  -- A log item above the last offset may be appended.
  pub append_log-Follows :
      (base : LogOffset) (m : MemLog Payload) (x : LogItem Payload)
      → Follows base m
      → LogOffset.lt m.last_offset x.offset ≡ true
      → Follows base (append_log Payload m x)
  unfolding append_log
  append_log-Follows base m x h lt =
      let (a, e) = Above-append base m.logs x h.rising (rw (← h.last_known) lt) in
      record { rising = a; last_known = sym e }

  pub reset-Follows : (base : LogOffset) (m : MemLog Payload) → Follows base (reset Payload m base)
  unfolding reset
  reset-Follows base m = record { rising = tt; last_known = refl }

  last_or-le :
      (o : LogOffset) (xs : List (LogItem Payload))
      → Above o xs
      → LogOffset.le o (last_or o xs) ≡ true
  last_or-le o [] h = Order.le_refl o
  last_or-le o (x ∷ xs) h =
      Order.le_trans o x.offset (last_or x.offset xs) (Order.le-of-lt o x.offset h.0)
        (last_or-le x.offset xs h.1)

  -- Nothing in the log lies past its last offset, nor does the base.
  pub base-le-last :
      (base : LogOffset) (m : MemLog Payload)
      → Follows base m
      → LogOffset.le base m.last_offset ≡ true
  base-le-last base m h = rw (h.last_known) (last_or-le base m.logs h.rising)
