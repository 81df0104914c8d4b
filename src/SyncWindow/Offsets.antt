-- ===== src/SyncWindow/Offsets.antt =====
-- The offsets that a window holds, under marking and popping.
use pika.Prelude.{
  Bool-cases, ◌⊎◌, inl, inr, false, ◌++◌, ℕ, suc, ◌≡◌, refl, ◌⊎◌, inl, inr, true, false, List, [],
  ◌∷◌, ◌++◌, arith,
}
use pika.LogOffset.{LogOffset}
use pika.LogOffset
use pika.LogOffset.Order
use pika.SyncWindow.{SyncWinItem, mark, pop_acked}

-- The offsets rise along the list, all above `o`.
abbrev pub Above : LogOffset → List SyncWinItem → Type 0
Above o [] = Unit {0}
Above o (x ∷ xs) = (LogOffset.lt o x.offset ≡ true) × Above x.offset xs

-- The offset of the last item, or `o` if there is none.
abbrev pub last_or : LogOffset → List SyncWinItem → LogOffset
last_or o [] = o
last_or o (x ∷ xs) = last_or x.offset xs

pub mark-Above :
    (start_pos end_pos i : ℕ) (o : LogOffset) (xs : List SyncWinItem)
    → Above o xs
    → Above o (mark start_pos end_pos i xs)
unfolding mark
mark-Above start_pos end_pos i o [] h = tt
mark-Above start_pos end_pos i o (x ∷ xs) h =
    ground (arith, mark-Above start_pos end_pos (suc i) x.offset xs h.1)

pub last_or-mark :
    (start_pos end_pos i : ℕ) (o : LogOffset) (xs : List SyncWinItem)
    → last_or o (mark start_pos end_pos i xs) ≡ last_or o xs
unfolding mark
last_or-mark start_pos end_pos i o [] = refl
last_or-mark start_pos end_pos i o (x ∷ xs) =
    ground (arith, last_or-mark start_pos end_pos (suc i) x.offset xs)

-- What stays in the window lies above what popping reports.
pub pop_acked-Above :
    (o : LogOffset) (xs : List SyncWinItem)
    → Above o xs
    → Above (pop_acked xs o).1 (pop_acked xs o).0
unfolding pop_acked
pop_acked-Above o [] h = tt
pop_acked-Above o (x ∷ xs) h = ground (arith, pop_acked-Above x.offset xs h.1)

pub last_or-pop_acked :
    (o : LogOffset) (xs : List SyncWinItem)
    → last_or (pop_acked xs o).1 (pop_acked xs o).0 ≡ last_or o xs
unfolding pop_acked
last_or-pop_acked o [] = refl
last_or-pop_acked o (x ∷ xs) = ground (arith, last_or-pop_acked x.offset xs)

pub pop_acked-le :
    (o : LogOffset) (xs : List SyncWinItem) → Above o xs → LogOffset.le o (pop_acked xs o).1 ≡ true
unfolding pop_acked
pop_acked-le o [] h = Order.le_refl o
pop_acked-le o (x ∷ xs) h = ground (
  arith,
  Order.le_refl o,
  pop_acked-le x.offset xs h.1,
  Order.le-of-lt o x.offset,
  Order.le_trans o x.offset (pop_acked xs x.offset).1,
)

-- What `pop_acked` reports from a starting value other than the node's: that value if no item left
-- the window, and else the offset of the last that did.
pub pop_acked_from :
    (o p : LogOffset) (xs : List SyncWinItem)
    → Above o xs
    → ((pop_acked xs p ≡ (xs, p)) × (pop_acked xs o ≡ (xs, o)))
      ⊎ ((pop_acked xs p ≡ pop_acked xs o) × (LogOffset.lt o (pop_acked xs p).1 ≡ true))
unfolding pop_acked
pop_acked_from o p [] h = inl (refl, refl)
pop_acked_from o p (x ∷ xs) h = elim (Bool-cases x.acked) [
  | inr waits ↦ inl (rw waits refl, rw waits refl)
  | inl gone ↦
      inr
        (rw gone refl, rw gone (Order.lt-le_trans o x.offset _ h.0 (pop_acked-le x.offset xs h.1)))
]

pub Above-append :
    (o : LogOffset) (xs : List SyncWinItem) (x : SyncWinItem)
    → Above o xs
    → LogOffset.lt (last_or o xs) x.offset ≡ true
    → Above o (xs ++ x ∷ []) × (last_or o (xs ++ x ∷ []) ≡ x.offset)
Above-append o [] x h lt = ((lt, tt), refl)
Above-append o (y ∷ ys) x h lt = let (a, e) = Above-append y.offset ys x h.1 lt in ((h.0, a), e)

-- The first item, if there is one, is not acked.
abbrev pub FrontWaits : List SyncWinItem → Type 0
FrontWaits [] = Unit {0}
FrontWaits (x ∷ xs) = x.acked ≡ false

pub pop_acked-FrontWaits : (xs : List SyncWinItem) (o : LogOffset) → FrontWaits (pop_acked xs o).0
unfolding pop_acked
pop_acked-FrontWaits [] o = tt
pop_acked-FrontWaits (x ∷ xs) o = ground (arith, pop_acked-FrontWaits xs x.offset)

pub FrontWaits-append :
    (xs : List SyncWinItem) (x : SyncWinItem)
    → x.acked ≡ false
    → FrontWaits xs
    → FrontWaits (xs ++ (x ∷ []))
FrontWaits-append [] x h f = h
FrontWaits-append (y ∷ ys) x h f = f
