-- ===== src/SyncWindow/Search.antt =====
-- `SyncWindow::Update`: which items it finds.
use pika.Prelude.{
  ℕ, zero, suc, ◌+◌, ◌≤◌, ◌<◌, ◌≡◌, refl, ◌⊎◌, inl, inr, true, false, List, [], ◌∷◌, some, arith,
  length, get_elem?, Bool-cases, ◌==◌, ◌||◌, if◌then◌else◌,
}
use pika.LogOffset.{LogOffset}
use pika.LogOffset
use pika.LogOffset.Order
use pika.BinlogOffset
use pika.SyncWindow.{SyncWinItem, SyncWindow, item_eq, find_positions, acknowledge, update}
use pika.SyncWindow.Offsets.{Above}

-- The items at `i` and `j` are the ends of the acknowledged range.
pub record Covers (w : SyncWindow) (s e : SyncWinItem) (i j : ℕ) : Type 0 where
  pub first : SyncWinItem
  pub last : SyncWinItem
  pub first_at : get_elem? w.win i ≡ some first
  pub last_at : get_elem? w.win j ≡ some last
  pub first_eq : item_eq first s ≡ true
  pub last_eq : item_eq last e ≡ true
  pub ordered : i ≤ j

below_ne :
    (a b c : SyncWinItem)
    → LogOffset.lt a.offset b.offset ≡ true
    → item_eq b c ≡ true
    → item_eq a c ≡ false
unfolding item_eq LogOffset.lt BinlogOffset.lt
below_ne a b c h k = ground arith

above_ne :
    (o : LogOffset) (b c : SyncWinItem)
    → LogOffset.lt o b.offset ≡ true
    → LogOffset.eq o c.offset ≡ true
    → item_eq b c ≡ false
unfolding item_eq LogOffset.lt BinlogOffset.lt LogOffset.eq BinlogOffset.eq
above_ne o b c h k = ground arith

item_eq-eq : (a b : SyncWinItem) → item_eq a b ≡ true → LogOffset.eq a.offset b.offset ≡ true
unfolding item_eq LogOffset.eq BinlogOffset.eq
item_eq-eq a b h = ground arith

lt_trans :
    (a b c : LogOffset)
    → LogOffset.lt a b ≡ true
    → LogOffset.lt b c ≡ true
    → LogOffset.lt a c ≡ true
lt_trans a b c h k = Order.lt-le_trans a b c h (Order.le-of-lt b c k)

Above-at :
    (o : LogOffset) (xs : List SyncWinItem) (k : ℕ) (y : SyncWinItem)
    → Above o xs
    → get_elem? xs k ≡ some y
    → LogOffset.lt o y.offset ≡ true
Above-at o [] k y h e = cc
Above-at o (x ∷ xs) zero y h e = ground (arith)
Above-at o (x ∷ xs) (suc k) y h e =
    lt_trans o x.offset y.offset h.0 (Above-at x.offset xs k y h.1 e)

Above-below :
    (o p : LogOffset) (xs : List SyncWinItem) → LogOffset.lt o p ≡ true → Above p xs → Above o xs
Above-below o p [] h k = tt
Above-below o p (x ∷ xs) h k = (lt_trans o p x.offset h k.0, k.1)

-- Past the start item only the end item is looked for.
find_end :
    (xs : List SyncWinItem) (i : ℕ) (s e : SyncWinItem) (p q : ℕ) (o : LogOffset) (k : ℕ)
    (y : SyncWinItem)
    → Above o xs
    → LogOffset.eq o s.offset ≡ true
    → get_elem? xs k ≡ some y
    → item_eq y e ≡ true
    → find_positions xs i s e p q ≡ (p, i + k)
unfolding find_positions
find_end [] i s e p q o k y h eo at ey = cc
find_end (x ∷ xs) i s e p q o zero y h eo at ey = ground (arith, above_ne o x s h.0 eo)
find_end (x ∷ xs) i s e p q o (suc k) y h eo at ey = ground (
  arith,
  above_ne o x s h.0 eo,
  below_ne x y e (Above-at x.offset xs k y h.1 at) ey,
  find_end xs (suc i) s e p q o k y (Above-below o x.offset xs h.0 h.1) eo at ey,
)

find_both :
    (xs : List SyncWinItem) (i : ℕ) (s e : SyncWinItem) (p q : ℕ) (o : LogOffset) (m k : ℕ)
    (x' y : SyncWinItem)
    → Above o xs
    → get_elem? xs m ≡ some x'
    → item_eq x' s ≡ true
    → get_elem? xs k ≡ some y
    → item_eq y e ≡ true
    → m ≤ k
    → find_positions xs i s e p q ≡ (i + m, i + k)
unfolding find_positions
find_both [] i s e p q o m k x' y h at ex at' ey le = cc
find_both (x ∷ xs) i s e p q o zero zero x' y h at ex at' ey le = ground arith
find_both (x ∷ xs) i s e p q o zero (suc k) x' y h at ex at' ey le = ground (
  arith,
  below_ne x y e (Above-at x.offset xs k y h.1 at') ey,
  item_eq-eq x s,
  find_end xs (suc i) s e i q x.offset k y h.1,
)
find_both (x ∷ xs) i s e p q o (suc m) zero x' y h at ex at' ey le = absurd (omega arith)
find_both (x ∷ xs) i s e p q o (suc m) (suc k) x' y h at ex at' ey le = ground (
  arith,
  below_ne x x' s (Above-at x.offset xs m x' h.1 at) ex,
  below_ne x y e (Above-at x.offset xs k y h.1 at') ey,
  find_both xs (suc i) s e p q x.offset m k x' y h.1 at ex at' ey (omega arith),
)

get_elem?-lt :
    (xs : List SyncWinItem) (k : ℕ) (y : SyncWinItem) → get_elem? xs k ≡ some y → k < length xs
get_elem?-lt [] k y h = cc
get_elem?-lt (x ∷ xs) zero y h = omega arith
get_elem?-lt (x ∷ xs) (suc k) y h = omega (arith, get_elem?-lt xs k y h)

-- In a window whose offsets rise, a range whose two ends the window holds, in order, is the one
-- that Update acknowledges.
pub update_covered :
    (w : SyncWindow) (s e : SyncWinItem) (o a : LogOffset) (i j : ℕ)
    → Above o w.win
    → Covers w s e i j
    → update w s e a ≡ acknowledge w i j a
unfolding update
update_covered w s e o a i j h c = ground (
  arith,
  find_both w.win 0 s e (length w.win) (length w.win) o i j c.first c.last h c.first_at c.first_eq
      c.last_at c.last_eq c.ordered,
  get_elem?-lt w.win i c.first c.first_at,
  get_elem?-lt w.win j c.last c.last_at,
)

-- A start position that is not the default one is that of a start item, at `k` or before.
abbrev StartAt : List SyncWinItem → SyncWinItem → ℕ → ℕ → ℕ → ℕ → Type 0
StartAt xs s i p k p' =
    (p' ≡ p)
    ⊎ ((m : ℕ) × (x : SyncWinItem) × (get_elem? xs m ≡ some x)
        × (item_eq x s ≡ true)
        × (p' ≡ i + m)
        × (m ≤ k))

abbrev EndAt : List SyncWinItem → SyncWinItem → SyncWinItem → ℕ → ℕ → ℕ → ℕ × ℕ → Type 0
EndAt xs s e i p q r =
    (r.1 ≡ q)
    ⊎ ((k : ℕ) × (y : SyncWinItem) × (get_elem? xs k ≡ some y)
        × (item_eq y e ≡ true)
        × (r.1 ≡ i + k)
        × StartAt xs s i p k r.0)

StartAt-head :
    (x : SyncWinItem) (xs : List SyncWinItem) (s : SyncWinItem) (i p : ℕ)
    → StartAt (x ∷ xs) s i p 0 (if item_eq x s then i else p)
StartAt-head x xs s i p = elim (Bool-cases (item_eq x s)) [
  | inl h ↦ rw h (inr (0, x, refl, h, omega arith, omega arith))
  | inr h ↦ rw h (inl refl)
]

StartAt-tail :
    (x : SyncWinItem) (xs : List SyncWinItem) (s : SyncWinItem) (i p k p' : ℕ)
    → StartAt xs s (suc i) (if item_eq x s then i else p) k p'
    → StartAt (x ∷ xs) s i p (suc k) p'
StartAt-tail x xs s i p k p' (inl h) = elim (Bool-cases (item_eq x s)) [
  | inl t ↦ inr (0, x, refl, t, ground (arith), omega arith)
  | inr t ↦ inl (ground arith)
]
StartAt-tail x xs s i p k p' (inr (m, z, at, ez, e, le)) =
    inr (suc m, z, at, ez, omega arith, omega arith)

find_positions-EndAt :
    (xs : List SyncWinItem) (i : ℕ) (s e : SyncWinItem) (p q : ℕ)
    → EndAt xs s e i p q (find_positions xs i s e p q)
unfolding find_positions
find_positions-EndAt [] i s e p q = inl refl
find_positions-EndAt (x ∷ xs) i s e p q = elim (Bool-cases (item_eq x e)) [
  | inl h ↦ rw h (inr (0, x, refl, h, omega arith, StartAt-head x xs s i p))
  | inr h ↦ rw h (elim (find_positions-EndAt xs (suc i) s e (if item_eq x s then i else p) q) [
    | inl d ↦ inl d
    | inr (k, y, at, ey, e', st) ↦
        inr (suc k, y, at, ey, omega arith, StartAt-tail x xs s i p k _ st)
  ])
]

-- Where Update succeeds, on whatever window, the window holds both ends of the range, the first
-- not behind the last.
pub update_found :
    (w : SyncWindow) (s e : SyncWinItem) (a : LogOffset)
    → (update w s e a).0 ≡ true
    → (i : ℕ) × (j : ℕ) × Covers w s e i j
unfolding update
update_found w s e a h =
    let n = length w.win in
    elim (find_positions-EndAt w.win 0 s e n n) [
      | inl d ↦ absurd (ground arith)
      | inr (k, y, at, ey, e', inl d) ↦ absurd (ground arith)
      | inr (k, y, at, ey, e', inr (m, x, at', ex, e'', le)) ↦ (
        m,
        k,
        record {
          first = x;
          last = y;
          first_at = at';
          last_at = at;
          first_eq = ex;
          last_eq = ey;
          ordered = le;
        },
      )
    ]

-- `Update` fails without a change: neither the window nor the acked offset moves.
pub update_refused :
    (w : SyncWindow) (s e : SyncWinItem) (a : LogOffset)
    → (update w s e a).0 ≡ false
    → update w s e a ≡ (false, w, a)
unfolding update
update_refused w s e a h = ground arith

pub update_cases :
    (w : SyncWindow) (s e : SyncWinItem) (a : LogOffset)
    → (update w s e a ≡ (false, w, a))
      ⊎ ((i : ℕ) × (j : ℕ) × (update w s e a ≡ acknowledge w i j a))
unfolding update
update_cases w s e a =
    let n = length w.win in
    let p = find_positions w.win 0 s e n n in
    elim (Bool-cases ((p.0 == n) || (p.1 == n))) [
      | inl missing ↦ inl (rw missing)
      | inr found ↦ inr (p.0, p.1, rw found)
    ]
