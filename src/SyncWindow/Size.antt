-- ===== src/SyncWindow/Size.antt =====
-- `total_size_` against the sizes of the items that are not acked.
use pika.Prelude.{
  ℕ, suc, ◌+◌, ◌-◌, ◌%◌, ◌<◌, ◌≡◌, ◌↔◌, refl, false, ◌&&◌, List, [], ◌∷◌, ◌++◌, arith, leb,
  if◌then◌else◌,
}
use pika.LogOffset.{LogOffset}
use pika.SyncWindow.{
  SyncWinItem, SyncWindow, size_mod, mark, subtract_sizes, pop_acked, push, acknowledge,
}

abbrev pub unacked_size : List SyncWinItem → ℕ
unacked_size [] = 0
unacked_size (x ∷ xs) = (if x.acked then 0 else x.binlog_size) + unacked_size xs

-- The bytes between the positions `i` and `j` that were acked before.
abbrev pub acked_between : ℕ → ℕ → ℕ → List SyncWinItem → ℕ
acked_between i j k [] = 0
acked_between i j k (x ∷ xs) =
    (if leb i k && leb k j then (if x.acked then x.binlog_size else 0) else 0)
    + acked_between i j (suc k) xs

abbrev pub sizes_between : ℕ → ℕ → ℕ → List SyncWinItem → ℕ
sizes_between i j k [] = 0
sizes_between i j k (x ∷ xs) =
    (if leb i k && leb k j then x.binlog_size else 0) + sizes_between i j (suc k) xs

abbrev pub AllWords : List SyncWinItem → Type 0
AllWords [] = Unit {0}
AllWords (x ∷ xs) = (x.binlog_size < size_mod) × AllWords xs

-- The counter holds the bytes that wait for an ack, and these fit a `size_t`.
pub record IsCounted (w : SyncWindow) : Type 0 where
  pub counted : w.total_size ≡ unacked_size w.win
  pub fits : unacked_size w.win < size_mod
  pub words : AllWords w.win

subtract_sizes_lem :
    (i j k : ℕ) (xs : List SyncWinItem) (total : ℕ)
    → AllWords xs
    → total < size_mod
    → (subtract_sizes i j k xs total < size_mod)
      × ((subtract_sizes i j k xs total + sizes_between i j k xs) % size_mod ≡ total % size_mod)
unfolding subtract_sizes
subtract_sizes_lem i j k [] total h lt = omega arith
subtract_sizes_lem i j k (x ∷ xs) total h lt =
    let next =
      if leb i k && leb k j then (total + size_mod - x.binlog_size) % size_mod else total in
    ground (arith, subtract_sizes_lem i j (suc k) xs next h.1)

unacked_size-mark :
    (i j k : ℕ) (xs : List SyncWinItem)
    → unacked_size (mark i j k xs) + sizes_between i j k xs
      ≡ unacked_size xs + acked_between i j k xs
unfolding mark
unacked_size-mark i j k [] = omega arith
unacked_size-mark i j k (x ∷ xs) = ground (arith, unacked_size-mark i j (suc k) xs)

unacked_size-pop_acked :
    (xs : List SyncWinItem) (o : LogOffset) → unacked_size (pop_acked xs o).0 ≡ unacked_size xs
unfolding pop_acked
unacked_size-pop_acked [] o = refl
unacked_size-pop_acked (x ∷ xs) o = ground (arith, unacked_size-pop_acked xs x.offset)

unacked_size-append :
    (xs ys : List SyncWinItem) → unacked_size (xs ++ ys) ≡ unacked_size xs + unacked_size ys
unacked_size-append [] ys = omega arith
unacked_size-append (x ∷ xs) ys = ground (arith, unacked_size-append xs ys)

AllWords-append : (xs ys : List SyncWinItem) → AllWords xs → AllWords ys → AllWords (xs ++ ys)
AllWords-append [] ys h k = k
AllWords-append (x ∷ xs) ys h k = (h.0, AllWords-append xs ys h.1 k)

-- A new item adds its bytes to the counter.
pub push-IsCounted :
    (w : SyncWindow) (x : SyncWinItem)
    → IsCounted w
    → x.acked ≡ false
    → unacked_size w.win + x.binlog_size < size_mod
    → IsCounted (push w x)
unfolding push
push-IsCounted w x v fresh fit = record {
  counted = ground (arith, unacked_size-append w.win (x ∷ []), v.counted);
  fits = ground (arith, unacked_size-append w.win (x ∷ []));
  words = AllWords-append w.win (x ∷ []) v.words (omega arith, tt);
}

-- If total_size_ was the number of bytes that wait, and the bytes of the range that were acked
-- before fit a word, it is so after an acknowledgement exactly if there were none of the latter.
pub acknowledge_counted :
    (w : SyncWindow) (i j : ℕ) (a : LogOffset)
    → IsCounted w
    → acked_between i j 0 w.win < size_mod
    → ((acknowledge w i j a).1.total_size ≡ unacked_size (acknowledge w i j a).1.win)
      ↔ (acked_between i j 0 w.win ≡ 0)
unfolding acknowledge
acknowledge_counted w i j a v fit =
    let total = subtract_sizes i j 0 w.win w.total_size in
    let facts = subtract_sizes_lem i j 0 w.win w.total_size v.words (rw v.counted v.fits) in
    let marks = unacked_size-mark i j 0 w.win in
    let pops = unacked_size-pop_acked (mark i j 0 w.win) a in
    let start : w.total_size ≡ unacked_size w.win = v.counted in
    (
      λ e. omega (arith, facts, marks, pops, start, v.fits, e),
      λ e. omega (arith, facts, marks, pops, start, v.fits, e),
    )
