-- ===== src/SyncProgress/Sort.antt =====
-- `std::sort` on offsets: the order of the result, and how many offsets have reached a given one.
use pika.Prelude.{
  ℕ, zero, suc, ◌+◌, ◌≤◌, ◌<◌, ◌≡◌, refl, true, false, List, [], ◌∷◌, arith, if◌then◌else◌, length,
  get_or,
}
use pika.LogOffset.{LogOffset, log_origin}
use pika.LogOffset
use pika.LogOffset.Order
use pika.BinlogOffset
use pika.SyncProgress.{insert_sorted, sort}

not_reached : (x c : LogOffset) → LogOffset.lt x c ≡ true → LogOffset.le c x ≡ false
unfolding LogOffset.lt LogOffset.le BinlogOffset.lt BinlogOffset.le
not_reached x c h = ground arith

-- How many of the offsets have reached `c`.
abbrev pub count_reached : LogOffset → List LogOffset → ℕ
count_reached c [] = 0
count_reached c (x ∷ xs) = (if LogOffset.le c x then 1 else 0) + count_reached c xs

abbrev AllFrom : LogOffset → List LogOffset → Type 0
AllFrom o [] = Unit {0}
AllFrom o (x ∷ xs) = (LogOffset.le o x ≡ true) × AllFrom o xs

abbrev pub IsSorted : List LogOffset → Type 0
IsSorted [] = Unit {0}
IsSorted (x ∷ xs) = AllFrom x xs × IsSorted xs

AllFrom-insert_sorted :
    (o x : LogOffset) (xs : List LogOffset)
    → LogOffset.le o x ≡ true
    → AllFrom o xs
    → AllFrom o (insert_sorted x xs)
unfolding insert_sorted
AllFrom-insert_sorted o x [] h a = (h, tt)
AllFrom-insert_sorted o x (y ∷ ys) h a = ground (arith, AllFrom-insert_sorted o x ys h a.1)

AllFrom-below :
    (o p : LogOffset) (xs : List LogOffset) → LogOffset.le o p ≡ true → AllFrom p xs → AllFrom o xs
AllFrom-below o p [] h a = tt
AllFrom-below o p (x ∷ xs) h a = (Order.le_trans o p x h a.0, AllFrom-below o p xs h a.1)

insert_sorted-IsSorted :
    (x : LogOffset) (xs : List LogOffset) → IsSorted xs → IsSorted (insert_sorted x xs)
unfolding insert_sorted
insert_sorted-IsSorted x [] h = (tt, tt)
insert_sorted-IsSorted x (y ∷ ys) h = ground (
  arith,
  insert_sorted-IsSorted x ys h.1,
  AllFrom-insert_sorted y x ys,
  Order.le-of-lt y x,
  Order.le-of-not-lt y x,
  AllFrom-below x y ys,
)

pub sort-IsSorted : (xs : List LogOffset) → IsSorted (sort xs)
unfolding sort
sort-IsSorted [] = tt
sort-IsSorted (x ∷ xs) = insert_sorted-IsSorted x (sort xs) (sort-IsSorted xs)

count_reached-insert_sorted :
    (c x : LogOffset) (xs : List LogOffset)
    → count_reached c (insert_sorted x xs) ≡ count_reached c (x ∷ xs)
unfolding insert_sorted
count_reached-insert_sorted c x [] = refl
count_reached-insert_sorted c x (y ∷ ys) = ground (arith, count_reached-insert_sorted c x ys)

pub count_reached-sort :
    (c : LogOffset) (xs : List LogOffset) → count_reached c (sort xs) ≡ count_reached c xs
unfolding sort
count_reached-sort c [] = refl
count_reached-sort c (x ∷ xs) =
    omega (arith, count_reached-insert_sorted c x (sort xs), count_reached-sort c xs)

length-insert_sorted :
    (x : LogOffset) (xs : List LogOffset) → length (insert_sorted x xs) ≡ suc (length xs)
unfolding insert_sorted
length-insert_sorted x [] = refl
length-insert_sorted x (y ∷ ys) = ground (arith, length-insert_sorted x ys)

pub length-sort : (xs : List LogOffset) → length (sort xs) ≡ length xs
unfolding sort
length-sort [] = refl
length-sort (x ∷ xs) = omega (arith, length-insert_sorted x (sort xs), length-sort xs)

count_reached-AllFrom :
    (o : LogOffset) (xs : List LogOffset) → AllFrom o xs → count_reached o xs ≡ length xs
count_reached-AllFrom o [] h = refl
count_reached-AllFrom o (x ∷ xs) h = ground (arith, count_reached-AllFrom o xs h.1)

count_reached-le : (o : LogOffset) (xs : List LogOffset) → count_reached o xs ≤ length xs
count_reached-le o [] = omega arith
count_reached-le o (x ∷ xs) = ground (arith, count_reached-le o xs)

AllFrom-at :
    (o : LogOffset) (xs : List LogOffset) (i : ℕ)
    → AllFrom o xs
    → i < length xs
    → LogOffset.le o (get_or xs i log_origin) ≡ true
AllFrom-at o [] i h lt = elim lt [ ]
AllFrom-at o (x ∷ xs) zero h lt = h.0
AllFrom-at o (x ∷ xs) (suc i) h lt = AllFrom-at o xs i h.1 (omega arith)

-- From place `i` of a sorted list on, all have reached what stands there.
pub count_reached_from :
    (xs : List LogOffset) (i : ℕ)
    → IsSorted xs
    → i < length xs
    → length xs ≤ i + count_reached (get_or xs i log_origin) xs
count_reached_from [] i h lt = elim lt [ ]
count_reached_from (x ∷ xs) zero h lt =
    ground (arith, count_reached-AllFrom x xs h.0, Order.le_refl x)
count_reached_from (x ∷ xs) (suc i) h lt = ground (arith, count_reached_from xs i h.1)

-- Up to place `i` of a sorted list, none has reached what lies above it.
pub count_reached_above :
    (xs : List LogOffset) (i : ℕ) (c : LogOffset)
    → IsSorted xs
    → i < length xs
    → LogOffset.lt (get_or xs i log_origin) c ≡ true
    → count_reached c xs + i < length xs
count_reached_above [] i c h lt k = elim lt [ ]
count_reached_above (x ∷ xs) zero c h lt k =
    ground (arith, not_reached x c k, count_reached-le c xs)
count_reached_above (x ∷ xs) (suc i) c h lt k = ground (
  arith,
  count_reached_above xs i c h.1,
  not_reached x c
      (Order.le-lt_trans x (get_or xs i log_origin) c (AllFrom-at x xs i h.0 (omega arith)) k),
)
