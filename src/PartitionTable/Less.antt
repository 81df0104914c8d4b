-- ===== src/PartitionTable/Less.antt =====
-- `operator<` of `PartitionInfo` in include/pika_define.h, by which a `std::set` of partitions is kept.
use Prim.Native.Nat.{Ordering}
use pika.Prelude.{
  ℕ, ◌≡◌, ◌≢◌, refl, Bool, true, false, not, List, [], ◌∷◌, arith, ltb, ◌==◌, if◌then◌else◌,
  bytes_eq,
}
use pika.RmNode.{PartitionInfo, eq}

-- `strcmp`, by the sign of what it returns.
unfoldable pub strcmp : List ℕ → List ℕ → Ordering
strcmp [] [] = Ordering.eq
strcmp [] (b ∷ bs) = if b == 0 then Ordering.eq else Ordering.lt
strcmp (a ∷ as') [] = if a == 0 then Ordering.eq else Ordering.gt
strcmp (a ∷ as') (b ∷ bs) =
    let rest = strcmp as' bs in
    if ltb a b
    then Ordering.lt
    else if ltb b a
    then Ordering.gt
    else if a == 0
    then Ordering.eq
    else rest

-- `ret`, which is returned as an `int`.
unfoldable pub compare_info : PartitionInfo → PartitionInfo → Ordering
compare_info p q = elim (strcmp p.table_name q.table_name) [
  | Ordering.eq ↦
      if ltb p.partition_id q.partition_id
      then Ordering.lt
      else if ltb q.partition_id p.partition_id
      then Ordering.gt
      else Ordering.eq
  | Ordering.lt ↦ Ordering.lt
  | Ordering.gt ↦ Ordering.gt
]

-- The `int` where a condition is wanted: any number but 0 holds.
unfoldable pub less : PartitionInfo → PartitionInfo → Bool
less p q = elim (compare_info p q) [ Ordering.eq ↦ false | Ordering.lt ↦ true | Ordering.gt ↦ true ]

-- No byte of the name is 0.
abbrev pub IsText : List ℕ → Type 0
IsText [] = Unit {0}
IsText (c ∷ cs) = (c ≢ 0) × IsText cs

is_eq : Ordering → Bool
is_eq Ordering.eq = true
is_eq Ordering.lt = false
is_eq Ordering.gt = false

strcmp-bytes_eq : (s t : List ℕ) → IsText s → IsText t → is_eq (strcmp s t) ≡ bytes_eq s t
unfolding strcmp bytes_eq is_eq
strcmp-bytes_eq [] [] h k = refl
strcmp-bytes_eq [] (b ∷ t) h k = ground (arith, k.0)
strcmp-bytes_eq (a ∷ s) [] h k = ground (arith, h.0)
strcmp-bytes_eq (a ∷ s) (b ∷ t) h k = ground (arith, h.0, k.0, strcmp-bytes_eq s t h.1 k.1)

-- On table names without a 0 byte, operator< of PartitionInfo holds of any two that differ, in
-- both orders.
pub less-eq :
    (p q : PartitionInfo) → IsText p.table_name → IsText q.table_name → less p q ≡ not (eq p q)
unfolding less compare_info eq is_eq
less-eq p q h k = ground (arith, strcmp-bytes_eq p.table_name q.table_name h k)
