-- ===== src/PartitionTable.antt =====
-- A `std::unordered_map` with `PartitionInfo` keys, as an association list, and the operators of
-- `PartitionInfo` in include/pika_define.h.
pub mod Less
use pika.Prelude.{
  ℕ, ◌≡◌, refl, ap, Bool, true, false, ◌&&◌, not, List, [], ◌∷◌, Option, none, some, arith, ltb,
  ◌==◌, if◌then◌else◌, inl, inr, Bool-cases, bytes_eq, bytes_eq_refl, eq_of_bytes_eq,
}
use pika.RmNode.{PartitionInfo, eq}

eq_refl : (p : PartitionInfo) → eq p p ≡ true
unfolding eq
eq_refl p = ground (arith, bytes_eq_refl p.table_name)

pub eq_of_eq : (p q : PartitionInfo) → eq p q ≡ true → p ≡ q
unfolding eq
eq_of_eq p q h = ground (arith, eq_of_bytes_eq p.table_name q.table_name, h)

module _ {ℓ} {V : Type ℓ} where
  -- `find`.
  unfoldable pub find : PartitionInfo → List (PartitionInfo × V) → Option V
  find p [] = none
  find p ((q, v) ∷ m) = if eq q p then some v else find p m

  -- `m[p] = v`.
  unfoldable pub assign : PartitionInfo → V → List (PartitionInfo × V) → List (PartitionInfo × V)
  assign p v [] = (p, v) ∷ []
  assign p v ((q, w) ∷ m) = let rest = assign p v m in if eq q p then (q, v) ∷ m else (q, w) ∷ rest

  -- `erase`.
  unfoldable pub remove : PartitionInfo → List (PartitionInfo × V) → List (PartitionInfo × V)
  remove p [] = []
  remove p ((q, w) ∷ m) = let rest = remove p m in if eq q p then rest else (q, w) ∷ rest

  pub find-assign_self :
      (p : PartitionInfo) (v : V) (m : List (PartitionInfo × V)) → find p (assign p v m) ≡ some v
  unfolding find assign
  find-assign_self p v [] = rw (eq_refl p) refl
  find-assign_self p v ((q, w) ∷ m) = ground (arith, find-assign_self p v m)

  pub find-assign_ne :
      (p q : PartitionInfo) (v : V) (m : List (PartitionInfo × V))
      → eq q p ≡ false
      → find p (assign q v m) ≡ find p m
  unfolding find assign
  find-assign_ne p q v [] h = rw h refl
  find-assign_ne p q v ((r, w) ∷ m) h = elim (Bool-cases (eq r q)) [
    | inl same ↦ let e = eq_of_eq r q same in rw same (rw e (rw h refl))
    | inr other ↦ ground (arith, other, find-assign_ne p q v m h)
  ]

  pub find-remove_self :
      (p : PartitionInfo) (m : List (PartitionInfo × V)) → find p (remove p m) ≡ none
  unfolding find remove
  find-remove_self p [] = refl
  find-remove_self p ((q, w) ∷ m) = ground (arith, find-remove_self p m)
