-- ===== src/Prelude/Table.antt =====
-- A `std::map` or `std::unordered_map` with string keys, as an association list.
use Prim.Native.Nat.{ℕ, ◌+◌}
use mathlib.Core.Path.{◌≡◌, refl}
use mathlib.Core.Bool.{Bool, true, false}
use mathlib.Core.List.{List, [], ◌∷◌, map}
use mathlib.Core.Option.{Option, none, some}
use native.Mathlib.Omega.{arith}
use pika.Prelude.Tests.{if◌then◌else◌}
use pika.Prelude.Lists.{length}
use pika.Prelude.Bytes.{bytes_eq, bytes_eq_refl, eq_of_bytes_eq}

abbrev pub is_some {ℓ} : {A : Type ℓ} → Option A → Bool
is_some none = false
is_some (some a) = true

module _ {ℓ} {V : Type ℓ} where
  -- `find`.
  unfoldable pub lookup : List ℕ → List (List ℕ × V) → Option V
  lookup k [] = none
  lookup k ((j, v) ∷ m) = if bytes_eq j k then some v else lookup k m

  -- `m[k] = v`.
  unfoldable pub insert : List ℕ → V → List (List ℕ × V) → List (List ℕ × V)
  insert k v [] = (k, v) ∷ []
  insert k v ((j, w) ∷ m) = if bytes_eq j k then (j, v) ∷ m else (j, w) ∷ insert k v m

  -- `erase`.
  unfoldable pub erase : List ℕ → List (List ℕ × V) → List (List ℕ × V)
  erase k [] = []
  erase k ((j, w) ∷ m) = let rest = erase k m in if bytes_eq j k then rest else (j, w) ∷ rest

  abbrev pub keys : List (List ℕ × V) → List (List ℕ)
  keys m = map (λ (e : List ℕ × V). e.0) m

  -- The values, in the order of iteration.
  abbrev pub values : List (List ℕ × V) → List V
  values [] = []
  values ((j, v) ∷ m) = v ∷ values m

  pub lookup-insert_self :
      (k : List ℕ) (v : V) (m : List (List ℕ × V)) → lookup k (insert k v m) ≡ some v
  unfolding lookup insert
  lookup-insert_self k v [] = ground (arith, bytes_eq_refl k)
  lookup-insert_self k v ((j, w) ∷ m) = ground (arith, lookup-insert_self k v m)

  pub lookup-erase_self : (k : List ℕ) (m : List (List ℕ × V)) → lookup k (erase k m) ≡ none
  unfolding lookup erase
  lookup-erase_self k [] = refl
  lookup-erase_self k ((j, w) ∷ m) = ground (arith, lookup-erase_self k m)

  pub lookup-erase_ne :
      (k j : List ℕ) (m : List (List ℕ × V))
      → bytes_eq j k ≡ false
      → lookup k (erase j m) ≡ lookup k m
  unfolding lookup erase
  lookup-erase_ne k j [] h = refl
  lookup-erase_ne k j ((i, v) ∷ m) h =
      ground
        (arith, lookup-erase_ne k j m h, eq_of_bytes_eq i j, eq_of_bytes_eq i k, bytes_eq_refl k)

  pub lookup-insert_ne :
      (k j : List ℕ) (v : V) (m : List (List ℕ × V))
      → bytes_eq j k ≡ false
      → lookup k (insert j v m) ≡ lookup k m
  unfolding lookup insert
  lookup-insert_ne k j v [] h = ground (arith, h)
  lookup-insert_ne k j v ((i, w) ∷ m) h =
      ground (arith, lookup-insert_ne k j v m h, eq_of_bytes_eq i j, eq_of_bytes_eq i k, h)

  -- A key that is there keeps its place, a new one comes last.
  pub length-insert :
      (k : List ℕ) (v : V) (m : List (List ℕ × V))
      → length (insert k v m) ≡ (if is_some (lookup k m) then length m else length m + 1)
  unfolding lookup insert
  length-insert k v [] = ground arith
  length-insert k v ((j, w) ∷ m) = ground (arith, length-insert k v m)
