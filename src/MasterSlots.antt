-- ===== src/MasterSlots.antt =====
-- `FuckShaBiPartitionMap` of include/pika_rm.h: the slots of the databases db0 to db7. `none` is where
-- the program ends, since an assertion does not hold.
pub mod Keys
use pika.Prelude.{
  ℕ, ◌+◌, ◌-◌, Bool, true, false, ◌&&◌, List, [], ◌∷◌, Option, some, none, ltb, leb, ◌==◌,
  if◌then◌else◌, length, get_or, set, bytes_eq,
}
use mathlib.Core.Option
use pika.RmNode.{PartitionInfo}

-- `kMaxDbNum`, the number of slots.
abbrev pub max_db_num : ℕ
max_db_num = 8

-- `DbIdxFromStr`.
unfoldable pub db_idx_from_str : List ℕ → Option ℕ
db_idx_from_str [] = none
db_idx_from_str (a ∷ []) = none
db_idx_from_str (a ∷ b ∷ []) = none
db_idx_from_str (a ∷ b ∷ c ∷ []) =
    if (a == 100) && ((b == 98) && (leb 48 c && leb c 55)) then some (c - 48) else none
db_idx_from_str (a ∷ b ∷ c ∷ d ∷ rest) = none

-- The name that the constructor gives a slot.
unfoldable pub slot_name : ℕ → List ℕ
slot_name i = 100 ∷ 98 ∷ (48 + i) ∷ []

module _ (Master : Type 0) where
  -- The slot that `find` looks at.
  unfoldable pub find_slot : PartitionInfo → List (Option Master) → Option ℕ
  unfolding db_idx_from_str
  find_slot key masters = elim (db_idx_from_str key.table_name) [
    | none ↦ none
    | some i ↦ if ltb i (length masters) then some i else none
  ]

  -- The slot of `operator[]`, whose id must be 0 and whose name that of the slot.
  unfoldable pub slot : PartitionInfo → List (Option Master) → Option ℕ
  unfolding slot_name
  slot key masters = elim (key.partition_id == 0) [
    | false ↦ none
    | true ↦ elim (find_slot key masters) [
      | none ↦ none
      | some i ↦ if bytes_eq key.table_name (slot_name i) then some i else none
    ]
  ]

  -- `find`: what its slot holds, inside `none` for `end()`.
  unfoldable pub find : PartitionInfo → List (Option Master) → Option (Option Master)
  find key masters = Option.map (λ (i : ℕ). get_or masters i none) (find_slot key masters)

  -- `operator[]`, read, and assigned to; `erase` assigns a null pointer.
  unfoldable pub read : PartitionInfo → List (Option Master) → Option (Option Master)
  read key masters = Option.map (λ (i : ℕ). get_or masters i none) (slot key masters)

  unfoldable pub assign :
      PartitionInfo → Option Master → List (Option Master) → Option (List (Option Master))
  assign key m masters = Option.map (λ (i : ℕ). set masters i m) (slot key masters)
