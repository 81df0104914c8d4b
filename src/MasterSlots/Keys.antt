-- ===== src/MasterSlots/Keys.antt =====
-- The keys of the slots of src/pika_rm.cc: which partitions have one.
use pika.Prelude.{
  ℕ, ◌<◌, ◌≡◌, refl, ap, ◌∙◌, sym, Bool, true, false, ◌&&◌, List, [], ◌∷◌, Option, some, none, ltb,
  ◌==◌, arith, inl, inr, length, bytes_eq, bytes_eq_refl, Bool-cases, Option-cases,
}
use pika.Prelude.Table.{is_some}
use pika.RmNode.{PartitionInfo, eq}
use pika.MasterSlots.{db_idx_from_str, slot_name, find_slot, slot}

-- The partition is number 0 of a database db0 to db7.
unfoldable pub is_db : PartitionInfo → Bool
is_db p = is_some (db_idx_from_str p.table_name) && (p.partition_id == 0)

pub db_idx_lem :
    (name : List ℕ) (i : ℕ) → db_idx_from_str name ≡ some i → (name ≡ slot_name i) × (i < 8)
unfolding db_idx_from_str slot_name
db_idx_lem [] i h = ground (arith, h)
db_idx_lem (a ∷ []) i h = ground (arith, h)
db_idx_lem (a ∷ b ∷ []) i h = ground (arith, h)
db_idx_lem (a ∷ b ∷ c ∷ []) i h = (ground (arith, h), ground (arith, h))
db_idx_lem (a ∷ b ∷ c ∷ d ∷ rest) i h = ground (arith, h)

-- A database has its slot, among eight.
pub slot-db :
    (Master : Type 0) (p : PartitionInfo) (masters : List (Option Master))
    → length masters ≡ 8
    → is_db p ≡ true
    → (i : ℕ) × (slot Master p masters ≡ some i)
      × (i < 8)
      × (p.table_name ≡ slot_name i)
      × (find_slot Master p masters ≡ some i)
unfolding is_db slot find_slot
slot-db Master p masters eight h = elim (Option-cases (db_idx_from_str p.table_name)) [
  | inl absent ↦ absurd (cc (rw (absent, is_db) at h))
  | inr (i, e) ↦
      let (name, lt) = db_idx_lem p.table_name i e in
      let zero_id : (p.partition_id == 0) ≡ true = rw (e, is_db) at h in
      let fits : ltb i (length masters) ≡ true = ground (arith, eight, lt) in
      let same : bytes_eq p.table_name (slot_name i) ≡ true =
        ap (λ x. bytes_eq x (slot_name i)) name ∙ bytes_eq_refl (slot_name i) in
      (i, rw (zero_id, e, fits, same, slot, find_slot) refl, lt, name, rw (e, fits, find_slot) refl)
]

-- No other partition has one.
pub slot-none :
    (Master : Type 0) (p : PartitionInfo) (masters : List (Option Master))
    → is_db p ≡ false
    → slot Master p masters ≡ none
unfolding is_db slot find_slot
slot-none Master p masters h = elim (Bool-cases (p.partition_id == 0)) [
  | inr other ↦ rw (other, slot) refl
  | inl zero_id ↦ elim (Option-cases (db_idx_from_str p.table_name)) [
    | inl absent ↦ rw (zero_id, absent, slot, find_slot) refl
    | inr (i, e) ↦ absurd (cc (rw (e, zero_id, is_db) at h))
  ]
]

pub slot_name_inj : (i j : ℕ) → slot_name i ≡ slot_name j → i ≡ j
unfolding slot_name
slot_name_inj i j e = ground (arith, e)

-- Two partitions with one slot are one.
pub slot_inj :
    (p q : PartitionInfo) (i : ℕ)
    → is_db p ≡ true
    → is_db q ≡ true
    → p.table_name ≡ slot_name i
    → q.table_name ≡ slot_name i
    → eq p q ≡ true
unfolding is_db eq
slot_inj p q i hp hq ep eq' =
    let names : bytes_eq p.table_name q.table_name ≡ true =
      ap (λ x. bytes_eq p.table_name x) (eq' ∙ sym ep) ∙ bytes_eq_refl p.table_name in
    ground (arith, hp, hq, names)
