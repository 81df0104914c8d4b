-- ===== src/MemLog/Find.antt =====
-- `FindLogItem` of src/pika_consensus.cc finds an item of the index that it is asked for.
use pika.Prelude.{
  ℕ, suc, ◌+◌, ◌≡◌, inl, inr, true, List, [], ◌∷◌, some, arith, ltb, ◌==◌, Bool-cases, Option-cases,
}
use pika.LogOffset.{LogOffset}
use pika.MemLog.{LogItem, MemLog, find_by_logic_index, find_log_item, offset_at}

find_by_logic_index_lem :
    (Cmd : Type 0) (xs : List (LogItem Cmd)) (i : ℕ) (o : LogOffset) (k : ℕ)
    → find_by_logic_index Cmd xs i o ≡ some k
    → (j : ℕ) × (k ≡ i + j) × ((offset_at Cmd xs j).l_offset.index ≡ o.l_offset.index)
unfolding find_by_logic_index
find_by_logic_index_lem Cmd [] i o k e = ground (arith, e)
find_by_logic_index_lem Cmd (x ∷ xs) i o k e =
    elim (Bool-cases (ltb o.l_offset.index x.offset.l_offset.index)) [
      | inl past ↦ ground (arith, past, e)
      | inr before ↦ elim (Bool-cases (x.offset.l_offset.index == o.l_offset.index)) [
        | inl here ↦ (0, ground (arith, before, here, e), ground (arith, here))
        | inr more ↦
            let (j, at, same) =
              find_by_logic_index_lem Cmd xs (suc i) o k (ground (arith, before, more, e)) in
            (suc j, omega (arith, at), same)
      ]
    ]

pub find_log_item_lem :
    (Cmd : Type 0) (m : MemLog Cmd) (o out : LogOffset)
    → (find_log_item Cmd m o out).0 ≡ true
    → (find_log_item Cmd m o out).1.l_offset.index ≡ o.l_offset.index
unfolding find_log_item
find_log_item_lem Cmd m o out = elim (Option-cases (find_by_logic_index Cmd m.logs 0 o)) [
  | inl absent ↦ rw (absent, find_log_item) (λ h. ground (arith, h))
  | inr (k, e) ↦
      let (j, at, same) = find_by_logic_index_lem Cmd m.logs 0 o k e in
      let k_eq : k ≡ j = omega (arith, at) in rw (e, find_log_item) (λ h. rw k_eq same)
]
