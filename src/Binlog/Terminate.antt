-- ===== src/Binlog/Terminate.antt =====
-- `Produce`: the rounds that its loop takes, against the fuel.
use pika.Prelude.{
  ℕ, zero, suc, ◌+◌, ◌-◌, ◌≤◌, ◌<◌, ◌≡◌, inl, inr, Bool, true, false, List, some, arith, ltb, ◌==◌,
  length, length-drop, length-take, take, drop, Bool-cases, if◌then◌else◌,
}
use pika.Env.{Env}
use pika.Status.{is_ok}
use pika.Binlog.{
  Binlog, Step, block_size, header_size, fragment_type, emit_physical_record, fill_block,
  produce_loop, produce,
}
use pika.Binlog.Produce.{round_end, last_round, part_round}

module _ (env : Env) where
  -- The round that a full block may take before it takes a byte.
  abbrev empty_round : Binlog env → ℕ
  empty_round b = if b.block_offset + header_size == block_size then 1 else 0

  fill_block-fits :
      (b : Binlog env) (t : ℕ)
      → b.block_offset ≤ block_size
      → is_ok (fill_block env b t).0 ≡ true
      → ((fill_block env b t).1.block_offset + header_size ≤ block_size)
        × (empty_round (fill_block env b t).1 ≤ empty_round b)
  unfolding fill_block
  fill_block-fits b t le h = ground arith

  abbrev LoopEnds : ℕ → (ℕ → ℕ) → Type 0
  LoopEnds fuel clock =
      (b : Binlog env) (ptr : List ℕ) (begin : Bool) (t : ℕ)
      → b.block_offset ≤ block_size
      → length ptr + empty_round b < fuel
      → (r : Step env) × (produce_loop env fuel clock b ptr begin t ≡ some r)

  round_end-some :
      (fuel : ℕ) (clock : ℕ → ℕ)
      → LoopEnds fuel clock
      → (b : Binlog env) (ptr : List ℕ) (begin : Bool) (t : ℕ)
      → b.block_offset + header_size ≤ block_size
      → length ptr + empty_round b < suc fuel
      → (r : Step env) × (round_end env fuel clock b ptr begin t ≡ some r)
  round_end-some fuel clock ih b ptr begin t fits lt =
      elim (Bool-cases (ltb (block_size - b.block_offset - header_size) (length ptr))) [
        | inl long ↦
            let n = block_size - b.block_offset - header_size in
            let r =
              emit_physical_record env b (fragment_type begin false) (take n ptr) (clock fuel) t in
            let step = part_round env fuel clock b ptr begin t n (omega arith) (ground arith) in
            let at_end : r.1.block_offset ≡ block_size =
              unfold emit_physical_record in ground (arith, length-take n ptr) in
            elim (Bool-cases (is_ok r.0)) [
              | inl good ↦
                  let (q, e) =
                    ih r.1 (drop n ptr) false r.2 (omega arith)
                      (ground (arith, at_end, length-drop n ptr)) in
                  (q, ground (arith, step, e))
              | inr bad ↦ (r, ground (arith, step))
            ]
        | inr short ↦ (_, last_round env fuel clock b ptr begin t (ground arith))
      ]

  produce_loop_some : (fuel : ℕ) (clock : ℕ → ℕ) → LoopEnds fuel clock
  unfolding produce_loop
  produce_loop_some zero clock b ptr begin t le lt = elim lt [ ]
  produce_loop_some (suc fuel) clock b ptr begin t le lt =
      let f = fill_block env b t in
      elim (Bool-cases (is_ok f.0)) [
        | inl filled ↦
            let (fits, rounds) = fill_block-fits b t le filled in
            let (r, e) =
              round_end-some fuel clock (produce_loop_some fuel clock) f.1 ptr begin f.2 fits
                (omega (arith, rounds)) in
            (r, ground (arith, e))
        | inr failed ↦ (f, ground arith)
      ]

  -- Produce returns for every item, from every place of a block and whatever the writes answer.
  pub produce_total :
      (clock : ℕ → ℕ) (b : Binlog env) (item : List ℕ)
      → b.block_offset ≤ block_size
      → (r : Step env) × (produce env clock b item ≡ some r)
  unfolding produce
  produce_total clock b item le =
      produce_loop_some (length item + 2) clock b item true _ le (ground arith)
