-- ===== src/Negotiate/Leader.antt =====
-- What the answer of `LeaderNegotiate` of src/pika_consensus.cc tells a follower.
use pika.Prelude.{
  ℕ, ◌+◌, ◌%◌, ◌^◌, ◌≤◌, if◌then◌else◌, ◌≡◌, ◌↔◌, refl, ap, ◌⊎◌, inl, inr, true, false, ◌||◌, not,
  List, [], ◌∷◌, Option, some, none, arith, ltb, subst, ◌==◌, Bool-cases, Option-cases,
}
use pika.Env.{Env}
use pika.Slash.{Slash}
use pika.Status.{Status, ok, is_ok}
use pika.BinlogOffset.{BinlogOffset}
use pika.BinlogOffset
use pika.LogOffset.{LogOffset}
use pika.Transverter.{BinlogItem}
use pika.Binlog.{Binlog}
use pika.Coordinator.{Coordinator}
use pika.Negotiate.{
  get_binlog_offset, get_binlog_offsets, find_logic_offset, find_index, search_file,
  find_logic_offset_by_searching_binlog, find_binlog_file_num, last_key, has_key,
}
use pika.Negotiate.Answer.{Answer, leader_negotiate, get_logs_before, reject_before}

-- Where an offset is returned with OK, it has that index.
HasIndex : ℕ → Option (Status × LogOffset) → Type 0
HasIndex target none = Unit
HasIndex target (some (s, o)) = is_ok s ≡ true → o.l_offset.index ≡ target

find_index_lem :
    (target : ℕ) (os : List LogOffset) (o : LogOffset)
    → find_index target os ≡ some o
    → o.l_offset.index ≡ target
unfolding find_index
find_index_lem target [] o e = ground (arith, e)
find_index_lem target (x ∷ os) o e = elim (Bool-cases (x.l_offset.index == target)) [
  | inl here ↦ ground (arith, here, e)
  | inr more ↦ find_index_lem target os o (ground (arith, more, e))
]

module _ (env : Env) (slash : Slash) (files rounds : ℕ) where
  search_file_index :
      (b : Binlog env) (target filenum : ℕ)
      → HasIndex target (search_file env slash files rounds b target filenum)
  unfolding search_file HasIndex
  search_file_index b target filenum =
      elim (Option-cases (
        get_binlog_offsets env slash files rounds b (record { filenum = filenum; offset = 0 })
          (record { filenum = (filenum + 1) % 2 ^ 32; offset = 0 }))) [
            | inl out ↦ rw (out, HasIndex, search_file) tt
            | inr ((s, os), e) ↦ elim (Bool-cases (is_ok s)) [
              | inl good ↦ elim (Option-cases (find_index target os)) [
                | inl absent ↦ rw (e, good, absent, HasIndex, search_file) (λ h. ground (arith, h))
                | inr (o, found) ↦
                    rw (e, good, found, HasIndex, search_file)
                      (λ h. find_index_lem target os o found)
              ]
              | inr bad ↦ rw (e, bad, HasIndex, search_file) (λ h. ground (arith, h, bad))
            ]
          ]

  searching_index :
      (binlogs : Option (List ℕ)) (b : Binlog env) (hint : BinlogOffset) (target : ℕ)
      → HasIndex target
          (find_logic_offset_by_searching_binlog env slash files rounds binlogs b hint target)
  unfolding find_logic_offset_by_searching_binlog HasIndex
  searching_index none b hint target = λ h. ground (arith, h)
  searching_index (some []) b hint target = λ h. ground (arith, h)
  searching_index (some (lb ∷ ns)) b hint target =
      let hb = last_key lb ns in
      let start = if has_key hint.filenum (lb ∷ ns) then hint.filenum else hb in
      let first = λ (n : ℕ).
        get_binlog_offset env slash files rounds b (record { filenum = n; offset = 0 }) in
      elim (Option-cases (find_binlog_file_num first lb hb target start)) [
        | inl out ↦ rw (out, HasIndex, find_logic_offset_by_searching_binlog) tt
        | inr ((s, n), e) ↦ elim (Bool-cases (is_ok s)) [
          | inl good ↦
              rw (e, good, HasIndex, find_logic_offset_by_searching_binlog)
                (search_file_index b target n)
          | inr bad ↦
              rw (e, bad, HasIndex, find_logic_offset_by_searching_binlog)
                (λ h. ground (arith, h, bad))
        ]
      ]

  find_logic_offset_index :
      (binlogs : Option (List ℕ)) (b : Binlog env) (start : BinlogOffset) (target : ℕ)
      → HasIndex target (find_logic_offset env slash files rounds binlogs b start target)
  unfolding find_logic_offset HasIndex
  find_logic_offset_index binlogs b start target =
      elim (Option-cases (get_binlog_offset env slash files rounds b start)) [
        | inl out ↦ rw (out, HasIndex, find_logic_offset) tt
        | inr ((s, o), e) ↦ elim (Bool-cases (not (is_ok s) || not (o.l_offset.index == target))) [
          | inl search ↦
              rw (e, search, HasIndex, find_logic_offset) (searching_index binlogs b start target)
          | inr exact ↦ rw (e, exact, HasIndex, find_logic_offset) (λ h. ground (arith, exact))
        ]
      ]

-- The answer that accepts.
abbrev pub accepted : Answer
accepted = record { status = ok; reject = false; hints = [] }

module _ (env : Env) (slash : Slash) (files rounds : ℕ) (Cmd : Type 0)
    (to_binlog : Cmd → BinlogItem → List ℕ) where
  accepted_offset :
      (binlogs : Option (List ℕ)) (b : Binlog env) (f_last : LogOffset) (s : Status) (o : LogOffset)
      → find_logic_offset env slash files rounds binlogs b f_last.b_offset f_last.l_offset.index
        ≡ some (s, o)
      → is_ok s ≡ true
      → (not (o.l_offset.term == f_last.l_offset.term)
          || not (BinlogOffset.eq f_last.b_offset o.b_offset))
        ≡ false
      → Path (Status × LogOffset) (s, o) (ok, f_last)
  unfolding BinlogOffset.eq HasIndex
  accepted_offset binlogs b f_last s o e good same =
      let at =
        find_logic_offset_index env slash files rounds binlogs b f_last.b_offset
          f_last.l_offset.index in
      let index = subst (HasIndex f_last.l_offset.index) e at good in
      ground (arith, good, same, index)

  reject_before_not :
      (binlogs : Option (List ℕ)) (b : Binlog env) (end : BinlogOffset)
      → ¬ (reject_before env slash files rounds binlogs b end ≡ some accepted)
  unfolding reject_before
  reject_before_not binlogs b end =
      elim (Option-cases (get_logs_before env slash files rounds binlogs b end)) [
        | inl out ↦ rw (out, reject_before) (λ h. ground (arith, h))
        | inr ((s, hints), e) ↦ rw (e, reject_before) (λ h. ground (arith, h))
      ]

  -- LeaderNegotiate accepts a follower exactly if the index of its last log lies between those of
  -- the first and the last log of the leader, and is 0 or FindLogicOffset finds in the leader's
  -- binlog that very log, with the same index, term and place.
  pub leader_negotiate-accepts :
      (binlogs : Option (List ℕ)) (c : Coordinator env Cmd to_binlog) (f_last : LogOffset)
      → (leader_negotiate env slash files rounds Cmd to_binlog binlogs c f_last ≡ some accepted) ↔ (
          (c.first_offset.l_offset.index ≤ f_last.l_offset.index)
          × (f_last.l_offset.index ≤ c.mem_logger.last_offset.l_offset.index)
          × ((f_last.l_offset.index ≡ 0)
              ⊎ (find_logic_offset env slash files rounds binlogs c.logger f_last.b_offset
                    f_last.l_offset.index
                  ≡ some (ok, f_last))))
  unfolding leader_negotiate BinlogOffset.eq
  leader_negotiate-accepts binlogs c f_last =
      let f_index = f_last.l_offset.index in
      let found =
        find_logic_offset env slash files rounds binlogs c.logger f_last.b_offset f_index in
      elim (Bool-cases (ltb c.mem_logger.last_offset.l_offset.index f_index)) [
        | inl above ↦
            rw (above, leader_negotiate)
              (
                λ h.
                    absurd (reject_before_not binlogs c.logger c.mem_logger.last_offset.b_offset h),
                λ h. ground (arith, above, h.1),
              )
        | inr le ↦ elim (Bool-cases (ltb f_index c.first_offset.l_offset.index)) [
          | inl below ↦
              rw (le, below, leader_negotiate)
                (λ h. ground (arith, h), λ h. ground (arith, below, h.0))
          | inr ge ↦ elim (Bool-cases (f_index == 0)) [
            | inl origin ↦
                rw (le, ge, origin, leader_negotiate)
                  (
                    λ h. (ground (arith, ge), ground (arith, le), inl (ground (arith, origin))),
                    λ h. refl,
                  )
            | inr later ↦ elim (Option-cases found) [
              | inl out ↦
                  rw (le, ge, later, out, leader_negotiate)
                    (λ h. ground (arith, h), λ h. ground (arith, later, h.2))
              | inr ((s, o), e) ↦ elim (Bool-cases (is_ok s)) [
                | inl good ↦
                    elim (Bool-cases (
                      not (o.l_offset.term == f_last.l_offset.term)
                      || not (BinlogOffset.eq f_last.b_offset o.b_offset))) [
                        | inl other ↦
                            rw (le, ge, later, e, good, other, leader_negotiate)
                              (
                                λ h. absurd (reject_before_not binlogs c.logger o.b_offset h),
                                λ h. ground (arith, later, other, h.2),
                              )
                        | inr same ↦
                            rw (le, ge, later, e, good, same, leader_negotiate)
                              (
                                λ h. (
                                  ground (arith, ge),
                                  ground (arith, le),
                                  inr (
                                      ap some
                                        (accepted_offset binlogs c.logger f_last s o e good same)),
                                ),
                                λ h. refl,
                              )
                      ]
                | inr bad ↦
                    rw (le, ge, later, e, bad, leader_negotiate)
                      (λ h. ground (arith, h), λ h. ground (arith, later, h.2, bad))
              ]
            ]
          ]
        ]
      ]
