-- ===== src/Binlog/Produce.antt =====
-- `Produce`: what a call that succeeds appends, against the format of `Layout`.
use pika.Prelude.{
  ℕ, zero, suc, ◌+◌, ◌-◌, ◌≤◌, ◌<◌, ◌≡◌, sym, subst, ◌∙◌, ap, refl, ◌⊎◌, inl, inr, Bool, true,
  false, List, [], ◌∷◌, ◌++◌, Option, some, arith, append_assoc, append-nil, ltb, length,
  length-append, length-replicate, length-take, length-drop, take, drop, take-append-drop,
  replicate, ◌^◌, Bool-cases, ◌&&◌, if◌then◌else◌,
}
use pika.Env.{Env, EnvLaws}
use pika.Status.{ok, is_ok}
use pika.Binlog.Header.{written_header}
use pika.Binlog.{
  Binlog, Step, block_size, header_size, record_header, fragment_type, to_int, write_record,
  emit_physical_record, fill_block, fragment_length, produce_fragment, produce_loop, produce,
}
use pika.Binlog.Layout.{Layout, fill, final, part}

take-length : (xs : List ℕ) → take (length xs) xs ≡ xs
take-length [] = refl
take-length (x ∷ xs) = rw (take-length xs)

drop-length : (xs : List ℕ) → drop (length xs) xs ≡ []
drop-length [] = refl
drop-length (x ∷ xs) = drop-length xs

module _ (env : Env) where
  -- A round of `produce_loop` behind its head.
  abbrev pub round_end : ℕ → (ℕ → ℕ) → Binlog env → List ℕ → Bool → ℕ → Option (Step env)
  round_end fuel clock b ptr begin t =
      let r = produce_fragment env b ptr begin (clock fuel) t in
      let left = drop (fragment_length env b (length ptr)) ptr in
      let again = produce_loop env fuel clock r.1 left false r.2 in
      if is_ok r.0 && ltb 0 (length left) then again else some r

  -- The round that writes what is left of the item.
  pub last_round :
      (fuel : ℕ) (clock : ℕ → ℕ) (b : Binlog env) (ptr : List ℕ) (begin : Bool) (t : ℕ)
      → b.block_offset + header_size + length ptr ≤ block_size
      → round_end fuel clock b ptr begin t
        ≡ some (emit_physical_record env b (fragment_type begin true) ptr (clock fuel) t)
  unfolding produce_fragment fragment_length
  last_round fuel clock b ptr begin t fits =
      let n : fragment_length env b (length ptr) ≡ length ptr = ground arith in
      rw (n, take-length ptr, drop-length ptr) (ground arith)

  -- The round that fills the block.
  pub part_round :
      (fuel : ℕ) (clock : ℕ → ℕ) (b : Binlog env) (ptr : List ℕ) (begin : Bool) (t n : ℕ)
      → b.block_offset + header_size + n ≡ block_size
      → n < length ptr
      → let r =
          emit_physical_record env b (fragment_type begin false) (take n ptr) (clock fuel) t in
        round_end fuel clock b ptr begin t
        ≡ (if is_ok r.0 then produce_loop env fuel clock r.1 (drop n ptr) false r.2 else some r)
  unfolding produce_fragment fragment_length
  part_round fuel clock b ptr begin t n fits more =
      let e : fragment_length env b (length ptr) ≡ n = ground arith in
      rw e (ground (arith, length-drop n ptr))

module _ (env : Env) (laws : EnvLaws env) where
  open env use {File, contents}

  contents-write_record :
      (queue : File) (header fragment : List ℕ)
      → (write_record env queue header fragment).0 ≡ ok
      → contents (write_record env queue header fragment).1 ≡ contents queue ++ (header ++ fragment)
  unfolding write_record
  contents-write_record queue header fragment h = ground (
    arith,
    laws.contents-append queue header,
    laws.contents-append (env.append queue header).1 fragment,
    laws.contents-flush (env.append (env.append queue header).1 fragment).1,
    append_assoc (contents queue) header fragment,
  )

  -- The log `b'` and the offset `t'` come from `b` and `t` by appending `out`.
  pub record Appends (b b' : Binlog env) (t t' : ℕ) (out : List ℕ) : Type 0 where
    pub written : contents b'.queue ≡ contents b.queue ++ out
    pub counted : t' ≡ to_int (t + length out)
    pub kept : b' ≡ record b { queue = b'.queue; block_offset = b'.block_offset }

  Appends-refl : (b : Binlog env) (t : ℕ) → t < 2 ^ 32 → Appends b b t t []
  unfolding to_int
  Appends-refl b t h = record { written = rw append-nil; counted = omega arith; kept = refl }

  Appends-trans :
      (b b1 b2 : Binlog env) (t t1 t2 : ℕ) (out1 out2 : List ℕ)
      → Appends b b1 t t1 out1
      → Appends b1 b2 t1 t2 out2
      → Appends b b2 t t2 (out1 ++ out2)
  unfolding to_int
  Appends-trans b b1 b2 t t1 t2 out1 out2 h k = record {
    written = k.written ∙ rw h.written (append_assoc (contents b.queue) out1 out2);
    counted = omega (arith, h.counted, k.counted, length-append out1 out2);
    kept =
        k.kept
        ∙ ap (λ (x : Binlog env). record x { queue = b2.queue; block_offset = b2.block_offset })
            h.kept;
  }

  emit_physical_record-Appends :
      (b : Binlog env) (type : ℕ) (fragment : List ℕ) (now t : ℕ)
      → (emit_physical_record env b type fragment now t).0 ≡ ok
      → Appends b
          (emit_physical_record env b type fragment now t).1
          t
          (emit_physical_record env b type fragment now t).2
          (record_header type (length fragment) now ++ fragment)
  unfolding emit_physical_record
  emit_physical_record-Appends b type fragment now t h = record {
    written = contents-write_record b.queue (record_header type (length fragment) now) fragment h;
    counted = unfold record_header in ground arith;
    kept = refl;
  }

  -- What the head of a round does when it succeeds.
  fill_block_cases :
      (b : Binlog env) (t : ℕ)
      → b.block_offset ≤ block_size
      → t < 2 ^ 32
      → (fill_block env b t).0 ≡ ok
      → ((block_size < b.block_offset + header_size)
          × Appends b
              (fill_block env b t).1
              t
              (fill_block env b t).2
              (replicate (block_size - b.block_offset) 0)
          × ((fill_block env b t).1.block_offset ≡ 0))
        ⊎ ((b.block_offset + header_size ≤ block_size) × (fill_block env b t ≡ (ok, b, t)))
  unfolding fill_block
  fill_block_cases b t le lt h = elim (Bool-cases (ltb (block_size - b.block_offset) header_size)) [
    | inr wide ↦ inr (ground arith, rw wide)
    | inl tight ↦ elim (Bool-cases (ltb 0 (block_size - b.block_offset))) [
      | inl open_tail ↦
          let zeros : List ℕ = replicate (block_size - b.block_offset) 0 in
          let filled : (env.append b.queue zeros).0 ≡ ok = ground arith in
          inl (
            ground arith,
            rw (tight, open_tail, filled)
                (record {
                  written = laws.contents-append b.queue zeros filled;
                  counted = rw (length-replicate {A = ℕ} (block_size - b.block_offset) 0);
                  kept = refl;
                }),
            rw (tight, open_tail, filled),
          )
      | inr full ↦
          let none_left : block_size - b.block_offset ≡ 0 = ground arith in
          inl (
            ground arith,
            rw (tight, full, none_left)
                (record {
                  written = rw append-nil;
                  counted = unfold to_int in omega arith;
                  kept = refl;
                }),
            rw (tight, full),
          )
    ]
  ]

  -- An item, or the rest of one, that was appended in the format.
  pub record Produced (b : Binlog env) (ptr : List ℕ) (begin : Bool) (t : ℕ) (b' : Binlog env)
      (t' : ℕ) : Type 0 where
    pub out : List ℕ
    pub layout : Layout b.block_offset begin ptr out b'.block_offset
    pub appends : Appends b b' t t' out
    pub in_block : b'.block_offset ≤ block_size

  abbrev LoopProduces : ℕ → (ℕ → ℕ) → Type 0
  LoopProduces fuel clock =
      (b : Binlog env) (ptr : List ℕ) (begin : Bool) (t : ℕ) (b' : Binlog env) (t' : ℕ)
      → b.block_offset ≤ block_size
      → t < 2 ^ 32
      → produce_loop env fuel clock b ptr begin t ≡ some (ok, b', t')
      → Produced b ptr begin t b' t'

  round_end-Produced :
      (fuel : ℕ) (clock : ℕ → ℕ)
      → LoopProduces fuel clock
      → (b : Binlog env) (ptr : List ℕ) (begin : Bool) (t : ℕ) (b' : Binlog env) (t' : ℕ)
      → b.block_offset + header_size ≤ block_size
      → t < 2 ^ 32
      → round_end env fuel clock b ptr begin t ≡ some (ok, b', t')
      → Produced b ptr begin t b' t'
  round_end-Produced fuel clock ih b ptr begin t b' t' fits lt h =
      elim (Bool-cases (ltb (block_size - b.block_offset - header_size) (length ptr))) [
        | inl long ↦
            let n = block_size - b.block_offset - header_size in
            let r =
              emit_physical_record env b (fragment_type begin false) (take n ptr) (clock fuel) t in
            let full : b.block_offset + header_size + n ≡ block_size = omega arith in
            let more : n < length ptr = ground arith in
            let step = part_round env fuel clock b ptr begin t n full more in
            let good : r.0 ≡ ok = ground arith in
            let taken : length (take n ptr) ≡ n = omega (arith, length-take n ptr) in
            let at_end : r.1.block_offset ≡ block_size =
              unfold emit_physical_record in omega (arith, taken) in
            let tail =
              ih r.1 (drop n ptr) false r.2 b' t' (omega arith)
                (unfold emit_physical_record to_int in omega arith) (ground arith) in
            record {
              out =
                  record_header (fragment_type begin false) (length (take n ptr)) (clock fuel)
                  ++ (take n ptr ++ tail.out);
              layout =
                  part b.block_offset begin ptr (take n ptr) (drop n ptr) (clock fuel) tail.out
                    (record_header (fragment_type begin false) (length (take n ptr)) (clock fuel)
                      ++ (take n ptr ++ tail.out))
                    b'.block_offset (omega (arith, taken)) (omega (arith, length-drop n ptr))
                    (sym (take-append-drop n ptr))
                    (subst (λ (o : ℕ). Layout o false (drop n ptr) tail.out b'.block_offset) at_end
                      tail.layout)
                    (ap (λ (h : List ℕ). h ++ (take n ptr ++ tail.out))
                      (written_header begin false (length (take n ptr)) (clock fuel)));
              appends = rw (← append_assoc) (
                  Appends-trans b r.1 b' t r.2 t'
                    (record_header (fragment_type begin false) (length (take n ptr)) (clock fuel)
                      ++ take n ptr)
                    tail.out
                    (emit_physical_record-Appends b (fragment_type begin false) (take n ptr)
                      (clock fuel) t good)
                    tail.appends);
              in_block = tail.in_block;
            }
        | inr short ↦
            let fits' : b.block_offset + header_size + length ptr ≤ block_size = ground arith in
            let r = emit_physical_record env b (fragment_type begin true) ptr (clock fuel) t in
            let done : r ≡ (ok, b', t') =
              ground (arith, last_round env fuel clock b ptr begin t fits') in
            let good : r.0 ≡ ok = ap (λ (x : Step env). x.0) done in
            let item : Produced b ptr begin t r.1 r.2 = record {
              out = record_header (fragment_type begin true) (length ptr) (clock fuel) ++ ptr;
              layout =
                  final b.block_offset begin ptr (clock fuel)
                    (record_header (fragment_type begin true) (length ptr) (clock fuel) ++ ptr)
                    r.1.block_offset fits'
                    (ap (λ (h : List ℕ). h ++ ptr)
                      (written_header begin true (length ptr) (clock fuel)))
                    (unfold emit_physical_record in omega arith);
              appends =
                  emit_physical_record-Appends b (fragment_type begin true) ptr (clock fuel) t good;
              in_block = unfold emit_physical_record in omega arith;
            } in
            subst (λ (x : Step env). Produced b ptr begin t x.1 x.2) done item
      ]

  produce_loop-Produced : (fuel : ℕ) (clock : ℕ → ℕ) → LoopProduces fuel clock
  unfolding produce_loop
  produce_loop-Produced zero clock b ptr begin t b' t' le lt h = cc
  produce_loop-Produced (suc fuel) clock b ptr begin t b' t' le lt h =
      let f = fill_block env b t in
      let filled : f.0 ≡ ok = ground arith in
      let rest : round_end env fuel clock f.1 ptr begin f.2 ≡ some (ok, b', t') = ground arith in
      elim (fill_block_cases b t le lt filled) [
        | inl (tight, zeros, at_start) ↦
            let item =
              round_end-Produced fuel clock (produce_loop-Produced fuel clock) f.1 ptr begin f.2 b'
                t' (omega (arith, at_start)) (unfold to_int in omega (arith, zeros.counted)) rest in
            record {
              out = replicate (block_size - b.block_offset) 0 ++ item.out;
              layout =
                  fill b.block_offset begin ptr item.out
                    (replicate (block_size - b.block_offset) 0 ++ item.out) b'.block_offset le tight
                    (subst (λ (o : ℕ). Layout o begin ptr item.out b'.block_offset) at_start
                      item.layout)
                    refl;
              appends =
                  Appends-trans b f.1 b' t f.2 t' (replicate (block_size - b.block_offset) 0)
                    item.out zeros item.appends;
              in_block = item.in_block;
            }
        | inr (fits, same) ↦
            round_end-Produced fuel clock (produce_loop-Produced fuel clock) b ptr begin t b' t'
              fits lt
              (subst
                (λ (x : Step env). round_end env fuel clock x.1 ptr begin x.2 ≡ some (ok, b', t'))
                same rest)
      ]

  -- A Produce that succeeds from a place inside a block appends to the file exactly one item in
  -- the log's format, moves the producer's offset by the length of what it appended, modulo 2^32,
  -- and changes nothing but the file and the place in its block.
  pub produce-Produced :
      (clock : ℕ → ℕ) (b : Binlog env) (item : List ℕ) (b' : Binlog env) (t' : ℕ)
      → b.block_offset ≤ block_size
      → produce env clock b item ≡ some (ok, b', t')
      → Produced b item true (to_int b.version.pro_offset) b' t'
  unfolding produce
  produce-Produced clock b item b' t' le h =
      produce_loop-Produced (length item + 2) clock b item true (to_int b.version.pro_offset) b' t'
        le (unfold to_int in omega arith) h
