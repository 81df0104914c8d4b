-- ===== src/BinlogSeek/Stand.antt =====
-- Where a `Seek` leaves the reader, and that its loops end.
use pika.Prelude.{
  ℕ, zero, suc, ◌+◌, ◌-◌, ◌*◌, ◌/◌, ◌%◌, ◌≤◌, ◌<◌, ◌≡◌, ◌∙◌, refl, ap, subst, ◌⊎◌, inl, inr, true,
  false, List, [], ◌∷◌, some, arith, length, length-drop, drop, Bool-cases, ltb, leb,
}
use pika.Env.{Env, EnvLaws}
use pika.Status.{end_file, is_ok}
use pika.Binlog.{Binlog, header_size, block_size}
use pika.BinlogReader.{Cursor, header_length, header_type, find_file}
use pika.BinlogSeek.{
  Next, get_next_loop, get_next, Sought, seek_loop, seek_file, at_block, is_final, is_partial, seek,
}

drop_nil : (n : ℕ) → drop {A = ℕ} n [] ≡ []
drop_nil zero = refl
drop_nil (suc n) = refl

drop-drop : (m n : ℕ) (xs : List ℕ) → drop n (drop m xs) ≡ drop (m + n) xs
drop-drop zero n xs = let e : 0 + n ≡ n = omega arith in rw e refl
drop-drop (suc m) n [] = let e : suc m + n ≡ suc (m + n) = omega arith in rw e (drop_nil n)
drop-drop (suc m) n (x ∷ xs) =
    let e : suc m + n ≡ suc (m + n) = omega arith in rw e (drop-drop m n xs)

-- A record brings the loop of `Seek` nearer to its end.
closer :
    (block_offset res n fuel : ℕ)
    → leb block_offset res ≡ false
    → header_size ≤ n
    → block_offset - res < suc fuel
    → block_offset - (res + n) < fuel
closer block_offset res n fuel before long h =
    let below : res < block_offset = ground (arith, before) in omega (arith, below, long, h)

module _ (env : Env) (laws : EnvLaws env) where
  open env use {unread, contents}

  read_long :
      (c : Cursor env) (n : ℕ)
      → is_ok (env.read c.queue n).status ≡ true
      → n ≤ length (unread c.queue)
  read_long c n good = elim (Bool-cases (ltb (length (unread c.queue)) n)) [
    | inl short ↦
        let ended : (env.read c.queue n).status ≡ end_file =
          laws.read_short c.queue n (ground arith) in
        absurd (cc (ended, good))
    | inr long ↦ ground arith
  ]

  -- `GetNext` passes over a header at least, and over as much as it counts.
  abbrev Passed : Cursor env → ℕ → Next env → Type 0
  Passed c offset r =
      (n : ℕ) × (r.size ≡ offset + n)
      × (header_size ≤ n)
      × (unread r.cursor.queue ≡ drop n (unread c.queue))

  get_next_loop_lem :
      (fuel : ℕ) (c : Cursor env) (offset size : ℕ)
      → length (unread c.queue) < fuel
      → (r : Next env) × (get_next_loop env fuel c offset size ≡ some r)
        × (r.cursor.cur_filenum ≡ c.cur_filenum)
        × (r.cursor.cur_offset ≡ c.cur_offset)
        × ((r.is_error ≡ true) ⊎ Passed c offset r)
  unfolding get_next_loop
  get_next_loop_lem zero c offset size h = absurd (omega arith)
  get_next_loop_lem (suc fuel) c offset size h =
      let header = env.read c.queue header_size in
      let n = header_length header.slice in
      let type = header_type header.slice in
      let behind = record c { queue = (env.read header.next n).next } in
      let over : unread behind.queue ≡ drop (header_size + n) (unread c.queue) =
        laws.read_next header.next n
        ∙ ap (drop n) (laws.read_next c.queue header_size)
        ∙ drop-drop header_size n (unread c.queue) in
      elim (Bool-cases (is_ok header.status)) [
        | inr bad ↦ rw bad (_, refl, refl, refl, inl refl)
        | inl good ↦ elim (Bool-cases (ltb (block_size - header_size) n)) [
          | inl long ↦ rw (good, long) (_, refl, refl, refl, inl refl)
          | inr fits ↦ elim (Bool-cases (is_final type)) [
            | inl final ↦
                rw (good, fits, final)
                  (_, refl, refl, refl, inr (header_size + n, refl, omega arith, over))
            | inr more ↦ elim (Bool-cases (is_partial type)) [
              | inr other ↦ rw (good, fits, more, other) (_, refl, refl, refl, inl refl)
              | inl partial ↦
                  let less =
                    ap (length {A = ℕ}) over ∙ length-drop (header_size + n) (unread c.queue) in
                  let shorter : length (unread behind.queue) < fuel =
                    omega (arith, read_long c header_size good, less) in
                  let ih =
                    get_next_loop_lem fuel behind (offset + (header_size + n)) size shorter in
                  rw (good, fits, more, partial)
                    (
                      ih.0,
                      ih.1,
                      ih.2,
                      ih.3,
                      elim ih.4 [
                        | inl wrong ↦ inl wrong
                        | inr (k, counted, long, there) ↦ inr (
                          header_size + n + k,
                          counted ∙ omega arith,
                          omega arith,
                          there ∙ ap (drop k) over ∙ drop-drop (header_size + n) k (unread c.queue),
                        )
                      ],
                    )
            ]
          ]
        ]
      ]

  -- On the file `f`: a `Seek` that fails leaves the offset that it was given, one that does not has
  -- reached the offset and stands where it says.
  abbrev pub Stands : env.File → ℕ → ℕ → Sought env → Type 0
  Stands f given wanted s =
      ((s.failed ≡ true) × (s.cursor.cur_offset ≡ given))
      ⊎ (s.failed ≡ false)
        × (wanted ≤ s.cursor.cur_offset)
        × (unread s.cursor.queue ≡ drop s.cursor.cur_offset (contents f))

  seek_loop_lem :
      (f : env.File) (fuel : ℕ) (c : Cursor env) (start_block block_offset res : ℕ)
      → block_offset - res < fuel
      → unread c.queue ≡ drop (start_block + res) (contents f)
      → (s : Sought env) × (seek_loop env fuel c start_block block_offset res ≡ some s)
        × (s.cursor.cur_filenum ≡ c.cur_filenum)
        × Stands f c.cur_offset (start_block + block_offset) s
  unfolding seek_loop get_next
  seek_loop_lem f zero c start_block block_offset res h at_res = absurd (omega arith)
  seek_loop_lem f (suc fuel) c start_block block_offset res h at_res =
      elim (Bool-cases (leb block_offset res)) [
        | inl there ↦
            let reached : start_block + block_offset ≤ start_block + res = ground (arith, there) in
            rw (there, seek_loop) (_, refl, refl, inr (refl, reached, at_res))
        | inr before ↦
            let next = get_next_loop_lem (suc (length (unread c.queue))) c 0 0 (omega arith) in
            elim (Bool-cases next.0.is_error) [
              | inl bad ↦ rw (before, next.1, bad, seek_loop) (_, refl, next.2, inl (refl, next.3))
              | inr good ↦ elim next.4 [
                | inl wrong ↦ absurd (cc (good, wrong))
                | inr (n, counted, long, there) ↦
                    let size : next.0.size ≡ n = counted ∙ omega arith in
                    let place : start_block + res + n ≡ start_block + (res + next.0.size) =
                      omega (arith, size) in
                    let ih =
                      seek_loop_lem f fuel next.0.cursor start_block block_offset
                        (res + next.0.size) (rw size (closer block_offset res n fuel before long h))
                        (there
                          ∙ ap (drop n) at_res
                          ∙ drop-drop (start_block + res) n (contents f)
                          ∙ ap (λ (k : ℕ). drop k (contents f)) place) in
                    rw (before, next.1, good, seek_loop)
                      (
                        ih.0,
                        ih.1,
                        ih.2 ∙ next.2,
                        subst (λ (o : ℕ). Stands f o (start_block + block_offset) ih.0) next.3 ih.3,
                      )
              ]
            ]
      ]

  -- Seek in a file that is there ends, and keeps the number of the file. Either it fails, and the
  -- offset is the one asked for, or it does not, and the offset is not below the one asked for and
  -- what the reader reads next is the file from there on.
  pub seek-Stands :
      (b : Binlog env) (filenum offset : ℕ) (f : env.File)
      → find_file env b filenum ≡ some f
      → (s : Sought env) × (seek env b filenum offset ≡ some (some s))
        × (s.cursor.cur_filenum ≡ filenum)
        × Stands f offset offset s
  unfolding seek seek_file at_block
  seek-Stands b filenum offset f there =
      let start_block = offset / block_size * block_size in
      let whole : start_block + offset % block_size ≡ offset = omega arith in
      let start : start_block ≡ start_block + 0 = omega arith in
      let s =
        seek_loop_lem f (suc block_size) (at_block env f filenum offset) start_block
          (offset % block_size) 0 (omega arith)
          (laws.unread-skip (env.new_sequential_file f) start_block
            ∙ ap (drop start_block) (laws.unread_new f)
            ∙ ap (λ (k : ℕ). drop k (contents f)) start) in
      (s.0, rw (there, seek, s.1) refl, s.2, subst (λ (o : ℕ). Stands f offset o s.0) whole s.3)
