-- ===== src/Binlog/Place.antt =====
-- `Put`: the producer's place, as the manifest keeps it, against the file.
use pika.Prelude.{
  ℕ, ◌+◌, ◌-◌, ◌%◌, ◌^◌, ◌≤◌, ◌<◌, ◌≡◌, ◌∙◌, refl, sym, ap, inl, inr, Bool, true, false, List, ◌++◌,
  some, ltb, arith, length, length-append, length-replicate, replicate, Bool-cases, Option-cases,
}
use pika.Env.{Env, EnvLaws}
use pika.Status.{Status, ok}
use pika.BinlogOffset.{BinlogOffset}
use pika.BinlogOffset
use pika.BinlogOffset.Order
use pika.Binlog.Header.{length-header}
use pika.Binlog.{
  Binlog, Version, block_size, to_int, from_int, produce, roll, record_put, put, save_version,
  init_log_file,
}
use pika.Binlog.Layout.{header, tag, Layout, fill, final, part}
use pika.Binlog.Produce.{produce-Produced}

-- An item ends where the length of what was written says, and something was written.
Layout-place :
    (o : ℕ) (begin : Bool) (p out : List ℕ) (o' : ℕ)
    → Layout o begin p out o'
    → (o' % block_size ≡ (o + length out) % block_size) × (0 < length out)
Layout-place _ _ _ _ _ (fill o begin p rest out o' le tight l e) =
    let ih = Layout-place 0 begin p rest o' l in
    let sum : length out ≡ (block_size - o) + length rest =
      ap length e
      ∙ length-append (replicate (block_size - o) 0) rest
      ∙ ap (λ (n : ℕ). n + length rest) (length-replicate {A = ℕ} (block_size - o) 0) in
    omega (arith, ih, sum)
Layout-place _ _ _ _ _ (final o begin p now out o' fits eout eo) =
    let sum : length out ≡ 8 + length p =
      ap length eout
      ∙ length-append (header (tag begin true) (length p) now) p
      ∙ ap (λ (n : ℕ). n + length p) (length-header (tag begin true) (length p) now) in
    omega (arith, sum)
Layout-place _ _ _ _ _ (part o begin p p1 p2 now rest out o' fits longer ep l eout) =
    let ih = Layout-place block_size false p2 rest o' l in
    let sum : length out ≡ 8 + (length p1 + length rest) =
      ap length eout
      ∙ length-append (header (tag begin false) (length p1) now) (p1 ++ rest)
      ∙ rw (length-header (tag begin false) (length p1) now, length-append p1 rest) in
    omega (arith, ih, sum)

unfolded_place : (p n t : ℕ) → t ≡ to_int (to_int p + n) → t ≡ (p + n) % 2 ^ 32
unfolding to_int
unfolded_place p n t e = omega arith

module _ (env : Env) (laws : EnvLaws env) where
  abbrev pub size_of : Binlog env → ℕ
  size_of b = length (env.contents b.queue)

  abbrev pub place : Binlog env → BinlogOffset
  place b = record { filenum = b.version.pro_num; offset = b.version.pro_offset }

  -- The log is open, the manifest's place is the end of the file that is written, and the place in the block is that
  -- of the file's end, the end of a block being also the start of the next.
  pub record IsPlaced (b : Binlog env) : Type 0 where
    pub in_block : b.block_offset ≤ block_size
    pub aligned : b.block_offset % block_size ≡ size_of b % block_size
    pub counted : b.version.pro_offset ≡ size_of b
    pub numbered : b.version.pro_num ≡ b.pro_num
    pub is_open : b.opened ≡ true

  roll_cases :
      (b : Binlog env)
      → IsPlaced b
      → b.pro_num + 1 < 2 ^ 32
      → let b1 = roll env b in
        IsPlaced b1
        × (BinlogOffset.le (place b) (place b1) ≡ true)
        × (b1.version.logic_id ≡ b.version.logic_id)
        × (size_of b1 ≤ size_of b)
  unfolding roll save_version init_log_file BinlogOffset.le
  roll_cases b h few = elim (Bool-cases (ltb b.file_size (env.filesize b.queue))) [
    | inr fits ↦ rw fits (h, ground arith, refl, omega arith)
    | inl full ↦
        let empty : length (env.contents env.new_writable_file) ≡ 0 = rw (laws.contents_new) in
        let start : env.filesize env.new_writable_file ≡ 0 =
          laws.filesize-contents env.new_writable_file ∙ empty in
        rw (full, start)
          (
            record {
              in_block = omega arith;
              aligned = rw empty;
              counted = sym empty;
              numbered = refl;
              is_open = refl;
            },
            ground (arith, h.numbered),
            refl,
            omega (arith, empty),
          )
  ]

  same_number :
      (b b1 : Binlog env) → b1.version ≡ b.version → b1.version.pro_num ≡ b.version.pro_num
  same_number b b1 e = ap (λ (v : Version). v.pro_num) e

  record_put_status :
      (s : Status) (b1 : Binlog env) (t : ℕ) (b' : Binlog env)
      → record_put env (s, b1, t) ≡ (ok, b')
      → s ≡ ok
  unfolding record_put
  record_put_status s b1 t b' h = ground arith

  record_put_size : (b1 : Binlog env) (t : ℕ) → size_of b1 ≡ size_of (record_put env (ok, b1, t)).1
  unfolding record_put save_version
  record_put_size b1 t = refl

  -- What a successful `Produce` and the saving of its place leave.
  record_put-IsPlaced :
      (clock : ℕ → ℕ) (b : Binlog env) (item : List ℕ) (b1 : Binlog env) (t : ℕ)
      → IsPlaced b
      → size_of b < 2 ^ 31
      → produce env clock b item ≡ some (ok, b1, t)
      → size_of b1 < 2 ^ 31
      → let b' = (record_put env (ok, b1, t)).1 in
        IsPlaced b'
        × (BinlogOffset.lt (place b) (place b') ≡ true)
        × (b'.version.logic_id ≡ (b.version.logic_id + 1) % 2 ^ 64)
  unfolding record_put save_version BinlogOffset.lt
  record_put-IsPlaced clock b item b1 t h small e small1 =
      let w = produce-Produced env laws clock b item b1 t h.in_block e in
      let (at_end, more) = Layout-place b.block_offset true item w.out b1.block_offset w.layout in
      let sum : size_of b1 ≡ size_of b + length w.out =
        ap length w.appends.written ∙ length-append (env.contents b.queue) w.out in
      let end : from_int t ≡ size_of b1 =
        unfold from_int in
        ground (
          arith,
          unfolded_place b.version.pro_offset (length w.out) t w.appends.counted,
          h.counted,
          sum,
        ) in
      let same : b1.version ≡ b.version = ap (λ (x : Binlog env). x.version) w.appends.kept in
      let number : b1.pro_num ≡ b.pro_num = ap (λ (x : Binlog env). x.pro_num) w.appends.kept in
      (
        record {
          in_block = w.in_block;
          aligned = unfold save_version in omega (arith, at_end, sum, h.aligned);
          counted = end;
          numbered = unfold save_version in same_number b b1 same ∙ h.numbered ∙ sym number;
          is_open = ap (λ (x : Binlog env). x.opened) w.appends.kept ∙ h.is_open;
        },
        ground (arith, same_number b b1 same, end, sum, more, h.counted),
        rw same,
      )

  -- As long as a file is below 2^31 bytes and its number below 2^32 - 1, a Put that succeeds keeps
  -- the saved place at the end of the file that is written, moves it up, into the next file or
  -- not, and counts the item.
  pub put-IsPlaced :
      (clock : ℕ → ℕ) (b : Binlog env) (item : List ℕ) (b' : Binlog env)
      → IsPlaced b
      → size_of b < 2 ^ 31
      → b.pro_num + 1 < 2 ^ 32
      → put env clock b item ≡ some (ok, b')
      → size_of b' < 2 ^ 31
      → IsPlaced b'
        × (BinlogOffset.lt (place b) (place b') ≡ true)
        × (b'.version.logic_id ≡ (b.version.logic_id + 1) % 2 ^ 64)
  unfolding put
  put-IsPlaced clock b item b' h small few e small1 =
      let (placed, up, id, size) = roll_cases b h few in
      elim (Bool-cases b.opened) [
        | inr closed ↦ absurd (cc (rw closed at e))
        | inl opened ↦ elim (Option-cases (produce env clock (roll env b) item)) [
          | inl missing ↦ absurd (cc (rw (missing, opened) at e))
          | inr ((s, b1, t), made) ↦
              let put_eq : record_put env (s, b1, t) ≡ (ok, b') = cc (rw (made, opened) at e) in
              let good : s ≡ ok = record_put_status s b1 t b' put_eq in
              let made' : produce env clock (roll env b) item ≡ some (ok, b1, t) = made ∙ rw good in
              let b'_eq : (record_put env (ok, b1, t)).1 ≡ b' =
                ap (λ (r : Status × Binlog env). r.1) (rw good at put_eq) in
              let size' : size_of b1 ≡ size_of b' = record_put_size b1 t ∙ ap size_of b'_eq in
              let (placed', up', id') =
                record_put-IsPlaced clock (roll env b) item b1 t placed (omega (arith, size)) made'
                  (omega (arith, size')) in
              rw (← b'_eq) (
                placed',
                Order.le-lt_trans (place b) (place (roll env b))
                    (place (record_put env (ok, b1, t)).1) up up',
                id' ∙ rw id,
              )
        ]
      ]
