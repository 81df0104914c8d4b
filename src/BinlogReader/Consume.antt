-- ===== src/BinlogReader/Consume.antt =====
-- One record of the log's format, as `read_physical_record` and `consume` take it.
use pika.Prelude.{
  ℕ, zero, suc, ◌+◌, ◌-◌, ◌%◌, ◌^◌, ◌≤◌, ◌<◌, ◌≡◌, ◌∙◌, refl, false, List, [], ◌∷◌, ◌++◌, arith,
  length, length-append, take, drop, ltb, ◌==◌, ◌||◌,
}
use pika.LittleEndian.{to_bytes}
use pika.Env.{Env, EnvLaws}
use pika.Status.{ok}
use pika.Binlog.Layout.{header}
use pika.Binlog.Header.{length-header}
use pika.Binlog.{block_size, header_size}
use pika.BinlogReader.{Cursor, Physical, header_type, header_length, read_record}

take-append : (n : ℕ) (xs ys : List ℕ) → length xs ≡ n → take n (xs ++ ys) ≡ xs
take-append zero [] ys h = refl
take-append zero (x ∷ xs) ys h = absurd (omega arith)
take-append (suc n) [] ys h = absurd (omega arith)
take-append (suc n) (x ∷ xs) ys h = rw (take-append n xs ys (omega arith))

pub drop-append : (n : ℕ) (xs ys : List ℕ) → length xs ≡ n → drop n (xs ++ ys) ≡ ys
drop-append zero [] ys h = refl
drop-append zero (x ∷ xs) ys h = absurd (omega arith)
drop-append (suc n) [] ys h = absurd (omega arith)
drop-append (suc n) (x ∷ xs) ys h = drop-append n xs ys (omega arith)

-- A header is read back for a length below three bytes and a type below 128.
header_length-header : (type n now : ℕ) → n < 16777216 → header_length (header type n now) ≡ n
unfolding header_length header to_bytes
header_length-header type n now h = omega arith

header_type-header : (type n now : ℕ) → type < 128 → header_type (header type n now) ≡ type
unfolding header_type header to_bytes
header_type-header type n now h = ground arith

module _ (env : Env) (laws : EnvLaws env) where
  open env use {unread}

  -- A read of as much as lies ahead.
  read_ahead :
      (c : env.Reader) (xs ys : List ℕ) (n : ℕ)
      → unread c ≡ xs ++ ys
      → length xs ≡ n
      → ((env.read c n).status ≡ ok)
        × ((env.read c n).slice ≡ xs)
        × (unread (env.read c n).next ≡ ys)
  read_ahead c xs ys n h e = (
    laws.read_status c n (rw h (omega (arith, length-append xs ys))),
    laws.read_slice c n ∙ rw h (take-append n xs ys e),
    laws.read_next c n ∙ rw h (drop-append n xs ys e),
  )

  -- What a record that was read leaves.
  pub record ReadOk (c : Cursor env) (type : ℕ) (p more : List ℕ) (r : Physical env) : Type 0 where
    pub type_read : r.type ≡ type
    pub fragment_read : r.fragment ≡ p
    pub filenum_read : r.filenum ≡ c.cur_filenum
    pub offset_read : r.offset ≡ r.cursor.cur_offset
    pub filenum_kept : r.cursor.cur_filenum ≡ c.cur_filenum
    pub offset_moved : r.cursor.cur_offset ≡ (c.cur_offset + (header_size + length p)) % 2 ^ 64
    pub place_moved :
        r.cursor.last_record_offset ≡ (c.last_record_offset + (header_size + length p)) % 2 ^ 64
    pub rest_left : unread r.cursor.queue ≡ more

  pub read_record-ReadOk :
      (c : Cursor env) (type now : ℕ) (p more fragment : List ℕ) (filenum offset : ℕ)
      → 0 < type
      → type < 128
      → 0 < length p
      → header_size + length p ≤ block_size
      → unread c.queue ≡ header type (length p) now ++ (p ++ more)
      → ReadOk c type p more (read_record env c fragment filenum offset)
  unfolding read_record
  read_record-ReadOk c type now p more fragment filenum offset ht ht' hp fits h =
      let (s1, d1, u1) =
        read_ahead c.queue (header type (length p) now) (p ++ more) header_size h
          (length-header type (length p) now) in
      let (s2, d2, u2) = read_ahead (env.read c.queue header_size).next p more (length p) u1 refl in
      let len = header_length-header type (length p) now (omega arith) in
      let typ = header_type-header type (length p) now ht' in
      let fits' : ltb (block_size - header_size) (length p) ≡ false = ground arith in
      let holds : (type == 0) || (length p == 0) ≡ false = ground arith in
      rw (s1, d1, len, typ, fits', holds, s2)
        (record {
          type_read = refl;
          fragment_read = d2;
          filenum_read = refl;
          offset_read = refl;
          filenum_kept = refl;
          offset_moved = refl;
          place_moved = refl;
          rest_left = u2;
        })
