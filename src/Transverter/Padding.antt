-- ===== src/Transverter/Padding.antt =====
-- `ConstructPaddingBinlog`: the size and the content of the padding item.
use pika.Prelude.{
  ℕ, zero, suc, ◌+◌, ◌-◌, ◌/◌, ◌%◌, ◌^◌, ◌≤◌, ◌<◌, ◌≡◌, ◌∙◌, true, List, [], ◌∷◌, arith, length,
  length-append, length-replicate, to_string, digits_loop,
}
use native.Mathlib.Nat.{pow-suc}
use pika.Slash.{Slash, SlashLaws}
use pika.Transverter.{
  BinlogItem, padding_content, construct_padding_binlog, binlog_encode, binlog_decode, empty_item,
}
use pika.Transverter.RoundTrip.{length-binlog_encode, decode-encode}

length-digits_loop : (fuel k n : ℕ) → n < 10 ^ suc k → length (digits_loop fuel n) ≤ suc k
unfolding digits_loop
length-digits_loop zero k n h = omega arith
length-digits_loop (suc fuel) zero n h = ground arith
length-digits_loop (suc fuel) (suc k) n h = ground (
  arith,
  pow-suc 10 (suc k),
  length-digits_loop fuel k (n / 10),
  length-append (digits_loop fuel (n / 10)) ((n % 10 + 48) ∷ []),
)

length-to_string : (n : ℕ) → n < 100000 → length (to_string n) ≤ 5
unfolding to_string
length-to_string n h = length-digits_loop 20 4 n h

mod_word : (n : ℕ) → n < 65536 → n % 2 ^ 32 ≡ n
mod_word n h = omega arith

module _ (slash : Slash) (laws : SlashLaws slash) where
  length-padding_content :
      (n : ℕ) (digits : List ℕ)
      → length digits ≤ 5
      → length (padding_content slash n digits) ≡ 27 + n
  unfolding padding_content
  length-padding_content n digits h =
      simp (laws.digit 2 (omega arith), laws.digit 7 (omega arith), length-append, length-replicate)
        (omega arith)

  -- From 61 bytes to a whole block, the padding item is an encoded item with all attributes 0.
  construct_padding_binlog-encode :
      (type size : ℕ)
      → 61 ≤ size
      → size ≤ 65528
      → (content : List ℕ) × (construct_padding_binlog slash type size
          ≡ binlog_encode slash type 0 0 0 0 0 content)
        × (length content ≡ size - 34)
  unfolding construct_padding_binlog binlog_encode
  construct_padding_binlog-encode type size h k =
      let n = size - 34 - 22 - 5 in
      let digits = to_string n in
      let small : length digits ≤ 5 = length-to_string n (omega arith) in
      let len = length-padding_content n digits small in
      (
        padding_content slash n digits,
        rw (len) (ground (arith, small, mod_word (size - 34) (omega arith))),
        omega (arith, len),
      )

  -- For every size from 61 to 65528 bytes the padding item has that size and decodes, under its
  -- 16-bit type, to an item with all attributes 0 and 34 bytes less of content.
  pub construct_padding_binlog_lem :
      (type size : ℕ) (before : BinlogItem)
      → type < 2 ^ 16
      → 61 ≤ size
      → size ≤ 65528
      → (content : List ℕ) × (length (construct_padding_binlog slash type size) ≡ size)
        × (length content ≡ size - 34)
        × (binlog_decode slash type (construct_padding_binlog slash type size) before
            ≡ (true, record empty_item { content = content }))
  construct_padding_binlog_lem type size before ht h k =
      let (content, e, len) = construct_padding_binlog-encode type size h k in
      let item : BinlogItem = record empty_item { content = content } in
      (
        content,
        rw e (length-binlog_encode slash laws type item ∙ omega (arith, len)),
        len,
        rw e (
            decode-encode slash laws type item before ht (record {
              exec_time = omega arith;
              term_id = omega arith;
              logic_id = omega arith;
              filenum = omega arith;
              offset = omega arith;
              content = omega (arith, len);
            })),
      )
