-- ===== src/Transverter/RoundTrip.antt =====
-- The two decoders on what `BinlogEncode` wrote.
use pika.Prelude.{
  ◌==◌, if◌then◌else◌, ◌%◌, ℕ, ◌^◌, ◌+◌, ◌<◌, ◌≡◌, ◌≢◌, true, false, List, ◌++◌, arith, length,
  length-append,
}
use pika.Slash.{Slash, SlashLaws}
use pika.Transverter.{BinlogItem, binlog_encode, binlog_decode, binlog_item_without_content_decode}

-- The fields of an item fit their machine words.
pub record IsWords (item : BinlogItem) : Type 0 where
  pub exec_time : item.exec_time < 2 ^ 32
  pub term_id : item.term_id < 2 ^ 32
  pub logic_id : item.logic_id < 2 ^ 64
  pub filenum : item.filenum < 2 ^ 32
  pub offset : item.offset < 2 ^ 64
  pub content : length item.content < 2 ^ 32

module _ (slash : Slash) (laws : SlashLaws slash) where
  -- `binlog_encode` on the fields of an item.
  abbrev pub encode_item : ℕ → BinlogItem → List ℕ
  encode_item type x =
      binlog_encode slash type x.exec_time x.term_id x.logic_id x.filenum x.offset x.content

  pub length-binlog_encode :
      (type : ℕ) (x : BinlogItem) → length (encode_item type x) ≡ 34 + length x.content
  unfolding binlog_encode
  length-binlog_encode type x =
      simp (length-append, laws.length16, laws.length32, laws.length64) (omega arith)

  -- What each `GetFixed` of the decoders finds in an encoded item that `extra` follows.
  module _ (type : ℕ) (x : BinlogItem) (ht : type < 2 ^ 16) (w : IsWords x) where
    get_type : (r : List ℕ) → slash.get_fixed16 (slash.put_fixed16 type ++ r) ≡ (type, r)
    get_type r = laws.get_put16 type r ht

    get_exec_time :
        (r : List ℕ) → slash.get_fixed32 (slash.put_fixed32 x.exec_time ++ r) ≡ (x.exec_time, r)
    get_exec_time r = laws.get_put32 x.exec_time r w.exec_time

    get_term_id :
        (r : List ℕ) → slash.get_fixed32 (slash.put_fixed32 x.term_id ++ r) ≡ (x.term_id, r)
    get_term_id r = laws.get_put32 x.term_id r w.term_id

    get_logic_id :
        (r : List ℕ) → slash.get_fixed64 (slash.put_fixed64 x.logic_id ++ r) ≡ (x.logic_id, r)
    get_logic_id r = laws.get_put64 x.logic_id r w.logic_id

    get_filenum :
        (r : List ℕ) → slash.get_fixed32 (slash.put_fixed32 x.filenum ++ r) ≡ (x.filenum, r)
    get_filenum r = laws.get_put32 x.filenum r w.filenum

    get_offset : (r : List ℕ) → slash.get_fixed64 (slash.put_fixed64 x.offset ++ r) ≡ (x.offset, r)
    get_offset r = laws.get_put64 x.offset r w.offset

    get_length :
        (r : List ℕ)
        → slash.get_fixed32 (slash.put_fixed32 (length x.content % 2 ^ 32) ++ r)
          ≡ (length x.content % 2 ^ 32, r)
    get_length r = laws.get_put32 (length x.content % 2 ^ 32) r (omega arith)

  -- The 34 bytes in front of the content.
  abbrev pub header : ℕ → BinlogItem → List ℕ → List ℕ
  header type x body =
      slash.put_fixed16 type
      ++ (slash.put_fixed32 x.exec_time
          ++ (slash.put_fixed32 x.term_id
              ++ (slash.put_fixed64 x.logic_id
                  ++ (slash.put_fixed32 x.filenum
                      ++ (slash.put_fixed64 x.offset
                          ++ (slash.put_fixed32 (length x.content % 2 ^ 32) ++ body))))))

  -- `binlog_decode` behind the header of `x`: the body must have the length that the header says.
  decode-header :
      (type : ℕ) (x before : BinlogItem) (body : List ℕ)
      → type < 2 ^ 16
      → IsWords x
      → binlog_decode slash type (header type x body) before ≡ (
          if length body == length x.content
          then (true, record x { content = body })
          else (false, record x { content = before.content }))
  unfolding binlog_decode
  decode-header type x before body ht w =
      simp
        (
          get_type type x ht w,
          get_exec_time type x ht w,
          get_term_id type x ht w,
          get_logic_id type x ht w,
          get_filenum type x ht w,
          get_offset type x ht w,
          get_length type x ht w,
        )
        (ground (arith, w.content))

  -- BinlogDecode reads back every item whose fields fit their words and that BinlogEncode wrote
  -- under the same 16-bit type.
  pub decode-encode :
      (type : ℕ) (x before : BinlogItem)
      → type < 2 ^ 16
      → IsWords x
      → binlog_decode slash type (encode_item type x) before ≡ (true, x)
  unfolding binlog_encode
  decode-encode type x before ht w = ground (arith, decode-header type x before x.content ht w)

  -- Behind the header of such an item, a body of another length than the header says makes
  -- BinlogDecode fail, with the attributes set and the content left alone.
  pub decode_wrong_length :
      (type : ℕ) (x before : BinlogItem) (body : List ℕ)
      → type < 2 ^ 16
      → IsWords x
      → length body ≢ length x.content
      → binlog_decode slash type (header type x body) before
        ≡ (false, record x { content = before.content })
  decode_wrong_length type x before body ht w ne =
      ground (arith, decode-header type x before body ht w)

  -- An item that was encoded under another 16-bit type is refused by both decoders without a
  -- change.
  pub decode_wrong_type :
      (type expected : ℕ) (x before : BinlogItem)
      → type < 2 ^ 16
      → type ≢ expected
      → (binlog_decode slash expected (encode_item type x) before ≡ (false, before))
        × (binlog_item_without_content_decode slash expected (encode_item type x) before
            ≡ (false, before))
  unfolding binlog_decode binlog_item_without_content_decode binlog_encode
  decode_wrong_type type expected x before ht ne =
      let taken = λ (r : List ℕ). laws.get_put16 type r ht in
      (simp taken (ground arith), simp taken (ground arith))

  -- BinlogItemWithoutContentDecode reads the attributes behind which any body stands, and leaves
  -- the content alone.
  pub without_content-header :
      (type : ℕ) (x before : BinlogItem) (body : List ℕ)
      → type < 2 ^ 16
      → IsWords x
      → binlog_item_without_content_decode slash type (header type x body) before
        ≡ (true, record x { content = before.content })
  unfolding binlog_item_without_content_decode
  without_content-header type x before body ht w =
      simp
        (
          get_type type x ht w,
          get_exec_time type x ht w,
          get_term_id type x ht w,
          get_logic_id type x ht w,
          get_filenum type x ht w,
          get_offset type x ht w,
        )
        (ground arith)
