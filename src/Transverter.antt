-- ===== src/Transverter.antt =====
-- `BinlogItem` and `PikaBinlogTransverter` of include/pika_binlog_transverter.h and
-- src/pika_binlog_transverter.cc, with the Redis protocol helpers of include/pika_command.h.
pub mod RoundTrip
pub mod Padding
use pika.Prelude.{
  ℕ, ◌+◌, ◌-◌, ◌%◌, ◌^◌, Bool, true, false, List, [], ◌∷◌, ◌++◌, ltb, ◌==◌, if◌then◌else◌, length,
  replicate, to_string, digits_loop,
}
use pika.Slash.{Slash}

-- `enum BinlogType`.
abbrev pub type_first : ℕ
type_first = 1

abbrev pub binlog_item_header_size : ℕ
binlog_item_header_size = 34

abbrev pub padding_binlog_protocol_size : ℕ
padding_binlog_protocol_size = 22

abbrev pub space_strore_parameter_length : ℕ
space_strore_parameter_length = 5

pub record BinlogItem : Type 0 where
  pub exec_time : ℕ
  pub term_id : ℕ
  pub logic_id : ℕ
  pub filenum : ℕ
  pub offset : ℕ
  pub content : List ℕ

abbrev pub empty_item : BinlogItem
empty_item = record {
  exec_time = 0;
  term_id = 0;
  logic_id = 0;
  filenum = 0;
  offset = 0;
  content = [];
}

abbrev pub new_line : List ℕ
new_line = 13 ∷ 10 ∷ []

unfoldable pub redis_append_content : List ℕ → List ℕ → List ℕ
redis_append_content str value = str ++ (value ++ new_line)

module _ (slash : Slash) where
  open slash use {put_fixed16, put_fixed32, put_fixed64, get_fixed16, get_fixed32, get_fixed64}

  unfoldable pub redis_append_len : List ℕ → ℕ → List ℕ → List ℕ
  redis_append_len str ori prefix = str ++ (prefix ++ (slash.ll2string ori ++ new_line))

  -- The `extends` argument is not used.
  unfoldable pub binlog_encode : ℕ → ℕ → ℕ → ℕ → ℕ → ℕ → List ℕ → List ℕ
  binlog_encode type exec_time term_id logic_id filenum offset content =
      let content_length = length content % 2 ^ 32 in
      put_fixed16 type
      ++ (put_fixed32 exec_time
          ++ (put_fixed32 term_id
              ++ (put_fixed64 logic_id
                  ++ (put_fixed32 filenum
                      ++ (put_fixed64 offset ++ (put_fixed32 content_length ++ content))))))

  -- The result and `*binlog_item` afterwards, from its value before.
  unfoldable pub binlog_decode : ℕ → List ℕ → BinlogItem → Bool × BinlogItem
  binlog_decode type binlog item =
      let (binlog_type, s1) = get_fixed16 binlog in
      let (exec_time, s2) = get_fixed32 s1 in
      let (term_id, s3) = get_fixed32 s2 in
      let (logic_id, s4) = get_fixed64 s3 in
      let (filenum, s5) = get_fixed32 s4 in
      let (offset, s6) = get_fixed64 s5 in
      let (content_length, s7) = get_fixed32 s6 in
      let read : BinlogItem = record {
        exec_time = exec_time;
        term_id = term_id;
        logic_id = logic_id;
        filenum = filenum;
        offset = offset;
        content = item.content;
      } in
      if binlog_type == type
      then (if length s7 == content_length
          then (true, record read { content = s7 })
          else (false, read))
      else (false, item)

  unfoldable pub binlog_item_without_content_decode : ℕ → List ℕ → BinlogItem → Bool × BinlogItem
  binlog_item_without_content_decode type binlog item =
      let (binlog_type, s1) = get_fixed16 binlog in
      let (exec_time, s2) = get_fixed32 s1 in
      let (term_id, s3) = get_fixed32 s2 in
      let (logic_id, s4) = get_fixed64 s3 in
      let (filenum, s5) = get_fixed32 s4 in
      let (offset, s6) = get_fixed64 s5 in
      if binlog_type == type
      then (
        true,
        record {
          exec_time = exec_time;
          term_id = term_id;
          logic_id = logic_id;
          filenum = filenum;
          offset = offset;
          content = item.content;
        },
      )
      else (false, item)

  -- `*2\r\n$7\r\npadding\r\n$`, the parameter's length on five places, and the parameter of stars.
  unfoldable pub padding_content : ℕ → List ℕ → List ℕ
  unfolding redis_append_len redis_append_content
  padding_content parameter_len parameter_len_str =
      let head =
        redis_append_content (redis_append_len (redis_append_len [] 2 (b'*' ∷ [])) 7 (b'$' ∷ []))
          (b'p' ∷ b'a' ∷ b'd' ∷ b'd' ∷ b'i' ∷ b'n' ∷ b'g' ∷ []) in
      redis_append_content
        (head
          ++ ((b'$' ∷ [])
              ++ (replicate (space_strore_parameter_length - length parameter_len_str) b'0'
                  ++ (parameter_len_str ++ new_line))))
        (replicate parameter_len b'*')

  -- `size` meets the asserts. A negative `parameter_len` is a total below 61.
  unfoldable pub construct_padding_binlog : ℕ → ℕ → List ℕ
  construct_padding_binlog type size =
      let content_len = size - binlog_item_header_size in
      let parameter_len =
        content_len - padding_binlog_protocol_size - space_strore_parameter_length in
      let parameter_len_str = to_string parameter_len in
      if ltb size
        (binlog_item_header_size + padding_binlog_protocol_size + space_strore_parameter_length)
      then []
      else if ltb space_strore_parameter_length (length parameter_len_str)
      then []
      else put_fixed16 type
        ++ (put_fixed32 0
            ++ (put_fixed32 0
                ++ (put_fixed64 0
                    ++ (put_fixed32 0
                        ++ (put_fixed64 0
                            ++ (put_fixed32 content_len
                                ++ padding_content parameter_len parameter_len_str))))))
