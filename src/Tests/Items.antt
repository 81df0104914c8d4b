-- ===== src/Tests/Items.antt =====
-- Log items in their binary form.
use pika.Prelude.{◌≡◌, [], ◌∷◌, true, arith}
use pika.LogOffset.{LogOffset}
use pika.Context.{Context}
use pika.Context.Saved
use pika.Context.Saved.{load-stable_save, init-reset}
use pika.SyncWindow.{empty_window}
use pika.Transverter.{BinlogItem, empty_item, binlog_decode, type_first}
use pika.Transverter.RoundTrip
use pika.Transverter.RoundTrip.{
  encode_item, header, decode-encode, decode_wrong_length, decode_wrong_type,
  without_content-header,
}
use pika.Tests.Files.{coding, coding-SlashLaws}

abbrev set_item : BinlogItem
set_item = record {
  exec_time = 1600000000;
  term_id = 2;
  logic_id = 77;
  filenum = 3;
  offset = 65526;
  content = 42 ∷ 51 ∷ 13 ∷ 10 ∷ [];
}

set_item-IsWords : RoundTrip.IsWords set_item
set_item-IsWords = record {
  exec_time = omega arith;
  term_id = omega arith;
  logic_id = omega arith;
  filenum = omega arith;
  offset = omega arith;
  content = omega arith;
}

decode-encode_example :
    binlog_decode coding type_first
      (encode_item coding coding-SlashLaws type_first set_item)
      empty_item
    ≡ (true, set_item)
decode-encode_example =
    decode-encode coding coding-SlashLaws type_first set_item empty_item (omega arith)
      set_item-IsWords

abbrev applied : LogOffset
applied = record {
  b_offset = record { filenum = 3; offset = 65547 };
  l_offset = record { term = 2; index = 78 };
}

applied-IsWords : Saved.IsWords applied
applied-IsWords = record {
  filenum = omega arith;
  offset = omega arith;
  term = omega arith;
  index = omega arith;
}

abbrev fresh : Context
fresh = record {
  applied_index = record applied { b_offset = record { filenum = 1; offset = 9 } };
  applied_win = empty_window;
  mapped = [];
}
