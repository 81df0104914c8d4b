-- ===== src/Tests/Log.antt =====
-- The log's writer and reader on files in memory.
use pika.Prelude.{ℕ, ◌≡◌, refl, List, [], ◌∷◌, some, true, false, inl, arith}
use pika.Status.{ok}
use pika.Binlog.{
  Binlog, Step, produce, produce_loop, fill_block, produce_fragment, fragment_length,
  emit_physical_record, write_record, record_header, fragment_type, to_int,
}
use pika.LittleEndian.{to_bytes}
use pika.Binlog.Layout.{Layout, fill, final, part, header}
use pika.Binlog.Produce.{Produced, produce-Produced}
use pika.Binlog.Terminate.{produce_total}
use pika.BinlogReader.{Cursor, Consumed, consume}
use pika.BinlogReader.Terminate.{consume_total}
use pika.BinlogReader.RoundTrip.{consume-Layout, consume-produce}
use pika.BinlogReader.Tail.{ItemRead}
use pika.Tests.Files.{plain, plain-EnvLaws}

-- A writer ten bytes before the end of a block, of which the file in memory keeps only the tail.
abbrev pub near_end : Binlog plain
near_end = record {
  opened = true;
  version = record { pro_num = 3; pro_offset = 65526; logic_id = 8; term = 1 };
  manifest = [];
  queue = [];
  pro_num = 3;
  block_offset = 65526;
  file_size = 104857600;
  binlog_io_error = false;
  older = [];
}

abbrev pub item : List ℕ
item = 97 ∷ 98 ∷ 99 ∷ 100 ∷ 101 ∷ []

abbrev pub clock : ℕ → ℕ
clock fuel = 7

-- The item in two fragments: two bytes before the end of the block, three behind it.
abbrev fragments : List ℕ
fragments =
    2 ∷ 0 ∷ 0 ∷ 7 ∷ 0 ∷ 0 ∷ 0 ∷ 2 ∷ 97 ∷ 98 ∷ 3 ∷ 0 ∷ 0 ∷ 7 ∷ 0 ∷ 0 ∷ 0 ∷ 4 ∷ 99 ∷ 100 ∷ 101 ∷ []

abbrev pub written : Binlog plain
written = record near_end { queue = fragments; block_offset = 11 }

abbrev reader : Cursor plain
reader = record {
  cur_filenum = 3;
  cur_offset = 65526;
  last_record_offset = 65526;
  queue = fragments;
}

pub near_end-produce : produce plain clock near_end item ≡ some (ok, written, 65547)
unfolding produce produce_loop fill_block produce_fragment fragment_length emit_physical_record
    write_record record_header fragment_type to_int
near_end-produce = refl

-- A file in which a first fragment fills the block and a last one begins the next.
fragments-Layout : Layout 65526 true item fragments 11
unfolding header to_bytes
fragments-Layout =
    part 65526 true item (97 ∷ 98 ∷ []) (99 ∷ 100 ∷ 101 ∷ []) 7 _ fragments 11 refl (omega arith)
      refl
      (fill 65536 false (99 ∷ 100 ∷ 101 ∷ []) (3 ∷ 0 ∷ 0 ∷ 7 ∷ 0 ∷ 0 ∷ 0 ∷ 4 ∷ 99 ∷ 100 ∷ 101 ∷ [])
        (3 ∷ 0 ∷ 0 ∷ 7 ∷ 0 ∷ 0 ∷ 0 ∷ 4 ∷ 99 ∷ 100 ∷ 101 ∷ []) 11 (omega arith) (omega arith)
        (final 0 false (99 ∷ 100 ∷ 101 ∷ []) 7 (3 ∷ 0 ∷ 0 ∷ 7 ∷ 0 ∷ 0 ∷ 0 ∷ 4 ∷ 99 ∷ 100 ∷ 101 ∷ [])
          11 (omega arith) refl refl)
        refl)
      refl

produce-Produced_example : Produced plain plain-EnvLaws near_end item true 65526 written 65547
unfolding to_int
produce-Produced_example =
    produce-Produced plain plain-EnvLaws clock near_end item written 65547 (omega arith)
      near_end-produce

produce_total_example : (r : Step plain) × (produce plain clock near_end item ≡ some r)
produce_total_example = produce_total plain clock near_end item (omega arith)

consume-Layout_example :
    (r : Consumed plain) × (consume plain reader [] 0 0 ≡ some r)
    × ItemRead plain plain-EnvLaws reader [] item [] 11 21 r
consume-Layout_example =
    consume-Layout plain plain-EnvLaws reader 65526 11 item fragments [] 0 0 fragments-Layout
      (inl refl) refl (omega arith)

consume-produce_example :
    (r : Consumed plain) × (consume plain reader [] 0 0 ≡ some r)
    × (r.status ≡ ok)
    × (r.scratch ≡ item)
    × (r.cursor.queue ≡ [])
    × (r.cursor.last_record_offset ≡ 11)
consume-produce_example =
    consume-produce plain plain-EnvLaws clock near_end written 65547 item [] reader 0 0
      (omega arith) (omega arith) near_end-produce (inl refl) refl

consume_total_example : (r : Consumed plain) × (consume plain reader [] 0 0 ≡ some r)
consume_total_example = consume_total plain plain-EnvLaws reader [] 0 0
