-- ===== src/BinlogReader.antt =====
-- `PikaBinlogReader` of include/pika_binlog_reader.h and src/pika_binlog_reader.cc: the reader of the
-- log's files. The files come from a `Binlog`, as it is when the call is made.
pub mod SameFile
pub mod Errors
pub mod Terminate
pub mod Consume
pub mod Tail
pub mod Rounds
pub mod Fragments
pub mod RoundTrip
use pika.Prelude.{
  ℕ, zero, suc, ◌+◌, ◌-◌, ◌*◌, ◌%◌, ◌^◌, Bool, true, false, ◌&&◌, ◌||◌, not, List, [], ◌∷◌, ◌++◌,
  Option, some, none, ltb, leb, ◌==◌, if◌then◌else◌, length, get_or,
}
use pika.Env.{Env, ReadResult}
use pika.RecordType
use pika.Status.{Status, ok, io_error, corruption, end_file, is_ok, is_end_file}
use pika.Binlog.{Binlog, block_size, header_size, get_producer_status}

-- A `char` of the header, kept in an `unsigned int`: its sign is extended.
unfoldable pub char_to_uint : ℕ → ℕ
char_to_uint c = if ltb c 128 then c else c + 2 ^ 32 - 256

-- The type and the length that a header holds.
unfoldable pub header_type : List ℕ → ℕ
unfolding char_to_uint
header_type header = char_to_uint (get_or header 7 0)

unfoldable pub header_length : List ℕ → ℕ
header_length header = get_or header 0 0 + get_or header 1 0 * 256 + get_or header 2 0 * 65536

module _ (env : Env) where
  open env use {File, Reader}

  -- A reader that was sought.
  pub record Cursor : Type 0 where
    pub cur_filenum : ℕ
    pub cur_offset : ℕ
    pub last_record_offset : ℕ
    pub queue : Reader

  -- What one record gives: the returned type, `*result`, `*filenum`, `*offset` and the reader.
  pub record Physical : Type 0 where
    pub type : ℕ
    pub fragment : List ℕ
    pub filenum : ℕ
    pub offset : ℕ
    pub cursor : Cursor

  -- `kBlockSize - last_record_offset_`, a `size_t`.
  unfoldable pub block_left : Cursor → ℕ
  block_left c = (block_size + 2 ^ 64 - c.last_record_offset) % 2 ^ 64

  -- The head of `ReadPhysicalRecord`: a tail that holds no record is passed over.
  unfoldable pub skip_tail : Cursor → Cursor
  unfolding block_left
  skip_tail c =
      if leb (block_left c) header_size
      then record c {
        queue = env.skip c.queue (block_left c);
        cur_offset = (c.cur_offset + block_left c) % 2 ^ 64;
        last_record_offset = 0;
      }
      else c

  -- The body of a record, behind its header. The type is returned whatever the read says.
  unfoldable pub read_body : Cursor → ℕ → ℕ → ℕ → ℕ → Physical
  read_body c type n filenum offset =
      let body = env.read c.queue n in
      let end = (c.cur_offset + (header_size + n)) % 2 ^ 64 in
      let last = (c.last_record_offset + (header_size + n)) % 2 ^ 64 in
      let moved = record c { queue = body.next; last_record_offset = last } in
      if is_ok body.status
      then record {
        type = type;
        fragment = body.slice;
        filenum = c.cur_filenum;
        offset = end;
        cursor = record moved { cur_offset = end };
      }
      else record {
        type = type;
        fragment = body.slice;
        filenum = filenum;
        offset = offset;
        cursor = moved;
      }

  -- A return that leaves what the pointers hold.
  abbrev no_body : List ℕ → ℕ → ℕ → Cursor → ℕ → Physical
  no_body fragment filenum offset c type = record {
    type = type;
    fragment = fragment;
    filenum = filenum;
    offset = offset;
    cursor = c;
  }

  -- The rest of `ReadPhysicalRecord`; `fragment`, `filenum` and `offset` are what the pointers held.
  unfoldable pub read_record : Cursor → List ℕ → ℕ → ℕ → Physical
  unfolding read_body
  read_record c fragment filenum offset =
      let header = env.read c.queue header_size in
      let n = header_length header.slice in
      let type = header_type header.slice in
      let moved = record c { queue = header.next } in
      let return = no_body fragment filenum offset moved in
      if is_end_file header.status
      then return RecordType.eof
      else if not (is_ok header.status)
      then return RecordType.bad_record
      else if ltb (block_size - header_size) n
      then return RecordType.bad_record
      else if (type == RecordType.zero_type) || (n == 0)
      then return RecordType.old_record
      else read_body moved type n filenum offset

  unfoldable pub read_physical_record : Cursor → List ℕ → ℕ → ℕ → Physical
  read_physical_record c fragment filenum offset = read_record (skip_tail c) fragment filenum offset

  -- The status of `Consume` or `Get`, `*scratch`, `*filenum`, `*offset` and the reader.
  pub record Consumed : Type 0 where
    pub status : Status
    pub scratch : List ℕ
    pub filenum : ℕ
    pub offset : ℕ
    pub cursor : Cursor

  abbrev pub consumed : Status → List ℕ → Physical → Consumed
  consumed s scratch r = record {
    status = s;
    scratch = scratch;
    filenum = r.filenum;
    offset = r.offset;
    cursor = r.cursor;
  }

  -- The loop of `Consume`. `none` is no outcome of the code, it says that the fuel ran out.
  unfoldable pub consume_loop : ℕ → Cursor → List ℕ → List ℕ → ℕ → ℕ → Option Consumed
  consume_loop zero c scratch fragment filenum offset = none
  consume_loop (suc fuel) c scratch fragment filenum offset =
      let r = read_physical_record c fragment filenum offset in
      let first = consume_loop fuel r.cursor r.fragment r.fragment r.filenum r.offset in
      let middle =
        consume_loop fuel r.cursor (scratch ++ r.fragment) r.fragment r.filenum r.offset in
      if r.type == RecordType.full_type
      then some (consumed ok r.fragment r)
      else if r.type == RecordType.first_type
      then first
      else if r.type == RecordType.middle_type
      then middle
      else if r.type == RecordType.last_type
      then some (consumed ok (scratch ++ r.fragment) r)
      else if r.type == RecordType.eof
      then some (consumed end_file scratch r)
      else if r.type == RecordType.bad_record
      then some (consumed io_error scratch r)
      else if r.type == RecordType.old_record
      then some (consumed end_file scratch r)
      else some (consumed io_error scratch r)

  -- Every round that goes on takes a header at least from what the file still holds.
  unfoldable pub consume : Cursor → List ℕ → ℕ → ℕ → Option Consumed
  consume c scratch filenum offset =
      consume_loop (suc (length (env.unread c.queue))) c scratch [] filenum offset

  -- `slash::FileExists` and the file of that number, of those that the log holds.
  unfoldable pub find_older : ℕ → List (ℕ × File) → Option File
  find_older n [] = none
  find_older n ((m, f) ∷ fs) = if m == n then some f else find_older n fs

  unfoldable pub find_file : Binlog env → ℕ → Option File
  unfolding find_older
  find_file b n = if b.pro_num == n then some b.queue else find_older n b.older

  -- On a log that is closed the code compares with variables that were never set; here with 0.
  unfoldable pub read_to_the_end : Binlog env → Cursor → Bool
  read_to_the_end b c =
      let v = (get_producer_status env b).1 in
      (v.pro_num == c.cur_filenum) && (v.pro_offset == c.cur_offset)

  abbrev stopped : Status → List ℕ → ℕ → ℕ → Cursor → Consumed
  stopped s scratch filenum offset c = record {
    status = s;
    scratch = scratch;
    filenum = filenum;
    offset = offset;
    cursor = c;
  }

  -- The reader on the next file.
  unfoldable pub roll_to : Cursor → File → Cursor
  roll_to c f = record c {
    cur_filenum = (c.cur_filenum + 1) % 2 ^ 32;
    cur_offset = 0;
    last_record_offset = 0;
    queue = env.new_sequential_file f;
  }

  -- The loop of `Get`: a round for each file, until an item is there or there is no next file. What
  -- `Consume` reports other than the end of the file is not passed on.
  unfoldable pub get_loop : ℕ → Binlog env → Cursor → List ℕ → ℕ → ℕ → Option Consumed
  get_loop zero b c scratch filenum offset = none
  get_loop (suc fuel) b c scratch filenum offset = elim (read_to_the_end b c) [
    | true ↦ some (stopped end_file scratch filenum offset c)
    | false ↦ elim (consume c scratch filenum offset) [
      | none ↦ none
      | some r ↦ elim (is_end_file r.status) [
        | false ↦ some (stopped ok r.scratch r.filenum r.offset r.cursor)
        | true ↦ elim (find_file b ((r.cursor.cur_filenum + 1) % 2 ^ 32)) [
          | none ↦ some (stopped io_error r.scratch r.filenum r.offset r.cursor)
          | some f ↦ get_loop fuel b (roll_to r.cursor f) r.scratch r.filenum r.offset
        ]
      ]
    ]
  ]

  -- `Get` on a reader that was sought; on another it returns `Corruption`.
  unfoldable pub get : ℕ → Binlog env → Cursor → ℕ → ℕ → Option Consumed
  get files b c filenum offset = get_loop files b c [] filenum offset
