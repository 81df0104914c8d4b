-- ===== src/BinlogSeek.antt =====
-- `Seek` and `GetNext` of `PikaBinlogReader` in src/pika_binlog_reader.cc, by which a reader is put at
-- an offset of the log.
pub mod Stand
use pika.Prelude.{
  ℕ, zero, suc, ◌+◌, ◌-◌, ◌*◌, ◌/◌, ◌%◌, Bool, true, false, ◌||◌, not, List, Option, some, none,
  ltb, leb, ◌==◌, if◌then◌else◌, length,
}
use mathlib.Core.Option
use pika.Env.{Env}
use pika.RecordType
use pika.Status.{is_ok}
use pika.Binlog.{Binlog, block_size, header_size}
use pika.BinlogReader.{Cursor, header_type, header_length, find_file}

-- The types at which `GetNext` stops, and those at which it goes on.
abbrev pub is_final : ℕ → Bool
is_final type =
    (type == RecordType.full_type)
    || (type == RecordType.last_type)
    || (type == RecordType.bad_record)

abbrev pub is_partial : ℕ → Bool
is_partial type = (type == RecordType.first_type) || (type == RecordType.middle_type)

module _ (env : Env) where
  -- What `GetNext` returns: `is_error`, `*size` and the reader.
  pub record Next : Type 0 where
    pub is_error : Bool
    pub size : ℕ
    pub cursor : Cursor env

  -- The loop of `GetNext`, with `offset` so far and `*size` as it was. The status of a body is not
  -- looked at. `none` is no outcome of the code, it says that the fuel ran out.
  unfoldable pub get_next_loop : ℕ → Cursor env → ℕ → ℕ → Option Next
  get_next_loop zero c offset size = none
  get_next_loop (suc fuel) c offset size =
      let header = env.read c.queue header_size in
      let moved = record c { queue = header.next } in
      let type = header_type header.slice in
      let n = header_length header.slice in
      let behind = record c { queue = (env.read header.next n).next } in
      let rest = get_next_loop fuel behind (offset + (header_size + n)) size in
      if not (is_ok header.status)
      then some (record { is_error = true; size = size; cursor = moved })
      else if ltb (block_size - header_size) n
      then some (record { is_error = true; size = size; cursor = moved })
      else if is_final type
      then some (record { is_error = false; size = offset + (header_size + n); cursor = behind })
      else if is_partial type
      then rest
      else some (record { is_error = true; size = offset; cursor = moved })

  -- Every round takes a header from what the file still holds.
  unfoldable pub get_next : Cursor env → ℕ → Option Next
  get_next c size = get_next_loop (suc (length (env.unread c.queue))) c 0 size

  -- Whether `Seek` returned -1, and the reader.
  pub record Sought : Type 0 where
    pub failed : Bool
    pub cursor : Cursor env

  -- The loop of `Seek`.
  unfoldable pub seek_loop : ℕ → Cursor env → ℕ → ℕ → ℕ → Option Sought
  seek_loop zero c start_block block_offset res = none
  seek_loop (suc fuel) c start_block block_offset res =
      let found = record c {
        cur_offset = start_block + res;
        last_record_offset = (start_block + res) % block_size;
      } in
      elim (leb block_offset res) [
        | true ↦ some (record { failed = false; cursor = found })
        | false ↦ elim (get_next c 0) [
          | none ↦ none
          | some r ↦ elim r.is_error [
            | true ↦ some (record { failed = true; cursor = r.cursor })
            | false ↦ seek_loop fuel r.cursor start_block block_offset (res + r.size)
          ]
        ]
      ]

  -- The reader in front of the loop, on the file `f`.
  unfoldable pub at_block : env.File → ℕ → ℕ → Cursor env
  at_block f filenum offset = record {
    cur_filenum = filenum;
    cur_offset = offset;
    last_record_offset = filenum % block_size;
    queue = env.skip (env.new_sequential_file f) (offset / block_size * block_size);
  }

  unfoldable pub seek_file : env.File → ℕ → ℕ → Option Sought
  unfolding at_block
  seek_file f filenum offset =
      seek_loop (suc block_size) (at_block f filenum offset) (offset / block_size * block_size)
        (offset % block_size) 0

  -- `Seek` on a new reader: `none` inside is a file that is not there, where the reader stays as it
  -- was and -1 is returned.
  unfoldable pub seek : Binlog env → ℕ → ℕ → Option (Option Sought)
  seek b filenum offset = elim (find_file env b filenum) [
    | none ↦ some none
    | some f ↦ Option.map (λ (s : Sought). some s) (seek_file f filenum offset)
  ]
