-- ===== src/Binlog.antt =====
-- `Version` and `Binlog` of include/pika_binlog.h and src/pika_binlog.cc: the writer of the log.
pub mod Layout
pub mod Header
pub mod Produce
pub mod Terminate
pub mod Manifest
pub mod Place
use pika.Prelude.{
  ℕ, zero, suc, ◌+◌, ◌*◌, ◌-◌, ◌/◌, ◌%◌, ◌^◌, Bool, true, false, ◌&&◌, not, List, [], ◌∷◌, ◌++◌,
  Option, some, none, ltb, ◌==◌, if◌then◌else◌, length, take, drop, replicate,
}
use mathlib.Core.Option
use pika.Env.{Env}
use pika.LittleEndian.{to_bytes, from_bytes}
use pika.RecordType
use pika.Status.{Status, ok, busy, is_ok}

abbrev pub block_size : ℕ
block_size = 64 * 1024

abbrev pub header_size : ℕ
header_size = 1 + 3 + 4

-- The four members of `Version` that the manifest keeps.
pub record Version : Type 0 where
  pub pro_num : ℕ
  pub pro_offset : ℕ
  pub logic_id : ℕ
  pub term : ℕ

-- `Version::StableSave` copies the members over the front of the mapped manifest.
unfoldable pub stable_save : Version → List ℕ → List ℕ
stable_save v mapped =
    to_bytes 4 v.pro_num
    ++ (to_bytes 8 v.pro_offset ++ (to_bytes 8 v.logic_id ++ (to_bytes 4 v.term ++ drop 24 mapped)))

-- `Version::Init` on a mapped manifest.
unfoldable pub init_version : List ℕ → Version
init_version mapped = record {
  pro_num = (from_bytes 4 mapped).0;
  pro_offset = (from_bytes 8 (drop 4 mapped)).0;
  logic_id = (from_bytes 8 (drop 12 mapped)).0;
  term = (from_bytes 4 (drop 20 mapped)).0;
}

-- A `uint64_t` kept in an `int`, as its 32 bits, and an `int` widened back, its sign extended.
unfoldable pub to_int : ℕ → ℕ
to_int x = x % 2 ^ 32

unfoldable pub from_int : ℕ → ℕ
from_int p = if ltb p (2 ^ 31) then p else p + 2 ^ 64 - 2 ^ 32

-- The 8 bytes in front of a fragment: its length on three bytes, the time on four, and its type.
unfoldable pub record_header : ℕ → ℕ → ℕ → List ℕ
record_header type n now =
    (n % 256)
    ∷ (n / 256 % 256)
    ∷ (n / 65536 % 256)
    ∷ (now % 256)
    ∷ (now / 256 % 256)
    ∷ (now / 65536 % 256)
    ∷ (now / 16777216 % 256)
    ∷ (type % 256)
    ∷ []

unfoldable pub fragment_type : Bool → Bool → ℕ
fragment_type begin end =
    if begin && end
    then RecordType.full_type
    else if begin
    then RecordType.first_type
    else if end
    then RecordType.last_type
    else RecordType.middle_type

module _ (env : Env) where
  open env use {File}

  -- `queue` is the file `pro_num`; `older` holds the files that were rolled, the newest first.
  pub record Binlog : Type 0 where
    pub opened : Bool
    pub version : Version
    pub manifest : List ℕ
    pub queue : File
    pub pro_num : ℕ
    pub block_offset : ℕ
    pub file_size : ℕ
    pub binlog_io_error : Bool
    pub older : List (ℕ × File)

  -- The status, the log afterwards and `*temp_pro_offset`.
  abbrev pub Step : Type 0
  Step = Status × Binlog × ℕ

  -- The two appends and the flush of `EmitPhysicalRecord`, up to the first that fails.
  unfoldable pub write_record : File → List ℕ → List ℕ → Status × File
  write_record queue header fragment =
      let (s1, queue1) = env.append queue header in
      let (s2, queue2) = env.append queue1 fragment in
      if is_ok s1 then (if is_ok s2 then env.flush queue2 else (s2, queue2)) else (s1, queue1)

  unfoldable pub emit_physical_record : Binlog → ℕ → List ℕ → ℕ → ℕ → Step
  unfolding write_record
  emit_physical_record b type fragment now temp_pro_offset =
      let n = length fragment in
      let (s, queue) = write_record b.queue (record_header type n now) fragment in
      (
        s,
        record b { queue = queue; block_offset = b.block_offset + (header_size + n) },
        to_int (temp_pro_offset + (header_size + n)),
      )

  -- The head of a round of `Produce`: a block tail too short for a header is filled with zeros.
  unfoldable pub fill_block : Binlog → ℕ → Step
  fill_block b temp_pro_offset =
      let leftover = block_size - b.block_offset in
      let (s, queue) = env.append b.queue (replicate leftover 0) in
      if ltb leftover header_size
      then (if ltb 0 leftover
          then (if is_ok s
              then (
                ok,
                record b { queue = queue; block_offset = 0 },
                to_int (temp_pro_offset + leftover),
              )
              else (s, record b { queue = queue }, temp_pro_offset))
          else (ok, record b { block_offset = 0 }, temp_pro_offset))
      else (ok, b, temp_pro_offset)

  unfoldable pub fragment_length : Binlog → ℕ → ℕ
  fragment_length b left =
      let avail = block_size - b.block_offset - header_size in
      if ltb left avail then left else avail

  -- The rest of a round: the fragment that fits is written. The list is what `ptr` points at.
  unfoldable pub produce_fragment : Binlog → List ℕ → Bool → ℕ → ℕ → Step
  produce_fragment b ptr begin now temp_pro_offset =
      let n = fragment_length b (length ptr) in
      let end = length ptr == n in
      emit_physical_record b (fragment_type begin end) (take n ptr) now temp_pro_offset

  -- The loop of `Produce`. `clock` gives the time that each round reads; `none` is no outcome of the
  -- code, it says that the fuel ran out.
  unfoldable pub produce_loop : ℕ → (ℕ → ℕ) → Binlog → List ℕ → Bool → ℕ → Option Step
  produce_loop zero clock b ptr begin temp_pro_offset = none
  produce_loop (suc fuel) clock b ptr begin temp_pro_offset =
      let (s1, b1, temp1) = fill_block b temp_pro_offset in
      let (s2, b2, temp2) = produce_fragment b1 ptr begin (clock fuel) temp1 in
      let left = drop (fragment_length b1 (length ptr)) ptr in
      let again = produce_loop fuel clock b2 left false temp2 in
      if is_ok s1
      then (if is_ok s2 && ltb 0 (length left) then again else some (s2, b2, temp2))
      else some (s1, b1, temp1)

  -- A round takes a byte at least, but for one that closes a block with an empty fragment.
  unfoldable pub produce : (ℕ → ℕ) → Binlog → List ℕ → Option Step
  produce clock b item =
      produce_loop (length item + 2) clock b item true (to_int b.version.pro_offset)

  unfoldable pub init_log_file : Binlog → Binlog
  init_log_file b = record b { block_offset = env.filesize b.queue % block_size; opened = true }

  unfoldable pub save_version : Binlog → Version → Binlog
  save_version b v = record b { version = v; manifest = stable_save v b.manifest }

  -- The head of `Put`: a file above its size is closed and the next one is begun.
  unfoldable pub roll : Binlog → Binlog
  unfolding save_version init_log_file
  roll b =
      let next = (b.pro_num + 1) % 2 ^ 32 in
      let fresh = record b {
        queue = env.new_writable_file;
        pro_num = next;
        older = (b.pro_num, b.queue) ∷ b.older;
      } in
      if ltb b.file_size (env.filesize b.queue)
      then init_log_file
          (save_version fresh (record (b.version) { pro_offset = 0; pro_num = next }))
      else b

  -- What `Put` saves once the item is written, or not.
  unfoldable pub record_put : Step → Status × Binlog
  unfolding save_version
  record_put (s, b, temp_pro_offset) =
      if is_ok s
      then (
        s,
        save_version b (record (b.version) {
          pro_offset = from_int temp_pro_offset;
          logic_id = (b.version.logic_id + 1) % 2 ^ 64;
        }),
      )
      else (s, record b { binlog_io_error = true })

  -- `Put(const std::string&)` with the `Put(const char*, int)` that it calls.
  unfoldable pub put : (ℕ → ℕ) → Binlog → List ℕ → Option (Status × Binlog)
  put clock b item =
      let written = Option.map record_put (produce clock (roll b) item) in
      if b.opened then written else some (busy, b)

  -- The status, and the producer's place with the term and the logic id.
  unfoldable pub get_producer_status : Binlog → Status × Version
  get_producer_status b =
      if b.opened
      then (ok, b.version)
      else (busy, record { pro_num = 0; pro_offset = 0; logic_id = 0; term = 0 })

  unfoldable pub set_term : Binlog → ℕ → Binlog
  unfolding save_version
  set_term b term = save_version b (record (b.version) { term = term })

  unfoldable pub close : Binlog → Binlog
  close b = if b.opened then record b { opened = false } else b
