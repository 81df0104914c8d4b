-- ===== src/Negotiate.antt =====
-- How a leader finds out whether a follower's log is a part of its own: `GetBinlogOffset`,
-- `FindBinlogFileNum`, `FindLogicOffset`, `GetLogsBefore` and `LeaderNegotiate` of
-- src/pika_consensus.cc.
pub mod FileNum
pub mod Answer
pub mod Leader
pub mod Follower
pub mod Truncations
use pika.Prelude.{
  ℕ, zero, suc, ◌+◌, ◌-◌, ◌%◌, ◌^◌, Bool, true, false, ◌&&◌, ◌||◌, not, List, [], ◌∷◌, ◌++◌, Option,
  some, none, ltb, leb, ◌==◌, if◌then◌else◌, length, drop,
}
use mathlib.Core.Option
use pika.Env.{Env}
use pika.Slash.{Slash}
use pika.Status.{Status, ok, not_found, corruption, is_ok, is_end_file, is_corruption, is_io_error}
use pika.BinlogOffset.{BinlogOffset}
use pika.BinlogOffset
use pika.LogOffset.{LogOffset, log_origin}
use pika.LogOffset
use pika.Binlog.{Binlog}
use pika.BinlogReader.{Cursor, get}
use pika.BinlogSeek.{Sought, seek}
use pika.Transverter.{BinlogItem, empty_item, type_first, binlog_item_without_content_decode}
use pika.Coordinator.{Coordinator}

-- The loop of `FindBinlogFileNum`. `first` is what `GetBinlogOffset` gives at the front of a file,
-- `lb` and `hb` are the least and the greatest number of a file, `left` and `right` say which way the
-- search went. The number is that of the file found, 0 where none is. `none` is no outcome of the
-- code: the fuel ran out, here or in `first`.
unfoldable pub find_loop :
    ℕ → (ℕ → Option (Status × LogOffset)) → ℕ → ℕ → ℕ → ℕ → Bool → Bool → Option (Status × ℕ)
find_loop zero first lb hb target filenum left right = none
find_loop (suc fuel) first lb hb target filenum left right = elim (first filenum) [
  | none ↦ none
  | some (s, o) ↦ elim (is_ok s) [
    | false ↦ some (s, 0)
    | true ↦ elim (ltb target o.l_offset.index) [
      | true ↦ elim right [
        | true ↦ some (ok, (filenum + (2 ^ 32 - 1)) % 2 ^ 32)
        | false ↦ elim ((filenum == 0) || ltb (filenum - 1) lb) [
          | true ↦ some (not_found, 0)
          | false ↦ find_loop fuel first lb hb target (filenum - 1) true false
        ]
      ]
      | false ↦ elim (ltb o.l_offset.index target) [
        | true ↦ elim left [
          | true ↦ some (ok, filenum)
          | false ↦ elim (ltb hb ((filenum + 1) % 2 ^ 32)) [
            | true ↦ some (ok, filenum)
            | false ↦ find_loop fuel first lb hb target ((filenum + 1) % 2 ^ 32) false true
          ]
        ]
        | false ↦ some (ok, filenum)
      ]
    ]
  ]
]

-- A file is looked at once, and one more where the search turns back.
unfoldable pub find_binlog_file_num :
    (ℕ → Option (Status × LogOffset)) → ℕ → ℕ → ℕ → ℕ → Option (Status × ℕ)
unfolding find_loop
find_binlog_file_num first lb hb target start_filenum =
    find_loop (hb - lb + 2) first lb hb target start_filenum false false

-- The first and the last key of a `std::map` that is not empty, its keys in their order.
unfoldable pub last_key : ℕ → List ℕ → ℕ
last_key n [] = n
last_key n (m ∷ ms) = last_key m ms

unfoldable pub has_key : ℕ → List ℕ → Bool
has_key n [] = false
has_key n (m ∷ ms) = if m == n then true else has_key n ms

-- The first offset of that index.
unfoldable pub find_index : ℕ → List LogOffset → Option LogOffset
find_index target [] = none
find_index target (o ∷ os) = if o.l_offset.index == target then some o else find_index target os

-- `files` bounds the files that a `Get` passes through, and `rounds` the items that a range has.
module _ (env : Env) (slash : Slash) (files rounds : ℕ) where
  -- What is made of an item that was read: the offset, or `none` where it cannot be decoded.
  unfoldable pub decoded : List ℕ → ℕ → ℕ → Option LogOffset
  decoded binlog filenum offset =
      let (good, item) = binlog_item_without_content_decode slash type_first binlog empty_item in
      if good
      then some (record {
        b_offset = record { filenum = filenum; offset = offset };
        l_offset = record { term = item.term_id; index = item.logic_id };
      })
      else none

  -- The reader of `GetBinlogOffset`: `none` inside where `Seek` returned -1.
  unfoldable pub init_reader : Binlog env → BinlogOffset → Option (Option (Cursor env))
  init_reader b start =
      Option.map
        (λ (o : Option (Sought env)). elim o [
          | none ↦ none
          | some s ↦ if s.failed then none else some s.cursor
        ])
        (seek env b start.filenum start.offset)

  -- `GetBinlogOffset` of one offset, and `*log_offset`, which was the origin.
  unfoldable pub get_binlog_offset : Binlog env → BinlogOffset → Option (Status × LogOffset)
  unfolding init_reader decoded
  get_binlog_offset b start = elim (init_reader b start) [
    | none ↦ none
    | some none ↦ some (corruption, log_origin)
    | some (some c) ↦ elim (get env files b c 0 0) [
      | none ↦ none
      | some r ↦
          if is_ok r.status
          then elim (decoded r.scratch r.filenum r.offset) [
            | none ↦ some (corruption, log_origin)
            | some o ↦ some (ok, o)
          ]
          else some (corruption, log_origin)
    ]
  ]

  -- The loop of `GetBinlogOffset` of a range, with `*log_offset` so far.
  unfoldable pub range_loop :
      ℕ → Binlog env → Cursor env → BinlogOffset → List LogOffset → Option (Status × List LogOffset)
  range_loop zero b c end found = none
  range_loop (suc fuel) b c end found = elim (get env files b c 0 0) [
    | none ↦ none
    | some r ↦ elim (is_end_file r.status) [
      | true ↦ some (ok, found)
      | false ↦ elim (is_corruption r.status || is_io_error r.status) [
        | true ↦ some (corruption, found)
        | false ↦ elim (decoded r.scratch r.filenum r.offset) [
          | none ↦ some (corruption, found)
          | some o ↦ elim (BinlogOffset.gt o.b_offset end) [
            | true ↦ some (ok, found)
            | false ↦ range_loop fuel b r.cursor end (found ++ (o ∷ []))
          ]
        ]
      ]
    ]
  ]

  unfoldable pub get_binlog_offsets :
      Binlog env → BinlogOffset → BinlogOffset → Option (Status × List LogOffset)
  unfolding range_loop init_reader
  get_binlog_offsets b start end = elim (init_reader b start) [
    | none ↦ none
    | some none ↦ some (corruption, [])
    | some (some c) ↦ range_loop rounds b c end []
  ]

  -- The end of `FindLogicOffsetBySearchingBinlog`, in the file that was found.
  unfoldable pub search_file : Binlog env → ℕ → ℕ → Option (Status × LogOffset)
  search_file b target found_filenum =
      elim (get_binlog_offsets b (record { filenum = found_filenum; offset = 0 })
        (record { filenum = (found_filenum + 1) % 2 ^ 32; offset = 0 })) [
          | none ↦ none
          | some (s, offsets) ↦
              if is_ok s
              then elim (find_index target offsets) [
                | none ↦ some (not_found, log_origin)
                | some o ↦ some (ok, o)
              ]
              else some (s, log_origin)
        ]

  -- `binlogs` has the keys of what `GetBinlogFiles` lists, `none` where it fails.
  unfoldable pub find_logic_offset_by_searching_binlog :
      Option (List ℕ) → Binlog env → BinlogOffset → ℕ → Option (Status × LogOffset)
  unfolding search_file
  find_logic_offset_by_searching_binlog none b hint target = some (corruption, log_origin)
  find_logic_offset_by_searching_binlog (some []) b hint target = some (not_found, log_origin)
  find_logic_offset_by_searching_binlog (some (lb ∷ ns)) b hint target =
      let hb = last_key lb ns in
      let start = if has_key hint.filenum (lb ∷ ns) then hint.filenum else hb in
      let first = λ (n : ℕ). get_binlog_offset b (record { filenum = n; offset = 0 }) in
      elim (find_binlog_file_num first lb hb target start) [
        | none ↦ none
        | some (s, n) ↦ elim (is_ok s) [
          | false ↦ some (s, log_origin)
          | true ↦ search_file b target n
        ]
      ]

  unfoldable pub find_logic_offset :
      Option (List ℕ) → Binlog env → BinlogOffset → ℕ → Option (Status × LogOffset)
  find_logic_offset binlogs b start target = elim (get_binlog_offset b start) [
    | none ↦ none
    | some (s, o) ↦ elim (not (is_ok s) || not (o.l_offset.index == target)) [
      | true ↦ find_logic_offset_by_searching_binlog binlogs b start target
      | false ↦ some (ok, o)
    ]
  ]
