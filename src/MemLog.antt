-- ===== src/MemLog.antt =====
-- `MemLog` of include/pika_consensus.h and src/pika_consensus.cc: the log items that are written and
-- not yet committed. An item's payload stands for its pointers to the command, the connection and
-- the response.
pub mod Order
pub mod Purge
pub mod Find
use pika.Prelude.{
  ℕ, zero, suc, ◌+◌, ◌-◌, Bool, true, false, ◌||◌, List, [], ◌∷◌, ◌++◌, Option, none, some, ltb,
  leb, ◌==◌, if◌then◌else◌, length, take, drop, get_elem?,
}
use mathlib.Core.Option
use pika.LogOffset.{LogOffset, log_origin}
use pika.LogOffset
use pika.Status.{Status, ok, not_found, corruption}

module _ (Payload : Type 0) where
  pub record LogItem : Type 0 where
    pub offset : LogOffset
    pub payload : Payload

  pub record MemLog : Type 0 where
    pub logs : List LogItem
    pub last_offset : LogOffset

  abbrev pub empty : MemLog
  empty = record { logs = []; last_offset = log_origin }

  unfoldable pub size : MemLog → ℕ
  size m = length m.logs

  unfoldable pub append_log : MemLog → LogItem → MemLog
  append_log m x = record { logs = m.logs ++ (x ∷ []); last_offset = x.offset }

  unfoldable pub set_last_offset : MemLog → LogOffset → MemLog
  set_last_offset m o = record m { last_offset = o }

  -- `InternalFindLogByLogicIndex` and `InternalFindLogByBinlogOffset`, from index `i` on; `none` is -1.
  unfoldable pub find_by_logic_index : List LogItem → ℕ → LogOffset → Option ℕ
  find_by_logic_index [] i o = none
  find_by_logic_index (x ∷ xs) i o =
      let rest = find_by_logic_index xs (suc i) o in
      if ltb o.l_offset.index x.offset.l_offset.index
      then none
      else if x.offset.l_offset.index == o.l_offset.index
      then some i
      else rest

  unfoldable pub find_by_binlog_offset : List LogItem → ℕ → LogOffset → Option ℕ
  find_by_binlog_offset [] i o = none
  find_by_binlog_offset (x ∷ xs) i o =
      let rest = find_by_binlog_offset xs (suc i) o in
      if LogOffset.gt x.offset o then none else if LogOffset.eq x.offset o then some i else rest

  -- The status, the log and `*logs`, from its value before.
  unfoldable pub purge_logs : MemLog → LogOffset → List LogItem → Status × MemLog × List LogItem
  purge_logs m o logs = elim (find_by_binlog_offset m.logs 0 o) [
    | none ↦ (not_found, m, logs)
    | some i ↦ (ok, record m { logs = drop (suc i) m.logs }, take (suc i) m.logs)
  ]

  -- The offset of the log at an index, which is in range where the code asks for it.
  abbrev pub offset_at : List LogItem → ℕ → LogOffset
  offset_at [] i = log_origin
  offset_at (x ∷ xs) zero = x.offset
  offset_at (x ∷ xs) (suc i) = offset_at xs i

  unfoldable pub truncate_to : MemLog → LogOffset → Status × MemLog
  truncate_to m o = elim (find_by_binlog_offset m.logs 0 o) [
    | none ↦ (corruption, m)
    | some i ↦ (ok, record { logs = take (suc i) m.logs; last_offset = offset_at m.logs i })
  ]

  unfoldable pub reset : MemLog → LogOffset → MemLog
  reset m o = record { logs = []; last_offset = o }

  -- `start` and `end` are not negative.
  unfoldable pub get_range_logs : MemLog → ℕ → ℕ → List LogItem → Status × List LogItem
  get_range_logs m start end logs =
      let log_size = length m.logs in
      if ltb end start || (leb log_size start || leb log_size end)
      then (corruption, logs)
      else (ok, take (end + 1 - start) (drop start m.logs))

  unfoldable pub find_log_item : MemLog → LogOffset → LogOffset → Bool × LogOffset
  find_log_item m o found_offset = elim (find_by_logic_index m.logs 0 o) [
    | none ↦ (false, found_offset)
    | some i ↦ (true, offset_at m.logs i)
  ]
