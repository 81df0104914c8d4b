-- ===== src/MemLog/Purge.antt =====
-- `PurgeLogs` and `TruncateTo`: what they split off a memory log.
use pika.Prelude.{
  ℕ, zero, suc, ◌+◌, ◌<◌, ◌≡◌, ◌∙◌, refl, sym, ◌⊎◌, inl, inr, true, false, List, [], ◌∷◌, ◌++◌,
  some, none, arith, length, take, drop, take-append-drop, Option-cases, Bool-cases,
}
use pika.LogOffset.{LogOffset}
use pika.LogOffset
use pika.LogOffset.Order
use pika.BinlogOffset
use pika.Status.{ok, not_found, corruption}
use pika.MemLog.{LogItem, MemLog, find_by_binlog_offset, offset_at, purge_logs, truncate_to}
use pika.MemLog.Order.{Above, last_or, Follows}

not_past :
    (a b o : LogOffset)
    → LogOffset.lt a b ≡ true
    → LogOffset.eq b o ≡ true
    → (LogOffset.gt a o ≡ false) × (LogOffset.eq a o ≡ false)
unfolding LogOffset.lt LogOffset.eq LogOffset.gt BinlogOffset.lt BinlogOffset.eq BinlogOffset.gt
not_past a b o h k = (ground arith, ground arith)

not_gt_of_eq : (b o : LogOffset) → LogOffset.eq b o ≡ true → LogOffset.gt b o ≡ false
unfolding LogOffset.eq LogOffset.gt BinlogOffset.eq BinlogOffset.gt
not_gt_of_eq b o h = ground arith

module _ (Payload : Type 0) where
  find-found :
      (xs : List (LogItem Payload)) (i : ℕ) (o : LogOffset) (k : ℕ)
      → find_by_binlog_offset Payload xs i o ≡ some k
      → (j : ℕ) × (k ≡ i + j) × (j < length xs) × (LogOffset.eq (offset_at Payload xs j) o ≡ true)
  unfolding find_by_binlog_offset
  find-found [] i o k h = cc
  find-found (x ∷ xs) i o k h = elim (Bool-cases (LogOffset.gt x.offset o)) [
    | inl past ↦ absurd (ground (arith))
    | inr before ↦ elim (Bool-cases (LogOffset.eq x.offset o)) [
      | inl here ↦ (0, ground arith, omega arith, here)
      | inr later ↦
          let (j, e, lt, same) = find-found xs (suc i) o k (ground arith) in
          (suc j, omega arith, omega arith, same)
    ]
  ]

  Above-at :
      (base : LogOffset) (xs : List (LogItem Payload)) (j : ℕ)
      → Above Payload base xs
      → j < length xs
      → LogOffset.lt base (offset_at Payload xs j) ≡ true
  Above-at base [] j h lt = elim lt [ ]
  Above-at base (x ∷ xs) zero h lt = h.0
  Above-at base (x ∷ xs) (suc j) h lt =
      Order.lt-le_trans base x.offset (offset_at Payload xs j) h.0
        (Order.le-of-lt x.offset _ (Above-at x.offset xs j h.1 (omega arith)))

  -- In a rising log an item of that offset is found.
  find_complete :
      (base : LogOffset) (xs : List (LogItem Payload)) (i j : ℕ) (o : LogOffset)
      → Above Payload base xs
      → j < length xs
      → LogOffset.eq (offset_at Payload xs j) o ≡ true
      → find_by_binlog_offset Payload xs i o ≡ some (i + j)
  unfolding find_by_binlog_offset
  find_complete base [] i j o h lt e = elim lt [ ]
  find_complete base (x ∷ xs) i zero o h lt e = ground (arith, not_gt_of_eq x.offset o e)
  find_complete base (x ∷ xs) i (suc j) o h lt e = ground (
    arith,
    not_past x.offset (offset_at Payload xs j) o (Above-at x.offset xs j h.1 (omega arith)) e,
    find_complete x.offset xs (suc i) j o h.1 (omega arith) e,
  )

  -- A rising log split behind an item: both parts rise, and the second follows the item.
  record SplitAt (base : LogOffset) (xs : List (LogItem Payload)) (j : ℕ) : Type 0 where
    pub front : Above Payload base (take (suc j) xs)
    pub front_last : last_or Payload base (take (suc j) xs) ≡ offset_at Payload xs j
    pub back : Above Payload (offset_at Payload xs j) (drop (suc j) xs)
    pub back_last :
        last_or Payload (offset_at Payload xs j) (drop (suc j) xs) ≡ last_or Payload base xs

  split_at :
      (base : LogOffset) (xs : List (LogItem Payload)) (j : ℕ)
      → Above Payload base xs
      → j < length xs
      → SplitAt base xs j
  split_at base [] j h lt = elim lt [ ]
  split_at base (x ∷ xs) zero h lt = record {
    front = (h.0, tt);
    front_last = refl;
    back = h.1;
    back_last = refl;
  }
  split_at base (x ∷ xs) (suc j) h lt =
      let s = split_at x.offset xs j h.1 (omega arith) in
      record {
        front = (h.0, s.front);
        front_last = s.front_last;
        back = s.back;
        back_last = s.back_last;
      }

  -- No item of the log has that offset.
  abbrev pub IsAbsent : List (LogItem Payload) → LogOffset → Type 0
  IsAbsent xs o = (j : ℕ) → j < length xs → LogOffset.eq (offset_at Payload xs j) o ≡ false

  absent :
      (base : LogOffset) (xs : List (LogItem Payload)) (o : LogOffset)
      → Above Payload base xs
      → find_by_binlog_offset Payload xs 0 o ≡ none
      → IsAbsent xs o
  absent base xs o h none_found j lt = elim (Bool-cases (LogOffset.eq (offset_at Payload xs j) o)) [
    | inl same ↦ absurd (cc (find_complete base xs 0 j o h lt same))
    | inr other ↦ other
  ]

  -- The log is split behind the item of offset `o`, which is the last of `gone`: what was purged
  -- comes before what stays, and what stays follows it.
  pub record Purged (base : LogOffset) (m : MemLog Payload) (o : LogOffset) (m' : MemLog Payload)
      (gone : List (LogItem Payload)) : Type 0 where
    pub whole : gone ++ m'.logs ≡ m.logs
    pub gone_rising : Above Payload base gone
    pub gone_last : LogOffset.eq (last_or Payload base gone) o ≡ true
    pub left_follows : Follows Payload (last_or Payload base gone) m'
    pub last_kept : m'.last_offset ≡ m.last_offset

  -- On a rising log PurgeLogs splits off the items up to the one of the given offset, what stays
  -- following it, or no item has that offset and NotFound is returned without a change.
  pub purge_logs_cases :
      (base : LogOffset) (m : MemLog Payload) (o : LogOffset) (before : List (LogItem Payload))
      → Follows Payload base m
      → ((purge_logs Payload m o before).0 ≡ ok)
          × Purged base m o (purge_logs Payload m o before).1 (purge_logs Payload m o before).2
        ⊎ (purge_logs Payload m o before ≡ (not_found, m, before)) × IsAbsent m.logs o
  unfolding purge_logs
  purge_logs_cases base m o before h =
      elim (Option-cases (find_by_binlog_offset Payload m.logs 0 o)) [
        | inl missing ↦ inr (rw (missing, purge_logs), absent base m.logs o h.rising missing)
        | inr (k, found) ↦
            let (j, e, lt, same) = find-found m.logs 0 o k found in
            let k_eq : k ≡ j = omega arith in
            let s = split_at base m.logs j h.rising lt in
            rw (found, k_eq, purge_logs)
              (inl (
                refl,
                record {
                  whole = take-append-drop (suc j) m.logs;
                  gone_rising = s.front;
                  gone_last = rw (s.front_last) same;
                  left_follows =
                      rw (s.front_last)
                        (record { rising = s.back; last_known = h.last_known ∙ sym s.back_last });
                  last_kept = refl;
                },
              ))
      ]

  -- The log is cut behind the item of offset `o`, which becomes its last one.
  pub record Truncated (base : LogOffset) (m : MemLog Payload) (o : LogOffset) (m' : MemLog Payload)
      : Type 0 where
    pub cut : List (LogItem Payload)
    pub whole : m'.logs ++ cut ≡ m.logs
    pub follows : Follows Payload base m'
    pub last_eq : LogOffset.eq m'.last_offset o ≡ true

  -- On a rising log TruncateTo keeps the items up to the one of the given offset, which becomes
  -- the last, or no item has that offset and Corruption is returned without a change.
  pub truncate_to_cases :
      (base : LogOffset) (m : MemLog Payload) (o : LogOffset)
      → Follows Payload base m
      → ((truncate_to Payload m o).0 ≡ ok) × Truncated base m o (truncate_to Payload m o).1
        ⊎ (truncate_to Payload m o ≡ (corruption, m)) × IsAbsent m.logs o
  unfolding truncate_to
  truncate_to_cases base m o h = elim (Option-cases (find_by_binlog_offset Payload m.logs 0 o)) [
    | inl missing ↦ inr (rw (missing, truncate_to), absent base m.logs o h.rising missing)
    | inr (k, found) ↦
        let (j, e, lt, same) = find-found m.logs 0 o k found in
        let k_eq : k ≡ j = omega arith in
        let s = split_at base m.logs j h.rising lt in
        rw (found, k_eq, truncate_to)
          (inl (
            refl,
            record {
              cut = drop (suc j) m.logs;
              whole = take-append-drop (suc j) m.logs;
              follows = record { rising = s.front; last_known = sym s.front_last };
              last_eq = same;
            },
          ))
  ]
