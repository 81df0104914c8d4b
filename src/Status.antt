-- ===== src/Status.antt =====
-- The codes of `slash::Status` that the program returns and tests. The messages only go to the log.
use pika.Prelude.{Bool, true, false}

pub data Status : Type 0 where
  ok not_found corruption io_error end_file busy incomplete : Status

-- `s.ok()`, `s.IsEndFile()`, `s.IsNotFound()`, `s.IsCorruption()` and `s.IsIOError()`.
abbrev pub is_ok : Status → Bool
is_ok ok = true
is_ok _ = false

abbrev pub is_end_file : Status → Bool
is_end_file end_file = true
is_end_file _ = false

abbrev pub is_not_found : Status → Bool
is_not_found not_found = true
is_not_found _ = false

abbrev pub is_corruption : Status → Bool
is_corruption corruption = true
is_corruption _ = false

abbrev pub is_io_error : Status → Bool
is_io_error io_error = true
is_io_error _ = false
