-- ===== src/Tests/Seeking.antt =====
-- A slave that asks for an offset of the log.
use pika.Prelude.{ℕ, ◌<◌, ◌≡◌, refl, ◌⊎◌, List, [], ◌∷◌, some, none, true, false, drop}
use pika.Binlog.{Binlog}
use pika.BinlogReader.{find_file}
use pika.BinlogSeek.{Sought, seek}
use pika.BinlogSeek.Stand.{Stands, seek-Stands}
use pika.TrySync.{try_sync_offset_check, reply_error, sync_point_larger, sync_point_be_purged}
use pika.TrySync.Accept.{is_larger, try_sync_offset_check_cases}
use pika.Tests.Files.{plain, plain-EnvLaws}
use pika.Tests.Proposal.{log}

-- A log with one record of one byte, and nothing behind it.
abbrev short_log : Binlog plain
short_log = record log {
  queue = 1 ∷ 0 ∷ 0 ∷ 7 ∷ 0 ∷ 0 ∷ 0 ∷ 1 ∷ 97 ∷ [];
  version = record { pro_num = 3; pro_offset = 100; logic_id = 8; term = 1 };
}

seek-Stands_example :
    (s : Sought plain) × (seek plain short_log 3 9 ≡ some (some s))
    × (s.cursor.cur_filenum ≡ 3)
    × Stands plain plain-EnvLaws short_log.queue 9 9 s
unfolding find_file
seek-Stands_example = seek-Stands plain plain-EnvLaws short_log 3 9 (short_log.queue) refl

-- Offset 50 is behind the end of the file and before the producer's, and is accepted.
try_sync_offset_check_cases_example :
    ((is_larger plain short_log 3 50 ≡ true)
      × (try_sync_offset_check plain short_log 3 50 ≡ some (false, sync_point_larger)))
    ⊎ ((is_larger plain short_log 3 50 ≡ false)
        × (find_file plain short_log 3 ≡ none)
        × (try_sync_offset_check plain short_log 3 50 ≡ some (false, sync_point_be_purged)))
    ⊎ ((f : List ℕ) × (s : Sought plain) × (is_larger plain short_log 3 50 ≡ false)
        × (find_file plain short_log 3 ≡ some f)
        × (seek plain short_log 3 50 ≡ some (some s))
        × (((s.failed ≡ true)
              × (try_sync_offset_check plain short_log 3 50 ≡ some (true, reply_error)))
            ⊎ ((s.failed ≡ false)
                × (s.cursor.queue ≡ drop 50 f)
                × (try_sync_offset_check plain short_log 3 50 ≡ some (true, reply_error)))
            ⊎ ((s.failed ≡ false)
                × (50 < s.cursor.cur_offset)
                × (try_sync_offset_check plain short_log 3 50 ≡ some (false, reply_error)))))
try_sync_offset_check_cases_example =
    try_sync_offset_check_cases plain plain-EnvLaws short_log 3 50 refl
