-- ===== src/Tests/Purging.antt =====
-- A log whose old files are deleted.
use pika.Prelude.{◌+◌, ◌≤◌, ◌≡◌, refl, ◌⊎◌, [], ◌∷◌, some, true, false, arith}
use pika.LogOffset.{log_origin}
use pika.Binlog.{Binlog}
use pika.BinlogReader.{find_older}
use pika.StableLog.Purge.{Expiry, purge_files}
use pika.StableLog.Purge.Needed.{purge_files-keeps}
use pika.SyncMaster.Purge.{AllPast}
use pika.Tests.Files.{plain, coding}
use pika.Tests.Masters.{slaves, long_log}
use pika.Tests.Truncation.{disk}

-- A purge by hand of the files up to 12.
abbrev by_hand : Expiry
by_hand = record { to = 12; manual = true; expire_logs_nums = 10; expired = λ n. false }

-- A log that writes file 20 and has file 11.
abbrev aged_log : Binlog plain
aged_log = record long_log { pro_num = 20; older = (11, 7 ∷ []) ∷ [] }

purge_files-keeps_example :
    (find_older plain 11
        (purge_files plain disk coding 1 3
          (λ b. some (11 ∷ 20 ∷ []))
          by_hand
          (some slaves)
          aged_log
          log_origin).1.older
      ≡ find_older plain 11 aged_log.older)
    ⊎ ((11 + 10 ≤ 20) × AllPast plain 11 slaves.slaves)
purge_files-keeps_example =
    purge_files-keeps plain disk coding 1 3 (λ b. some (11 ∷ 20 ∷ [])) by_hand slaves aged_log
      log_origin 11 (omega arith) (omega arith) refl
