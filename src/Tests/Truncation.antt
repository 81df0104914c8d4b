-- ===== src/Tests/Truncation.antt =====
-- A follower that cuts its log.
use pika.Prelude.{refl, [], ◌∷◌, some, false, take, arith}
use pika.Status.{ok}
use pika.LogOffset.{LogOffset, log_origin}
use pika.Binlog.{Binlog}
use pika.StableLog.{Disk, DiskLaws, truncate_to}
use pika.BinlogReader.{find_older}
use pika.StableLog.Truncate.{Front, truncate_to-Front}
use pika.Negotiate.Follower.{follower_negotiate}
use pika.Negotiate.Truncations.{Outcome, IsCommitted, follower_negotiate-Outcome}
use pika.Tests.Files.{plain, plain-EnvLaws, coding}
use pika.Tests.Proposal.{Cmd, to_binlog}
use pika.Tests.Negotiations.{one_log, seventh, asked}

-- A disk on which nothing fails.
abbrev pub disk : Disk plain
disk = record {
  ftruncate = λ f n. (false, take n f);
  append_writable_file = λ f n. (ok, f);
  delete_status = λ n. ok;
}

disk-DiskLaws : DiskLaws plain disk
disk-DiskLaws = record {
  contents-ftruncate = λ f n h. refl;
  contents-append_writable_file = λ f n. refl;
}

-- The same file twice, as number 2 and as number 3.
abbrev two_files : Binlog plain
two_files = record one_log { older = (2, one_log.queue) ∷ [] }

-- Log 7 in the older one.
abbrev older_log : LogOffset
older_log = record seventh { b_offset = record { filenum = 2; offset = 43 } }

truncate_to-Front_example :
    Front plain disk
      (λ n. refl)
      two_files
      (2 ∷ 3 ∷ [])
      older_log
      one_log.queue
      (truncate_to plain disk (some (2 ∷ 3 ∷ [])) two_files older_log)
unfolding find_older
truncate_to-Front_example =
    truncate_to-Front plain disk (λ n. refl) plain-EnvLaws disk-DiskLaws two_files (2 ∷ 3 ∷ [])
      older_log (one_log.queue) refl (omega arith) refl refl

follower_negotiate-Outcome_example :
    Outcome plain disk coding 1 3 Cmd to_binlog
      (λ b. some (3 ∷ []))
      asked
      log_origin
      (follower_negotiate plain disk coding 1 3 Cmd to_binlog
        (λ b. some (3 ∷ []))
        asked
        (seventh ∷ [])
        log_origin)
    × IsCommitted plain disk coding 1 3 Cmd to_binlog
        (λ b. some (3 ∷ []))
        asked
        (follower_negotiate plain disk coding 1 3 Cmd to_binlog
          (λ b. some (3 ∷ []))
          asked
          (seventh ∷ [])
          log_origin)
follower_negotiate-Outcome_example =
    follower_negotiate-Outcome plain disk coding 1 3 Cmd to_binlog (λ b. some (3 ∷ [])) asked
      (seventh ∷ []) log_origin
