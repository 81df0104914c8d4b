-- ===== src/StableLog/Purge/Needed.antt =====
-- Which files `PurgeFiles` of src/pika_stable_log.cc does not delete.
use pika.Prelude.{
  ℕ, suc, ◌+◌, ◌≤◌, ◌<◌, ◌^◌, ◌≡◌, refl, ap, sym, ◌⊎◌, inl, inr, Bool, true, false, List, [], ◌∷◌,
  Option, some, arith, ◌==◌, Bool-cases, Option-cases, ◌∙◌, length,
}
use pika.Env.{Env}
use pika.Slash.{Slash}
use pika.Status.{is_ok}
use pika.LogOffset.{LogOffset}
use pika.Binlog.{Binlog}
use pika.BinlogReader.{find_older}
use pika.BinlogReset.{delete_file}
use pika.SyncProgress.{SyncProgress}
use pika.SyncMaster.Purge.{AllPast, binlog_cloud_purge_safe}
use pika.StableLog.{Disk, Store, store}
use pika.StableLog.Truncate.{find_older-delete_file}
use pika.StableLog.Purge.{Expiry, is_due, may_purge, purge_files_loop, purge_files}

module _ (env : Env) (disk : Disk env) where
  -- A file that is gone is one that might be deleted.
  purge_files_loop_lem :
      (e : Expiry) (may : ℕ → Bool) (size : ℕ) (ns : List ℕ) (d : ℕ) (fs : Store env disk) (n : ℕ)
      → (find_older env n (purge_files_loop env disk e may size ns d fs).1 ≡ find_older env n fs)
        ⊎ (may n ≡ true)
  unfolding purge_files_loop
  purge_files_loop_lem e may size [] d fs n = inl refl
  purge_files_loop_lem e may size (m ∷ ns) d fs n = elim (Bool-cases (is_due e size d m)) [
    | inr early ↦ rw (early, purge_files_loop) (inl refl)
    | inl due ↦ elim (Bool-cases (may m)) [
      | inr barred ↦ rw (due, barred, purge_files_loop) (inl refl)
      | inl free ↦ elim (Bool-cases (is_ok (disk.delete_status m))) [
        | inr failed ↦
            rw (due, free, failed, purge_files_loop) (purge_files_loop_lem e may size ns d fs n)
        | inl gone ↦ elim (Bool-cases (m == n)) [
          | inl here ↦ (let same : m ≡ n = ground (arith, here) in inr (ap may (sym same) ∙ free))
          | inr other ↦
              rw (due, free, gone, purge_files_loop)
                (elim (purge_files_loop_lem e may size ns (suc d) (delete_file env m fs) n) [
                  | inl same ↦ inl (same ∙ find_older-delete_file env n m fs ∙ rw other refl)
                  | inr allowed ↦ inr allowed
                ])
        ]
      ]
    ]
  ]

  module _ (slash : Slash) (files rounds : ℕ) (list_files : Binlog env → Option (List ℕ)) where
    -- On a log that writes file 10 or a later one, PurgeFiles leaves an older file as it is,
    -- whatever the limits are and whatever can be deleted, or that file is at least ten files
    -- behind and each slave in binlog sync has acknowledged a place in a later one, and none is in
    -- a database copy.
    pub purge_files-keeps :
        (e : Expiry) (s : SyncProgress env) (b : Binlog env) (first : LogOffset) (n : ℕ)
        → 10 ≤ b.version.pro_num
        → b.version.pro_num < 2 ^ 32
        → (b.pro_num == n) ≡ false
        → (find_older env n
              (purge_files env disk slash files rounds list_files e (some s) b first).1.older
            ≡ find_older env n b.older)
          ⊎ ((n + 10 ≤ b.version.pro_num) × AllPast env n s.slaves)
    unfolding purge_files may_purge find_older
    purge_files-keeps e s b first n ten word other = elim (Option-cases (list_files b)) [
      | inl absent ↦ rw (absent, purge_files) (inl refl)
      | inr (ns, listed) ↦
          let fs =
            (purge_files_loop env disk e (may_purge env disk b (some s)) (length ns) ns 0
              (store env disk b)).1 in
          elim (purge_files_loop_lem e (may_purge env disk b (some s)) (length ns) ns 0
            (store env disk b) n) [
              | inr allowed ↦ inr (binlog_cloud_purge_safe env b s n ten word allowed)
              | inl same ↦
                  let kept : find_older env n (delete_file env b.pro_num fs)
                      ≡ find_older env n b.older =
                    find_older-delete_file env n b.pro_num fs ∙ rw other (same ∙ rw other refl) in
                  elim (Bool-cases
                    (purge_files_loop env disk e (may_purge env disk b (some s)) (length ns) ns 0
                      (store env disk b)).0) [
                        | inl went ↦ rw (listed, went, purge_files) (inl kept)
                        | inr stopped ↦ rw (listed, stopped, purge_files) (inl kept)
                      ]
            ]
    ]
