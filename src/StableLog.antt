-- ===== src/StableLog.antt =====
-- The truncation of a log: `PurgeFileAfter` and `TruncateTo` of src/pika_stable_log.cc and
-- `Truncate` of src/pika_binlog.cc.
pub mod Truncate
pub mod Purge
use pika.Prelude.{
  ℕ, Bool, true, false, List, [], ◌∷◌, Option, some, none, ltb, ◌==◌, if◌then◌else◌, ◌≤◌, ◌≡◌,
  length, take,
}
use pika.Env.{Env}
use pika.Status.{Status, ok, corruption, io_error, is_ok}
use pika.LogOffset.{LogOffset}
use pika.Binlog.{Binlog, Version, save_version, init_log_file}
use pika.BinlogReader.{find_older}
use pika.BinlogReset.{delete_file}

-- What truncation asks of the operating system and of slash/include/env.h: whether `ftruncate`
-- failed and the file afterwards, `AppendWritableFile` at an offset, and what `DeleteFile` says of
-- the file of a number.
pub record Disk (env : Env) : Type 0 where
  pub ftruncate : env.File → ℕ → Bool × env.File
  pub append_writable_file : env.File → ℕ → Status × env.File
  pub delete_status : ℕ → Status

-- The documented behaviour: a file that was cut has its front, and is not changed by opening it.
pub record DiskLaws (env : Env) (disk : Disk env) : Type 0 where
  pub contents-ftruncate :
      (f : env.File) (n : ℕ)
      → n ≤ length (env.contents f)
      → env.contents (disk.ftruncate f n).1 ≡ take n (env.contents f)
  pub contents-append_writable_file :
      (f : env.File) (n : ℕ) → env.contents (disk.append_writable_file f n).1 ≡ env.contents f

module _ (env : Env) (disk : Disk env) where
  abbrev pub Store : Type 0
  Store = List (ℕ × env.File)

  -- All files by their numbers, the one that is written too.
  abbrev pub store : Binlog env → Store
  store b = (b.pro_num, b.queue) ∷ b.older

  -- The loop of `PurgeFileAfter` over the keys of what `GetBinlogFiles` lists.
  unfoldable pub purge_loop : ℕ → List ℕ → Store → Status × Store
  purge_loop filenum [] fs = (ok, fs)
  purge_loop filenum (n ∷ ns) fs = elim (ltb filenum n) [
    | false ↦ purge_loop filenum ns fs
    | true ↦ elim (is_ok (disk.delete_status n)) [
      | true ↦ purge_loop filenum ns (delete_file env n fs)
      | false ↦ (disk.delete_status n, fs)
    ]
  ]

  unfoldable pub purge_file_after : Option (List ℕ) → ℕ → Store → Status × Store
  unfolding purge_loop
  purge_file_after none filenum fs = (corruption, fs)
  purge_file_after (some ns) filenum fs = purge_loop filenum ns fs

  -- `Binlog::Truncate` on the files that are there. Where the file cannot be opened or cut,
  -- `queue_` is a pointer to what was deleted; the model keeps the file.
  unfoldable pub truncate : Binlog env → Store → ℕ → ℕ → ℕ → Status × Binlog env
  truncate b fs pro_num pro_offset index =
      let left = delete_file env pro_num fs in
      elim (find_older env pro_num fs) [
        | none ↦ (io_error, record b { older = delete_file env b.pro_num fs })
        | some f ↦
            let (failed, f') = disk.ftruncate f pro_offset in
            let (s, queue) = disk.append_writable_file f' pro_offset in
            let moved = record b { queue = queue; pro_num = pro_num; older = left } in
            let saved = save_version env moved (record (b.version) {
              pro_num = pro_num;
              pro_offset = pro_offset;
              logic_id = index;
            }) in
            if failed
            then (io_error, record b { older = delete_file env b.pro_num fs })
            else if is_ok s
            then (ok, init_log_file env saved)
            else (s, saved)
      ]

  -- `StableLog::TruncateTo`.
  unfoldable pub truncate_to : Option (List ℕ) → Binlog env → LogOffset → Status × Binlog env
  unfolding purge_file_after truncate
  truncate_to binlogs b o =
      let (s, fs) = purge_file_after binlogs o.b_offset.filenum (store b) in
      if is_ok s
      then truncate b fs o.b_offset.filenum o.b_offset.offset o.l_offset.index
      else (s, record b { older = delete_file env b.pro_num fs })
