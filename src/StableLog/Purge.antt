-- ===== src/StableLog/Purge.antt =====
-- The deletion of old files: `PurgeFiles` and `UpdateFirstOffset` of src/pika_stable_log.cc.
pub mod Needed
use pika.Prelude.{
  ℕ, zero, suc, ◌+◌, ◌-◌, Bool, true, false, not, ◌&&◌, ◌||◌, List, [], ◌∷◌, Option, some, none,
  ltb, leb, ◌==◌, if◌then◌else◌, length,
}
use pika.Env.{Env}
use pika.Slash.{Slash}
use pika.Status.{Status, is_ok, is_end_file}
use pika.BinlogOffset.{BinlogOffset}
use pika.LogOffset.{LogOffset}
use pika.Transverter.{empty_item, type_first, binlog_item_without_content_decode}
use pika.Binlog.{Binlog}
use pika.BinlogReader.{Cursor, get}
use pika.BinlogReset.{delete_file}
use pika.SyncProgress.{SyncProgress}
use pika.SyncMaster.{binlog_cloud_purge}
use pika.Negotiate.{init_reader}
use pika.StableLog.{Disk, Store, store}

module _ (env : Env) (slash : Slash) (files : ℕ) where
  -- The loop of `UpdateFirstOffset`, with the place that was read last.
  unfoldable pub first_loop :
      ℕ → Binlog env → Cursor env → BinlogOffset → LogOffset → Option LogOffset
  first_loop zero b c place first = none
  first_loop (suc fuel) b c place first = elim (get env files b c place.filenum place.offset) [
    | none ↦ none
    | some r ↦
        let here : BinlogOffset = record { filenum = r.filenum; offset = r.offset } in
        let (good, item) =
          binlog_item_without_content_decode slash type_first r.scratch empty_item in
        elim (is_end_file r.status || not (is_ok r.status) || not good) [
          | true ↦ some first
          | false ↦ elim (item.exec_time == 0) [
            | true ↦ first_loop fuel b r.cursor here first
            | false ↦ some (record {
              b_offset = here;
              l_offset = record { term = item.term_id; index = item.logic_id };
            })
          ]
        ]
  ]

  -- `first_offset_` afterwards, from its value before; `rounds` bounds the items that are read.
  unfoldable pub update_first_offset : ℕ → Binlog env → ℕ → LogOffset → Option LogOffset
  unfolding first_loop
  update_first_offset rounds b filenum first =
      elim (init_reader env slash files rounds b (record { filenum = filenum; offset = 0 })) [
        | none ↦ none
        | some none ↦ some first
        | some (some c) ↦ first_loop rounds b c (record { filenum = 0; offset = 0 }) first
      ]

-- What `PurgeFiles` is called with and reads: `to` and `manual`, `expire_logs_nums`, and of which
-- file `stat` says that it is older than `expire_logs_days`.
pub record Expiry : Type 0 where
  pub to : ℕ
  pub manual : Bool
  pub expire_logs_nums : ℕ
  pub expired : ℕ → Bool

-- The condition of `PurgeFiles`, of `size` files with `delete_num` of them deleted.
unfoldable pub is_due : Expiry → ℕ → ℕ → ℕ → Bool
is_due e size delete_num n =
    (e.manual && leb n e.to)
    || (ltb (e.expire_logs_nums + delete_num) size || (ltb 10 (size - delete_num) && e.expired n))

module _ (env : Env) (disk : Disk env) where
  -- `BinlogCloudPurge` of the master partition, if there is one.
  unfoldable pub may_purge : Binlog env → Option (SyncProgress env) → ℕ → Bool
  may_purge b none n = false
  may_purge b (some s) n = binlog_cloud_purge env b s n

  -- The loop of `PurgeFiles`: false where it returns false, the files and `delete_num`.
  unfoldable pub purge_files_loop :
      Expiry → (ℕ → Bool) → ℕ → List ℕ → ℕ → Store env disk → Bool × Store env disk × ℕ
  unfolding is_due
  purge_files_loop e may size [] delete_num fs = (true, fs, delete_num)
  purge_files_loop e may size (n ∷ ns) delete_num fs = elim (is_due e size delete_num n) [
    | false ↦ (true, fs, delete_num)
    | true ↦ elim (may n) [
      | false ↦ (false, fs, delete_num)
      | true ↦ elim (is_ok (disk.delete_status n)) [
        | true ↦ purge_files_loop e may size ns (suc delete_num) (delete_file env n fs)
        | false ↦ purge_files_loop e may size ns delete_num fs
      ]
    ]
  ]

  module _ (slash : Slash) (files rounds : ℕ) (list_files : Binlog env → Option (List ℕ)) where
    -- The end of `PurgeFiles`: its result and `first_offset_`, `none` where the fuel ran out.
    unfoldable pub refresh_first : ℕ → Binlog env → LogOffset → Bool × Option LogOffset
    refresh_first zero b first = (true, some first)
    refresh_first (suc delete_num) b first = elim (list_files b) [
      | none ↦ (false, some first)
      | some [] ↦ (true, some first)
      | some (n ∷ ns) ↦ (true, update_first_offset env slash files rounds b n first)
    ]

    -- A file that is written and deleted stays open, and stays in the model.
    unfoldable pub purge_files :
        Expiry
        → Option (SyncProgress env)
        → Binlog env
        → LogOffset
        → Bool × Binlog env × Option LogOffset
    unfolding purge_files_loop refresh_first may_purge
    purge_files e master b first = elim (list_files b) [
      | none ↦ (false, b, some first)
      | some ns ↦
          let (went, fs, delete_num) =
            purge_files_loop e (may_purge b master) (length ns) ns 0 (store env disk b) in
          let b' = record b { older = delete_file env b.pro_num fs } in
          let (refreshed, first') = refresh_first delete_num b' first in
          if went then (refreshed, b', first') else (false, b', some first)
    ]
