-- ===== src/TrySync/Accept.antt =====
-- Which offsets `TrySyncOffsetCheck` accepts.
use pika.Prelude.{
  ℕ, ◌<◌, ◌≡◌, refl, ◌⊎◌, inl, inr, Bool, true, false, ◌&&◌, ◌||◌, some, none, arith, drop,
  Bool-cases, Option-cases, ◌==◌, ltb,
}
use pika.Env.{Env, EnvLaws}
use pika.Binlog.{Binlog, get_producer_status}
use pika.BinlogReader.{find_file}
use pika.BinlogSeek.{Sought, seek}
use pika.BinlogSeek.Stand.{seek-Stands}
use pika.TrySync.{
  try_sync_offset_check, check_reader, reply_error, sync_point_larger, sync_point_be_purged,
}

module _ (env : Env) where
  -- Whether the offset lies behind the end of the log.
  abbrev pub is_larger : Binlog env → ℕ → ℕ → Bool
  is_larger b filenum offset =
      ltb b.version.pro_num filenum
      || (b.version.pro_num == filenum && ltb b.version.pro_offset offset)

module _ (env : Env) (laws : EnvLaws env) where
  open env use {unread, contents}

  -- On an open log TrySyncOffsetCheck refuses an offset behind the end, and one whose file is
  -- gone, with the reply code of each. Of the others it accepts those where Seek stands exactly at
  -- the offset, refuses those where Seek went past it, and accepts all those where Seek failed.
  pub try_sync_offset_check_cases :
      (b : Binlog env) (filenum offset : ℕ)
      → b.opened ≡ true
      → ((is_larger env b filenum offset ≡ true)
          × (try_sync_offset_check env b filenum offset ≡ some (false, sync_point_larger)))
        ⊎ ((is_larger env b filenum offset ≡ false)
            × (find_file env b filenum ≡ none)
            × (try_sync_offset_check env b filenum offset ≡ some (false, sync_point_be_purged)))
        ⊎ ((f : env.File) × (s : Sought env) × (is_larger env b filenum offset ≡ false)
            × (find_file env b filenum ≡ some f)
            × (seek env b filenum offset ≡ some (some s))
            × (((s.failed ≡ true)
                  × (try_sync_offset_check env b filenum offset ≡ some (true, reply_error)))
                ⊎ ((s.failed ≡ false)
                    × (unread s.cursor.queue ≡ drop offset (contents f))
                    × (try_sync_offset_check env b filenum offset ≡ some (true, reply_error)))
                ⊎ ((s.failed ≡ false)
                    × (offset < s.cursor.cur_offset)
                    × (try_sync_offset_check env b filenum offset ≡ some (false, reply_error)))))
  unfolding try_sync_offset_check get_producer_status check_reader
  try_sync_offset_check_cases b filenum offset opened =
      elim (Bool-cases (is_larger env b filenum offset)) [
        | inl larger ↦ inl (larger, rw (opened, larger) refl)
        | inr within ↦ elim (Option-cases (find_file env b filenum)) [
          | inl missing ↦ inr (inl (within, missing, rw (missing, opened, within) refl))
          | inr (f, there) ↦
              let s = seek-Stands env laws b filenum offset f there in
              inr (
                inr (
                  f,
                  s.0,
                  within,
                  there,
                  s.1,
                  elim s.3 [
                    | inl (failed, stayed) ↦
                        inl (failed, rw (there, s.1, opened, within) (ground (arith, s.2, stayed)))
                    | inr (good, reached, stands) ↦
                        elim (Bool-cases (s.0.cursor.cur_offset == offset)) [
                          | inl exact ↦
                              let e : s.0.cursor.cur_offset ≡ offset = ground (arith, exact) in
                              inr (
                                inl (
                                  good,
                                  rw e at stands,
                                  rw (there, s.1, opened, within) (ground (arith, s.2, e)),
                                ))
                          | inr past ↦
                              let beyond : offset < s.0.cursor.cur_offset =
                                ground (arith, past, reached) in
                              inr (
                                inr (
                                  good,
                                  beyond,
                                  rw (there, s.1, opened, within) (ground (arith, s.2, beyond)),
                                ))
                        ]
                  ],
                ))
        ]
      ]
