-- ===== src/Coordinator/Pipeline.antt =====
-- `ScheduleApplyLog` and its callers: the way of a log item from the memory log to the applied index.
use pika.Prelude.{
  ℕ, ◌≡◌, ◌∙◌, refl, inl, inr, true, List, [], ◌∷◌, Bool-cases, if◌then◌else◌, ◌==◌, not, ◌&&◌,
}
use pika.Env.{Env}
use pika.Status.{is_ok, is_not_found}
use pika.LogOffset.{LogOffset, log_origin}
use pika.LogOffset
use pika.LogOffset.Order
use pika.Transverter.{BinlogItem}
use pika.SyncWindow.{new_item}
use pika.SyncWindow
use pika.SyncWindow.Offsets
use pika.SyncProgress.{SyncProgress}
use pika.SyncProgress
use pika.Context.{Context, prepare_update_applied_index}
use pika.Context.Applied.{IsContiguous, prepare-IsContiguous}
use pika.MemLog.{LogItem, purge_logs}
use pika.MemLog.Order.{Above, last_or, Follows}
use pika.MemLog.Purge.{purge_logs_cases}
use pika.Coordinator.{
  Coordinator, internal_update_committed_index, prepare_logs, schedule_apply_log,
  schedule_apply_follower_log, commit_index, update_slave, process_local_update,
}

-- The last offset that is scheduled, or the applied index if all of them are applied.
abbrev pub scheduled : Context → LogOffset
scheduled x = Offsets.last_or x.applied_index x.applied_win.win

prepared :
    (x : Context) (o : LogOffset)
    → IsContiguous x
    → LogOffset.lt (scheduled x) o ≡ true
    → scheduled (prepare_update_applied_index x o) ≡ o
unfolding prepare_update_applied_index SyncWindow.push
prepared x o h lt =
    (Offsets.Above-append x.applied_index x.applied_win.win (new_item o 0) h.rising lt).1

module _ (env : Env) (Cmd : Type 0) (to_binlog : Cmd → BinlogItem → List ℕ) where
  abbrev C : Type 0
  C = Coordinator env Cmd to_binlog

  -- The logs that a commit schedules, one after the other.
  record Scheduled (x x' : Context) (end : LogOffset) : Type 0 where
    pub contiguous : IsContiguous x'
    pub last : scheduled x' ≡ end
    pub applied : x'.applied_index ≡ x.applied_index

  prepare_logs-Scheduled :
      (x : Context) (logs : List (LogItem Cmd))
      → IsContiguous x
      → Above Cmd (scheduled x) logs
      → Scheduled x (prepare_logs env Cmd to_binlog x logs) (last_or Cmd (scheduled x) logs)
  unfolding prepare_logs
  prepare_logs-Scheduled x [] h a = record { contiguous = h; last = refl; applied = refl }
  prepare_logs-Scheduled x (log ∷ logs) h a =
      let x1 = prepare_update_applied_index x log.offset in
      let e : scheduled x1 ≡ log.offset = prepared x log.offset h a.0 in
      let rest =
        prepare_logs-Scheduled x1 logs (prepare-IsContiguous x log.offset h a.0) (rw e a.1) in
      record {
        contiguous = rest.contiguous;
        last = rest.last ∙ rw e;
        applied = rest.applied ∙ unfold prepare_update_applied_index in refl;
      }

  -- From the applied index on, what is scheduled and what the memory log holds rises without a gap
  -- in between: the memory log begins where the schedule ends.
  pub record Sound (c : C) : Type 0 where
    pub contiguous : IsContiguous c.context
    pub follows : Follows Cmd (scheduled c.context) c.mem_logger

  schedule_apply_log-Sound :
      (c : C) (index : LogOffset)
      → Sound c
      → let c' = (schedule_apply_log env Cmd to_binlog c index).1 in
        Sound c' × (c'.context.applied_index ≡ c.context.applied_index)
  unfolding schedule_apply_log
  schedule_apply_log-Sound c index h =
      elim (purge_logs_cases Cmd (scheduled c.context) c.mem_logger index [] h.follows) [
        | inr (e, absent) ↦ rw e (h, refl)
        | inl (e, p) ↦
            let s =
              prepare_logs-Scheduled c.context (purge_logs Cmd c.mem_logger index []).2 h.contiguous
                p.gone_rising in
            rw e (
              record { contiguous = s.contiguous; follows = rw (s.last) p.left_follows },
              s.applied,
            )
      ]

  schedule_apply_follower_log-Sound :
      (c : C) (index : LogOffset)
      → Sound c
      → let c' = (schedule_apply_follower_log env Cmd to_binlog c index).1 in
        Sound c' × (c'.context.applied_index ≡ c.context.applied_index)
  unfolding schedule_apply_follower_log
  schedule_apply_follower_log-Sound c index h =
      elim (purge_logs_cases Cmd (scheduled c.context) c.mem_logger index [] h.follows) [
        | inr (e, absent) ↦ rw e (h, refl)
        | inl (e, p) ↦
            let s =
              prepare_logs-Scheduled c.context (purge_logs Cmd c.mem_logger index []).2 h.contiguous
                p.gone_rising in
            rw e (
              record { contiguous = s.contiguous; follows = rw (s.last) p.left_follows },
              s.applied,
            )
      ]

  -- What a step leaves: a sound coordinator, whose committed and applied indices did not fall.
  pub record Grows (c c' : C) : Type 0 where
    pub sound : Sound c'
    pub committed : LogOffset.le c.committed_index c'.committed_index ≡ true
    pub applied : LogOffset.le c.context.applied_index c'.context.applied_index ≡ true

  pub Grows-same :
      (c c' : C)
      → Sound c'
      → c'.committed_index ≡ c.committed_index
      → c'.context.applied_index ≡ c.context.applied_index
      → Grows c c'
  Grows-same c c' h e k = record {
    sound = h;
    committed = rw e (Order.le_refl c.committed_index);
    applied = rw k (Order.le_refl c.context.applied_index);
  }

  pub Grows-refl : (c : C) → Sound c → Grows c c
  Grows-refl c h = record {
    sound = h;
    committed = Order.le_refl c.committed_index;
    applied = Order.le_refl c.context.applied_index;
  }

  pub Grows-trans : (a b c : C) → Grows a b → Grows b c → Grows a c
  Grows-trans a b c h k = record {
    sound = k.sound;
    committed =
        Order.le_trans a.committed_index b.committed_index c.committed_index h.committed
          k.committed;
    applied =
        Order.le_trans a.context.applied_index b.context.applied_index c.context.applied_index
          h.applied k.applied;
  }

  -- Both halves of a commit: the sound coordinator and the applied index, which stays.
  abbrev KeepsApplied : C → C → Type 0
  KeepsApplied c c' = Sound c' × (c'.context.applied_index ≡ c.context.applied_index)

  commit_index-Sound :
      (c : C) (index : LogOffset)
      → Sound c
      → KeepsApplied c (commit_index env Cmd to_binlog c index).1
  unfolding commit_index internal_update_committed_index
  commit_index-Sound c index h =
      let moved : C = record c { committed_index = index } in
      let s =
        schedule_apply_log-Sound moved index
          (record { contiguous = h.contiguous; follows = h.follows }) in
      elim (Bool-cases (index.l_offset.term == c.term)) [
        | inr other ↦ rw other (h, refl)
        | inl same ↦ elim (Bool-cases (LogOffset.le index c.committed_index)) [
          | inl late ↦ rw (same, late) (h, refl)
          | inr new ↦
              elim (Bool-cases (
                not (is_ok (schedule_apply_log env Cmd to_binlog moved index).0)
                && not (is_not_found (schedule_apply_log env Cmd to_binlog moved index).0))) [
                  | inl failed ↦ rw (same, new, failed) s
                  | inr passed ↦ rw (same, new, passed) s
                ]
        ]
      ]

  pub update_slave-Sound :
      (level : ℕ) (c : C) (ip : List ℕ) (port : ℕ) (start end : LogOffset)
      → Sound c
      → KeepsApplied c (update_slave env Cmd to_binlog level c ip port start end).1
  unfolding update_slave
  update_slave-Sound level c ip port start end h =
      let r = SyncProgress.update env c.sync_pros level ip port start end log_origin in
      let updated : C = record c { sync_pros = r.1 } in
      let same : Sound updated = record { contiguous = h.contiguous; follows = h.follows } in
      let s = commit_index-Sound updated r.2 same in
      elim (Bool-cases (is_ok r.0)) [
        | inr bad ↦ rw bad (same, refl)
        | inl good ↦ elim (Bool-cases (level == 0)) [
          | inl off ↦ rw (good, off) (same, refl)
          | inr on ↦ rw (good, on) s
        ]
      ]

  pub process_local_update-Sound :
      (level : ℕ) (c : C) (leader_commit : LogOffset)
      → Sound c
      → KeepsApplied c (process_local_update env Cmd to_binlog level c leader_commit).1
  unfolding process_local_update internal_update_committed_index
  process_local_update-Sound level c leader_commit h =
      let last = c.mem_logger.last_offset in
      let index = if LogOffset.lt last leader_commit then last else leader_commit in
      let moved : C = record c { committed_index = index } in
      let s =
        schedule_apply_follower_log-Sound moved index
          (record { contiguous = h.contiguous; follows = h.follows }) in
      elim (Bool-cases (level == 0)) [
        | inl off ↦ rw off (h, refl)
        | inr on ↦ elim (Bool-cases (LogOffset.le index c.committed_index)) [
          | inl late ↦ rw (on, late) (h, refl)
          | inr new ↦
              elim (Bool-cases
                (is_ok (schedule_apply_follower_log env Cmd to_binlog moved index).0)) [
                  | inl good ↦ rw (on, new, good) s
                  | inr bad ↦ rw (on, new, bad) s
                ]
        ]
      ]
