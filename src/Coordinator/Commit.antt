-- ===== src/Coordinator/Commit.antt =====
-- `UpdateSlave` and `ProcessLocalUpdate`: what moves the committed index of a partition.
use pika.Prelude.{
  ℕ, ◌≡◌, ◌∙◌, refl, ap, sym, ◌⊎◌, inl, inr, true, false, List, arith, Bool-cases, Option-cases,
  if◌then◌else◌, ◌==◌, not, ◌&&◌,
}
use pika.Env.{Env}
use pika.Status.{is_ok, is_not_found}
use pika.BinlogOffset
use pika.LogOffset.{LogOffset, log_origin}
use pika.LogOffset
use pika.LogOffset.Order
use pika.Transverter.{BinlogItem}
use pika.SlaveNode
use pika.SyncProgress.{SyncProgress, get_slave_node, cal_committed_index}
use pika.SyncProgress
use pika.Coordinator.{
  Coordinator, internal_update_committed_index, schedule_apply_log, schedule_apply_follower_log,
  commit_index, update_slave, process_local_update,
}

lt-of-not-le : (a b : LogOffset) → LogOffset.le a b ≡ false → LogOffset.lt b a ≡ true
unfolding LogOffset.le LogOffset.lt BinlogOffset.le BinlogOffset.lt
lt-of-not-le a b h = ground arith

-- An acknowledgement that is taken reports the quorum's offset.
update_index :
    (env : Env) (s : SyncProgress env) (level : ℕ) (ip : List ℕ) (port : ℕ)
    (start end before : LogOffset)
    → is_ok (SyncProgress.update env s level ip port start end before).0 ≡ true
    → let r = SyncProgress.update env s level ip port start end before in
      r.2 ≡ cal_committed_index level r.1.match_index
unfolding SyncProgress.update
update_index env s level ip port start end before h =
    elim (Option-cases (get_slave_node env s ip port)) [
      | inl missing ↦ absurd (cc (rw (missing, SyncProgress.update) at h))
      | inr (n, found) ↦ elim (Bool-cases (is_ok (SlaveNode.update env n start end log_origin).0)) [
        | inl good ↦ rw (found, SyncProgress.update, good)
        | inr bad ↦ absurd (cc (bad, rw (found, SyncProgress.update, bad) at h))
      ]
    ]

module _ (env : Env) (Cmd : Type 0) (to_binlog : Cmd → BinlogItem → List ℕ) where
  schedule_apply_log_kept :
      (c : Coordinator env Cmd to_binlog) (index : LogOffset)
      → let c' = (schedule_apply_log env Cmd to_binlog c index).1 in
        (c'.committed_index ≡ c.committed_index) × (c'.sync_pros ≡ c.sync_pros)
  unfolding schedule_apply_log
  schedule_apply_log_kept c index = ground arith

  schedule_apply_follower_log_kept :
      (c : Coordinator env Cmd to_binlog) (index : LogOffset)
      → (schedule_apply_follower_log env Cmd to_binlog c index).1.committed_index
        ≡ c.committed_index
  unfolding schedule_apply_follower_log
  schedule_apply_follower_log_kept c index = ground arith

  commit_index_cases :
      (c : Coordinator env Cmd to_binlog) (index : LogOffset)
      → let c' = (commit_index env Cmd to_binlog c index).1 in
        (c'.sync_pros ≡ c.sync_pros)
        × ((c'.committed_index ≡ c.committed_index)
            ⊎ ((c'.committed_index ≡ index)
                × (index.l_offset.term ≡ c.term)
                × (LogOffset.lt c.committed_index index ≡ true)))
  unfolding commit_index internal_update_committed_index
  commit_index_cases c index =
      let moved = record c { committed_index = index } in
      let kept = schedule_apply_log_kept moved index in
      elim (Bool-cases (index.l_offset.term == c.term)) [
        | inr other ↦ rw other (refl, inl refl)
        | inl same ↦ elim (Bool-cases (LogOffset.le index c.committed_index)) [
          | inl late ↦ rw (same, late) (refl, inl refl)
          | inr new ↦
              let up = lt-of-not-le index c.committed_index new in
              let term_eq : index.l_offset.term ≡ c.term = ground arith in
              elim (Bool-cases (
                not (is_ok (schedule_apply_log env Cmd to_binlog moved index).0)
                && not (is_not_found (schedule_apply_log env Cmd to_binlog moved index).0))) [
                  | inl failed ↦ rw (same, new, failed) (kept.1, inr (kept.0, term_eq, up))
                  | inr passed ↦ rw (same, new, passed) (kept.1, inr (kept.0, term_eq, up))
                ]
        ]
      ]

  -- ProcessLocalUpdate never lowers the committed index.
  pub process_local_update-grows :
      (level : ℕ) (c : Coordinator env Cmd to_binlog) (leader_commit : LogOffset)
      → LogOffset.le c.committed_index
          (process_local_update env Cmd to_binlog level c leader_commit).1.committed_index
        ≡ true
  unfolding process_local_update internal_update_committed_index
  process_local_update-grows level c leader_commit =
      let last = c.mem_logger.last_offset in
      let index = if LogOffset.lt last leader_commit then last else leader_commit in
      let moved = record c { committed_index = index } in
      let kept = schedule_apply_follower_log_kept moved index in
      let same = Order.le_refl c.committed_index in
      elim (Bool-cases (level == 0)) [
        | inl off ↦ rw off same
        | inr on ↦ elim (Bool-cases (LogOffset.le index c.committed_index)) [
          | inl late ↦ rw (on, late) same
          | inr new ↦
              let up =
                Order.le-of-lt c.committed_index index (lt-of-not-le index c.committed_index new) in
              elim (Bool-cases
                (is_ok (schedule_apply_follower_log env Cmd to_binlog moved index).0)) [
                  | inl good ↦ rw (on, new, good, kept) up
                  | inr bad ↦ rw (on, new, bad, kept) up
                ]
        ]
      ]

  -- UpdateSlave leaves the committed index where it is, or moves it up to the quorum's offset of
  -- the progress as it is then, and only if that offset is of the present term.
  pub update_slave-Committed :
      (level : ℕ) (c : Coordinator env Cmd to_binlog) (ip : List ℕ) (port : ℕ)
      (start end : LogOffset)
      → let c' = (update_slave env Cmd to_binlog level c ip port start end).1 in
        (c'.committed_index ≡ c.committed_index)
        ⊎ ((c'.committed_index ≡ cal_committed_index level c'.sync_pros.match_index)
            × (c'.committed_index.l_offset.term ≡ c.term)
            × (LogOffset.lt c.committed_index c'.committed_index ≡ true))
  unfolding update_slave
  update_slave-Committed level c ip port start end =
      let r = SyncProgress.update env c.sync_pros level ip port start end log_origin in
      let updated = record c { sync_pros = r.1 } in
      elim (Bool-cases (is_ok r.0)) [
        | inr bad ↦ rw bad (inl refl)
        | inl good ↦ elim (Bool-cases (level == 0)) [
          | inl off ↦ rw (good, off) (inl refl)
          | inr on ↦
              let (kept, moves) = commit_index_cases updated r.2 in
              let quorum = update_index env c.sync_pros level ip port start end log_origin good in
              rw (good, on)
                (elim moves [
                  | inl same ↦ inl same
                  | inr (e, term_eq, up) ↦ inr (
                    e
                        ∙ quorum
                        ∙ ap (λ (p : SyncProgress env). cal_committed_index level p.match_index)
                            (sym kept),
                    ap (λ (o : LogOffset). o.l_offset.term) e ∙ term_eq,
                    rw e up,
                  )
                ])
        ]
      ]
