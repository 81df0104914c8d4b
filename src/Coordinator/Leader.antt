-- ===== src/Coordinator/Leader.antt =====
-- `ProcessLeaderLog`: what a follower makes of the logs that its leader sends.
use pika.Prelude.{
  ℕ, ◌≡◌, ◌<◌, ◌≤◌, inl, inr, Bool-cases, false, List, [], ◌∷◌, ◌++◌, some, arith, ltb, ◌==◌,
  if◌then◌else◌,
}
use pika.Env.{Env}
use pika.Status.{Status, ok, is_ok}
use pika.LogOffset.{log_origin}
use pika.Transverter.{BinlogItem}
use pika.Binlog.{Binlog, put}
use pika.MemLog.{append_log}
use pika.Coordinator.{
  Coordinator, written_offset, append_log_item, internal_append_log, apply_leader_log,
  process_leader_log,
}

module _ (env : Env) (Cmd : Type 0) (to_binlog : Cmd → BinlogItem → List ℕ) where
  -- A leader's log whose index is not below the last one and whose write fails is reported as OK,
  -- is not appended in memory, and is applied if consensus is off; its table is told of the error.
  pub process_leader_log_failed :
      (level : ℕ) (clock : ℕ → ℕ) (c : Coordinator env Cmd to_binlog) (cmd : Cmd)
      (attribute : BinlogItem) (s : Status) (logger : Binlog env)
      → c.mem_logger.last_offset.l_offset.index ≤ attribute.logic_id
      → put env clock c.logger (to_binlog cmd attribute) ≡ some (s, logger)
      → is_ok s ≡ false
      → process_leader_log env Cmd to_binlog level clock c cmd attribute
        ≡ some (
          ok,
          if level == 0
              then record c {
                logger = logger;
                failed_cmds = c.failed_cmds ++ (cmd ∷ []);
                write_db_tasks =
                    c.write_db_tasks ++ (record { offset = log_origin; payload = cmd } ∷ []);
              }
              else record c { logger = logger; failed_cmds = c.failed_cmds ++ (cmd ∷ []) },
        )
  unfolding process_leader_log internal_append_log append_log_item apply_leader_log
  process_leader_log_failed level clock c cmd attribute s logger late e bad =
      let kept : ltb attribute.logic_id c.mem_logger.last_offset.l_offset.index ≡ false =
        ground arith in
      elim (Bool-cases (level == 0)) [
        | inl off ↦ rw (kept, e, bad, off)
        | inr on ↦ rw (kept, e, bad, on)
      ]

  -- With consensus on, a leader's log of the same index as the last one is appended again once its
  -- write succeeds.
  pub process_leader_log_again :
      (level : ℕ) (clock : ℕ → ℕ) (c : Coordinator env Cmd to_binlog) (cmd : Cmd)
      (attribute : BinlogItem) (logger : Binlog env)
      → attribute.logic_id ≡ c.mem_logger.last_offset.l_offset.index
      → 0 < level
      → put env clock c.logger (to_binlog cmd attribute) ≡ some (ok, logger)
      → process_leader_log env Cmd to_binlog level clock c cmd attribute
        ≡ some (
          ok,
          record c {
            logger = logger;
            mem_logger = append_log Cmd c.mem_logger (record {
              offset = written_offset env Cmd to_binlog logger attribute;
              payload = cmd;
            });
          },
        )
  unfolding process_leader_log internal_append_log append_log_item apply_leader_log
  process_leader_log_again level clock c cmd attribute logger same on e =
      let kept : ltb attribute.logic_id c.mem_logger.last_offset.l_offset.index ≡ false =
        ground arith in
      let on' : (level == 0) ≡ false = ground arith in rw (kept, e, on')
