-- ===== src/Coordinator.antt =====
-- `ConsensusCoordinator` of include/pika_consensus.h and src/pika_consensus.cc, with the first offset
-- that its `StableLog` keeps: the log of a partition from a proposal to its application.
pub mod Commit
pub mod Pipeline
pub mod Events
pub mod Leader
pub mod Propose
use pika.Prelude.{
  ℕ, ◌+◌, ◌%◌, ◌^◌, Bool, true, false, ◌&&◌, List, [], ◌∷◌, ◌++◌, Option, none, some, not, ltb, leb,
  ◌==◌, if◌then◌else◌,
}
use mathlib.Core.Option
use pika.Env.{Env}
use pika.Status.{Status, ok, not_found, incomplete, is_ok, is_not_found}
use pika.BinlogOffset
use pika.LogOffset.{LogOffset, log_origin}
use pika.LogOffset
use pika.Binlog.{Binlog, put, get_producer_status, set_term}
use pika.BinlogReset.{set_producer_status}
use pika.Transverter.{BinlogItem}
use pika.Context.{Context, prepare_update_applied_index}
use pika.Context
use pika.MemLog.{LogItem, MemLog, append_log, purge_logs}
use pika.MemLog
use pika.SyncProgress.{SyncProgress, slave_size}
use pika.SyncProgress

-- `Cmd` is what the program keeps of a command, with its connection and its response; `to_binlog`
-- is `Cmd::ToBinlog`, which each command may override: it takes the attributes of the item.
module _ (env : Env) (Cmd : Type 0) (to_binlog : Cmd → BinlogItem → List ℕ) where
  -- `client_tasks` and `write_db_tasks` hold the log items that were handed to the threads of
  -- `InternalApply` and of `InternalApplyFollower`, the first one first. `failed_cmds` has the commands
  -- that could not be put into the log: `SetBinlogIoError` is called on the table of each.
  pub record Coordinator : Type 0 where
    pub table_name : List ℕ
    pub partition_id : ℕ
    pub committed_index : LogOffset
    pub context : Context
    pub term : ℕ
    pub sync_pros : SyncProgress env
    pub logger : Binlog env
    pub first_offset : LogOffset
    pub mem_logger : MemLog Cmd
    pub client_tasks : List (LogItem Cmd)
    pub write_db_tasks : List (LogItem Cmd)
    pub failed_cmds : List Cmd

  abbrev pub Step : Type 0
  Step = Status × Coordinator

  unfoldable pub update_term : Coordinator → ℕ → Coordinator
  update_term c term = record c { term = term; logger = set_term env c.logger term }

  -- `Reset`, at time `now`.
  unfoldable pub reset : ℕ → Coordinator → LogOffset → Step
  reset now c offset =
      let c1 = record c { context = Context.reset c.context offset; committed_index = offset } in
      let c2 = update_term c1 offset.l_offset.term in
      let (s, logger) =
        set_producer_status env now c2.logger offset.b_offset.filenum offset.b_offset.offset
          offset.l_offset.term offset.l_offset.index in
      let c3 = record c2 { logger = logger } in
      if is_ok s
      then (
        ok,
        record c3 { first_offset = offset; mem_logger = MemLog.reset Cmd c3.mem_logger offset },
      )
      else (s, c3)

  -- The offset of an item that was put: the producer's place, and the item's own term and index.
  unfoldable pub written_offset : Binlog env → BinlogItem → LogOffset
  written_offset logger item =
      let v = (get_producer_status env logger).1 in
      record {
        b_offset = record { filenum = v.pro_num; offset = v.pro_offset };
        l_offset = record { term = item.term_id; index = item.logic_id };
      }

  -- The end of `InternalAppendBinlog` where the item could not be put.
  abbrev pub set_binlog_io_error : Coordinator → Cmd → Coordinator
  set_binlog_io_error c cmd = record c { failed_cmds = c.failed_cmds ++ (cmd ∷ []) }

  -- What `InternalAppendLog` does once `InternalAppendBinlog` has put the item.
  unfoldable pub append_log_item : ℕ → Coordinator → BinlogItem → Cmd → Status × Binlog env → Step
  append_log_item consensus_level c item cmd (s, logger) =
      let c1 = record c { logger = logger } in
      let entry : LogItem Cmd = record { offset = written_offset logger item; payload = cmd } in
      if is_ok s
      then (if consensus_level == 0
          then (ok, c1)
          else (ok, record c1 { mem_logger = append_log Cmd c.mem_logger entry }))
      else (s, set_binlog_io_error c1 cmd)

  -- `InternalAppendLog`; `clock` is what the log's writer reads.
  unfoldable pub internal_append_log : ℕ → (ℕ → ℕ) → Coordinator → BinlogItem → Cmd → Option Step
  internal_append_log consensus_level clock c item cmd =
      Option.map (append_log_item consensus_level c item cmd)
        (put env clock c.logger (to_binlog cmd item))

  -- The attributes of an item that is proposed at time `now`.
  unfoldable pub proposed_item : ℕ → Binlog env → BinlogItem
  proposed_item now logger =
      let v = (get_producer_status env logger).1 in
      record {
        exec_time = now;
        term_id = v.term;
        logic_id = (v.logic_id + 1) % 2 ^ 64;
        filenum = v.pro_num;
        offset = v.pro_offset;
        content = [];
      }

  unfoldable pub propose_log : ℕ → (ℕ → ℕ) → ℕ → Coordinator → Cmd → Option Step
  propose_log consensus_level clock now c cmd =
      let s = (get_producer_status env c.logger).0 in
      let appended = internal_append_log consensus_level clock c (proposed_item now c.logger) cmd in
      if is_ok s then appended else some (s, c)

  -- What `ProcessLeaderLog` does once the log is appended, or not: the status is not looked at.
  unfoldable pub apply_leader_log : ℕ → Cmd → Step → Step
  apply_leader_log consensus_level cmd (s, c) =
      let entry : LogItem Cmd = record { offset = log_origin; payload = cmd } in
      if consensus_level == 0
      then (ok, record c { write_db_tasks = c.write_db_tasks ++ (entry ∷ []) })
      else (ok, c)

  unfoldable pub process_leader_log : ℕ → (ℕ → ℕ) → Coordinator → Cmd → BinlogItem → Option Step
  process_leader_log consensus_level clock c cmd attribute =
      let appended =
        Option.map (apply_leader_log consensus_level cmd)
          (internal_append_log consensus_level clock c attribute cmd) in
      if ltb attribute.logic_id c.mem_logger.last_offset.l_offset.index
      then some (ok, c)
      else appended

  -- Whether the index moves, and the coordinator afterwards.
  unfoldable pub internal_update_committed_index : Coordinator → LogOffset → Bool × Coordinator
  internal_update_committed_index c index =
      if LogOffset.le index c.committed_index
      then (false, c)
      else (true, record c { committed_index = index })

  -- The loop of `ScheduleApplyLog` over the purged logs, as far as the context goes.
  unfoldable pub prepare_logs : Context → List (LogItem Cmd) → Context
  prepare_logs context [] = context
  prepare_logs context (log ∷ logs) =
      prepare_logs (prepare_update_applied_index context log.offset) logs

  unfoldable pub schedule_apply_log : Coordinator → LogOffset → Step
  schedule_apply_log c index =
      let (s, mem_logger, logs) = purge_logs Cmd c.mem_logger index [] in
      if is_ok s
      then (
        ok,
        record c {
          mem_logger = mem_logger;
          context = prepare_logs c.context logs;
          client_tasks = c.client_tasks ++ logs;
        },
      )
      else (not_found, c)

  unfoldable pub schedule_apply_follower_log : Coordinator → LogOffset → Step
  schedule_apply_follower_log c index =
      let (s, mem_logger, logs) = purge_logs Cmd c.mem_logger index [] in
      if is_ok s
      then (
        ok,
        record c {
          mem_logger = mem_logger;
          context = prepare_logs c.context logs;
          write_db_tasks = c.write_db_tasks ++ logs;
        },
      )
      else (not_found, c)

  unfoldable pub process_local_update : ℕ → Coordinator → LogOffset → Step
  process_local_update consensus_level c leader_commit =
      let last_index = c.mem_logger.last_offset in
      let index = if LogOffset.lt last_index leader_commit then last_index else leader_commit in
      let (need_update, c1) = internal_update_committed_index c index in
      let (s, c2) = schedule_apply_follower_log c1 index in
      if consensus_level == 0
      then (ok, c)
      else if need_update
      then (if is_ok s then (ok, c2) else (s, c2))
      else (ok, c1)

  -- The second half of `UpdateSlave`: the quorum's offset is committed if it is of this term.
  unfoldable pub commit_index : Coordinator → LogOffset → Step
  commit_index c index =
      let (need_update, c1) = internal_update_committed_index c index in
      let (s, c2) = schedule_apply_log c1 index in
      if not (index.l_offset.term == c.term)
      then (ok, c)
      else if need_update
      then (if not (is_ok s) && not (is_not_found s) then (s, c2) else (ok, c2))
      else (ok, c1)

  unfoldable pub update_slave : ℕ → Coordinator → List ℕ → ℕ → LogOffset → LogOffset → Step
  update_slave consensus_level c ip port start end =
      let (s, sync_pros, index) =
        SyncProgress.update env c.sync_pros consensus_level ip port start end log_origin in
      let c1 = record c { sync_pros = sync_pros } in
      if is_ok s
      then (if consensus_level == 0 then (ok, c1) else commit_index c1 index)
      else (s, c1)

  unfoldable pub match_consensus_level : ℕ → Coordinator → Bool
  match_consensus_level consensus_level c = leb consensus_level (slave_size env c.sync_pros)

  unfoldable pub check_enough_follower : ℕ → Coordinator → Status
  unfolding match_consensus_level
  check_enough_follower consensus_level c =
      if match_consensus_level consensus_level c then ok else incomplete

  unfoldable pub add_slave_node : Coordinator → List ℕ → ℕ → ℕ → ℕ → Step
  add_slave_node c ip port session_id now =
      let (s, sync_pros) =
        SyncProgress.add_slave_node env c.sync_pros ip port c.table_name c.partition_id session_id
          now in
      (s, record c { sync_pros = sync_pros })

  unfoldable pub remove_slave_node : Coordinator → List ℕ → ℕ → Step
  remove_slave_node c ip port =
      let (s, sync_pros) = SyncProgress.remove_slave_node env c.sync_pros ip port in
      (s, record c { sync_pros = sync_pros })

  -- `ConsensusUpdateAppliedIndex` of src/pika_rm.cc.
  unfoldable pub update_applied_index : Coordinator → LogOffset → Coordinator
  update_applied_index c offset = record c {
    context = Context.update_applied_index c.context offset;
  }
