-- ===== src/TrySync.antt =====
-- How a master answers a slave that asks to go on from an offset, without consensus:
-- `TrySyncOffsetCheck` and `TrySyncUpdateSlaveNode` of src/pika_repl_server_conn.cc, and the sessions
-- of `SyncMasterPartition` in src/pika_rm.cc.
pub mod Accept
use pika.Prelude.{
  ℕ, ◌+◌, ◌-◌, ◌%◌, ◌^◌, Bool, true, false, ◌&&◌, ◌||◌, not, List, [], Option, some, none, ltb,
  ◌==◌, if◌then◌else◌,
}
use pika.Prelude.Table.{is_some}
use mathlib.Core.Option
use pika.Env.{Env}
use pika.Status.{Status, is_ok}
use pika.Transverter.{BinlogItem}
use pika.Binlog.{Binlog, get_producer_status}
use pika.BinlogReader.{find_file}
use pika.BinlogSeek.{Sought, seek}
use pika.SyncProgress.{get_slave_node}
use pika.Coordinator
use pika.SyncMaster.{check_slave_node_exist, get_slave_node_session}
use pika.ReplicaManager.{Master}

-- `InnerResponse::TrySync::ReplyCode` of src/pika_inner_message.proto.
pub data ReplyCode : Type 0 where
  reply_ok sync_point_be_purged sync_point_larger reply_error : ReplyCode

module _ (env : Env) where
  -- What the check does with a reader that `Seek` left: the status of `Seek` is not looked at. A new
  -- reader stands at 0 of file 0.
  unfoldable pub check_reader : ℕ → ℕ → Option (Sought env) → Bool × ReplyCode
  check_reader filenum offset none =
      if not (filenum == 0) || not (offset == 0) then (false, reply_error) else (true, reply_error)
  check_reader filenum offset (some s) =
      if not (s.cursor.cur_filenum == filenum) || not (s.cursor.cur_offset == offset)
      then (false, reply_error)
      else (true, reply_error)

  -- `TrySyncOffsetCheck`: what is returned and the reply code, which was `kError` before.
  unfoldable pub try_sync_offset_check : Binlog env → ℕ → ℕ → Option (Bool × ReplyCode)
  unfolding check_reader
  try_sync_offset_check b filenum offset =
      let (s, v) = get_producer_status env b in
      if not (is_ok s)
      then some (false, reply_error)
      else if ltb v.pro_num filenum || (v.pro_num == filenum && ltb v.pro_offset offset)
      then some (false, sync_point_larger)
      else if not (is_some (find_file env b filenum))
      then some (false, sync_point_be_purged)
      else Option.map (check_reader filenum offset) (seek env b filenum offset)

-- `GenSessionId`, an `int32_t` that is kept as its word: what is returned, and the next one.
unfoldable pub gen_session_id : ℕ → ℕ × ℕ
gen_session_id session_id = (session_id, (session_id + 1) % 2 ^ 32)

module _ (env : Env) (Cmd : Type 0) (to_binlog : Cmd → BinlogItem → List ℕ) where
  -- `CheckSessionId`; the table and the partition only go to the log.
  unfoldable pub check_session_id : Master env Cmd to_binlog → List ℕ → ℕ → ℕ → Bool
  check_session_id m ip port session_id =
      elim (get_slave_node env m.coordinator.sync_pros ip port) [
        | none ↦ false
        | some n ↦ if not (session_id == n.session_id) then false else true
      ]

  -- What `TrySyncUpdateSlaveNode` returns, with the reply code and the session of the response, which
  -- is 0 where it is not set, and the master.
  pub record Joined : Type 0 where
    pub success : Bool
    pub reply_code : ReplyCode
    pub session_id : ℕ
    pub master : Master env Cmd to_binlog

  -- A slave that is not known joins under a new session, one that is keeps its own.
  unfoldable pub try_sync_update_slave_node : ℕ → Master env Cmd to_binlog → List ℕ → ℕ → Joined
  unfolding gen_session_id
  try_sync_update_slave_node now m ip port =
      let (session_id, next) = gen_session_id m.session_id in
      let generated = record m { session_id = next } in
      let (s, c) =
        Coordinator.add_slave_node env Cmd to_binlog m.coordinator ip port session_id now in
      let added = record generated { coordinator = c } in
      let (status, session) = get_slave_node_session env m.coordinator.sync_pros ip port 0 in
      if not (check_slave_node_exist env m.coordinator.sync_pros ip port)
      then (if session_id == 2 ^ 32 - 1
          then record {
            success = false;
            reply_code = reply_error;
            session_id = 0;
            master = generated;
          }
          else if not (is_ok s)
          then record {
            success = false;
            reply_code = reply_error;
            session_id = session_id;
            master = added;
          }
          else record {
            success = true;
            reply_code = reply_ok;
            session_id = session_id;
            master = added;
          })
      else if not (is_ok status)
      then record { success = false; reply_code = reply_error; session_id = 0; master = m }
      else record { success = true; reply_code = reply_ok; session_id = session; master = m }
