-- ===== src/Coordinator/Events.antt =====
-- The operations of a coordinator as steps, and sequences of them.
use pika.Prelude.{some, ℕ, ◌≡◌, refl, inl, inr, true, List, Bool-cases, ◌==◌}
use pika.Env.{Env}
use pika.Status.{Status, is_ok}
use pika.LogOffset.{LogOffset, log_origin}
use pika.LogOffset
use pika.LogOffset.Order
use pika.Transverter.{BinlogItem}
use pika.Binlog.{Binlog, put}
use pika.Context.Applied.{update_applied_index-Advances}
use pika.MemLog.Order.{append_log-Follows}
use pika.Coordinator.{
  Coordinator, written_offset, append_log_item, update_slave, process_local_update, add_slave_node,
  remove_slave_node, update_applied_index,
}
use pika.Coordinator.Pipeline.{
  scheduled, Sound, Grows, Grows-same, Grows-refl, Grows-trans, update_slave-Sound,
  process_local_update-Sound,
}
use pika.Coordinator.Commit.{update_slave-Committed, process_local_update-grows}

module _ (env : Env) (Cmd : Type 0) (to_binlog : Cmd → BinlogItem → List ℕ) where
  abbrev C : Type 0
  C = Coordinator env Cmd to_binlog

  -- A log item is appended above the last offset of the memory log, or not at all.
  pub append_log_item-Sound :
      (level : ℕ) (c : C) (item : BinlogItem) (cmd : Cmd) (s : Status) (logger : Binlog env)
      → LogOffset.lt c.mem_logger.last_offset (written_offset env Cmd to_binlog logger item) ≡ true
      → Sound env Cmd to_binlog c
      → Grows env Cmd to_binlog c (append_log_item env Cmd to_binlog level c item cmd (s, logger)).1
  unfolding append_log_item
  append_log_item-Sound level c item cmd s logger lt h =
      let same : Sound env Cmd to_binlog (record c { logger = logger }) = record {
        contiguous = h.contiguous;
        follows = h.follows;
      } in
      elim (Bool-cases (is_ok s)) [
        | inr bad ↦ rw bad (
            Grows-same env Cmd to_binlog c _
              (record { contiguous = h.contiguous; follows = h.follows }) refl refl)
        | inl good ↦ elim (Bool-cases (level == 0)) [
          | inl off ↦ rw (good, off) (Grows-same env Cmd to_binlog c _ same refl refl)
          | inr on ↦
              rw (good, on)
                (Grows-same env Cmd to_binlog c _
                  (record {
                    contiguous = h.contiguous;
                    follows =
                        append_log-Follows Cmd (scheduled c.context) c.mem_logger
                          (record {
                            offset = written_offset env Cmd to_binlog logger item;
                            payload = cmd;
                          })
                          h.follows lt;
                  })
                  refl refl)
        ]
      ]

  -- What may happen to a partition's log, but for a reset. An item is put to the log, where its place
  -- is above the last one in memory, and appended; slaves acknowledge; a leader's commit arrives; an
  -- item is applied; slaves come and go.
  pub data Event (level : ℕ) (c : C) : C → Type 0 where
    appends :
        (clock : ℕ → ℕ) (item : BinlogItem) (cmd : Cmd) (s : Status) (logger : Binlog env)
        → put env clock c.logger (to_binlog cmd item) ≡ some (s, logger)
        → LogOffset.lt c.mem_logger.last_offset (written_offset env Cmd to_binlog logger item)
          ≡ true
        → Event level c (append_log_item env Cmd to_binlog level c item cmd (s, logger)).1
    acknowledges :
        (ip : List ℕ) (port : ℕ) (start end : LogOffset)
        → Event level c (update_slave env Cmd to_binlog level c ip port start end).1
    follows_leader :
        (leader_commit : LogOffset)
        → Event level c (process_local_update env Cmd to_binlog level c leader_commit).1
    applies : (offset : LogOffset) → Event level c (update_applied_index env Cmd to_binlog c offset)
    adds :
        (ip : List ℕ) (port session_id now : ℕ)
        → Event level c (add_slave_node env Cmd to_binlog c ip port session_id now).1
    removes :
        (ip : List ℕ) (port : ℕ) → Event level c (remove_slave_node env Cmd to_binlog c ip port).1

  pub data Run (level : ℕ) : C → C → Type 0 where
    stop : (c : C) → Run level c c
    next : (a b c : C) → Event level a b → Run level b c → Run level a c

  Event-Grows :
      (level : ℕ) (c c' : C)
      → Event level c c'
      → Sound env Cmd to_binlog c
      → Grows env Cmd to_binlog c c'
  Event-Grows level c _ (appends clock item cmd s logger e lt) h =
      append_log_item-Sound level c item cmd s logger lt h
  Event-Grows level c _ (acknowledges ip port start end) h =
      let (sound, applied) = update_slave-Sound env Cmd to_binlog level c ip port start end h in
      let c' = (update_slave env Cmd to_binlog level c ip port start end).1 in
      record {
        sound = sound;
        committed = elim (update_slave-Committed env Cmd to_binlog level c ip port start end) [
          | inl same ↦ rw same (Order.le_refl c.committed_index)
          | inr (quorum, term_eq, up) ↦ Order.le-of-lt c.committed_index c'.committed_index up
        ];
        applied = rw applied (Order.le_refl c.context.applied_index);
      }
  Event-Grows level c _ (follows_leader leader_commit) h =
      let (sound, applied) = process_local_update-Sound env Cmd to_binlog level c leader_commit h in
      record {
        sound = sound;
        committed = process_local_update-grows env Cmd to_binlog level c leader_commit;
        applied = rw applied (Order.le_refl c.context.applied_index);
      }
  Event-Grows level c _ (applies offset) h =
      let a = update_applied_index-Advances c.context offset h.contiguous in
      unfold update_applied_index in
      record {
        sound = record { contiguous = a.contiguous; follows = rw (a.last_kept) h.follows };
        committed = Order.le_refl c.committed_index;
        applied = a.grows;
      }
  Event-Grows level c _ (adds ip port session_id now) h =
      unfold add_slave_node in
      Grows-same env Cmd to_binlog c _ (record { contiguous = h.contiguous; follows = h.follows })
        refl refl
  Event-Grows level c _ (removes ip port) h =
      unfold remove_slave_node in
      Grows-same env Cmd to_binlog c _ (record { contiguous = h.contiguous; follows = h.follows })
        refl refl

  -- From a sound coordinator on, whatever sequence of appended items (each placed above the last
  -- one in memory), acknowledgements, leader commits, applications and slave changes follows: the
  -- offsets from the applied index through the scheduled window to the end of the memory log rise,
  -- the memory log beginning where the schedule ends, and neither the committed nor the applied
  -- index falls.
  pub Run-Sound :
      (level : ℕ) (c c' : C)
      → Run level c c'
      → Sound env Cmd to_binlog c
      → Grows env Cmd to_binlog c c'
  Run-Sound level c _ (stop _) h = Grows-refl env Cmd to_binlog c h
  Run-Sound level a c (next _ b _ e r) h =
      let g = Event-Grows level a b e h in
      Grows-trans env Cmd to_binlog a b c g (Run-Sound level b c r g.sound)
