-- ===== src/Coordinator/Propose.antt =====
-- `ProposeLog`: the log on disk and the log in memory.
use pika.Prelude.{
  ℕ, ◌+◌, ◌%◌, ◌^◌, ◌≡◌, ◌<◌, ◌∙◌, refl, sym, ap, subst, inl, inr, true, false, List, [], ◌∷◌, ◌++◌,
  some, arith, ◌==◌, Option-cases,
}
use pika.Env.{Env, EnvLaws}
use pika.Status.{Status, ok, is_ok}
use pika.BinlogOffset
use pika.BinlogOffset.Order
use pika.LogOffset.{LogOffset}
use pika.LogOffset
use pika.Transverter.{BinlogItem}
use pika.Binlog.{Binlog, put, get_producer_status}
use pika.Binlog.Place.{IsPlaced, place, size_of, put-IsPlaced}
use pika.MemLog.{LogItem, append_log}
use pika.Coordinator.{
  Coordinator, written_offset, proposed_item, append_log_item, internal_append_log, propose_log,
}
use pika.Coordinator.Pipeline.{Sound}
use pika.Coordinator.Events.{append_log_item-Sound}

module _ (env : Env) (laws : EnvLaws env) (Cmd : Type 0)
    (to_binlog : Cmd → BinlogItem → List ℕ) where
  -- The log on disk is in order, and the one in memory does not reach past it.
  pub record IsRooted (c : Coordinator env Cmd to_binlog) : Type 0 where
    pub sound : Sound env Cmd to_binlog c
    pub placed : IsPlaced env laws c.logger
    pub last_below :
        BinlogOffset.le c.mem_logger.last_offset.b_offset (place env laws c.logger) ≡ true

  -- What a proposal that succeeds leaves.
  pub record Proposed (c : Coordinator env Cmd to_binlog) (cmd : Cmd)
      (c' : Coordinator env Cmd to_binlog) : Type 0 where
    pub rooted : IsRooted c'
    pub entry : LogItem Cmd
    pub appended : c'.mem_logger.logs ≡ c.mem_logger.logs ++ (entry ∷ [])
    pub payload : entry.payload ≡ cmd
    pub at_end : entry.offset.b_offset ≡ place env laws c'.logger
    pub term : entry.offset.l_offset.term ≡ c.logger.version.term
    pub index : entry.offset.l_offset.index ≡ (c.logger.version.logic_id + 1) % 2 ^ 64
    pub counted : c'.logger.version.logic_id ≡ entry.offset.l_offset.index

  written_place :
      (b : Binlog env) (item : BinlogItem)
      → IsPlaced env laws b
      → (written_offset env Cmd to_binlog b item).b_offset ≡ place env laws b
  unfolding written_offset get_producer_status
  written_place b item h = rw (h.is_open)

  written-above :
      (c : Coordinator env Cmd to_binlog) (b : Binlog env) (item : BinlogItem)
      → IsRooted c
      → IsPlaced env laws b
      → BinlogOffset.lt (place env laws c.logger) (place env laws b) ≡ true
      → LogOffset.lt c.mem_logger.last_offset (written_offset env Cmd to_binlog b item) ≡ true
  unfolding LogOffset.lt
  written-above c b item h placed up = rw (written_place b item placed) (
      Order.le-lt_trans c.mem_logger.last_offset.b_offset (place env laws c.logger)
        (place env laws b) h.last_below up)

  append_log_item_status :
      (level : ℕ) (c : Coordinator env Cmd to_binlog) (item : BinlogItem) (cmd : Cmd) (s : Status)
      (b : Binlog env) (c' : Coordinator env Cmd to_binlog)
      → append_log_item env Cmd to_binlog level c item cmd (s, b) ≡ (ok, c')
      → s ≡ ok
  unfolding append_log_item
  append_log_item_status level c item cmd s b c' h = ground arith

  proposed_item_lem :
      (now : ℕ) (b : Binlog env)
      → b.opened ≡ true
      → let item = proposed_item env Cmd to_binlog now b in
        (item.term_id ≡ b.version.term) × (item.logic_id ≡ (b.version.logic_id + 1) % 2 ^ 64)
  unfolding proposed_item get_producer_status
  proposed_item_lem now b h = rw h (refl, refl)

  -- The coordinator once the item of offset `written_offset` is in both logs.
  abbrev grown :
      Coordinator env Cmd to_binlog → BinlogItem → Cmd → Binlog env → Coordinator env Cmd to_binlog
  grown c item cmd b = record c {
    logger = b;
    mem_logger =
        append_log Cmd c.mem_logger
          (record { offset = written_offset env Cmd to_binlog b item; payload = cmd });
  }

  append_log_item-grown :
      (level : ℕ) (c : Coordinator env Cmd to_binlog) (item : BinlogItem) (cmd : Cmd)
      (b : Binlog env)
      → 0 < level
      → append_log_item env Cmd to_binlog level c item cmd (ok, b) ≡ (ok, grown c item cmd b)
  unfolding append_log_item
  append_log_item-grown level c item cmd b on =
      let on' : (level == 0) ≡ false = ground arith in rw on'

  grown-Proposed :
      (level now : ℕ) (c : Coordinator env Cmd to_binlog) (cmd : Cmd) (b : Binlog env)
      → 0 < level
      → IsRooted c
      → IsPlaced env laws b
      → BinlogOffset.lt (place env laws c.logger) (place env laws b) ≡ true
      → b.version.logic_id ≡ (c.logger.version.logic_id + 1) % 2 ^ 64
      → Proposed c cmd (grown c (proposed_item env Cmd to_binlog now c.logger) cmd b)
  unfolding append_log written_offset
  grown-Proposed level now c cmd b on h placed up id =
      let item = proposed_item env Cmd to_binlog now c.logger in
      let above = written-above c b item h placed up in
      let sound =
        (append_log_item-Sound env Cmd to_binlog level c item cmd ok b above h.sound).sound in
      let (term, index) = proposed_item_lem now c.logger h.placed.is_open in
      record {
        rooted = record {
          sound =
              subst (λ (x : Status × Coordinator env Cmd to_binlog). Sound env Cmd to_binlog x.1)
                (append_log_item-grown level c item cmd b on) sound;
          placed = placed;
          last_below = rw (written_place b item placed) (Order.le_refl (place env laws b));
        };
        entry = record { offset = written_offset env Cmd to_binlog b item; payload = cmd };
        appended = refl;
        payload = refl;
        at_end = written_place b item placed;
        term = term;
        index = index;
        counted = id ∙ sym index;
      }

  producer_ok : (b : Binlog env) → IsPlaced env laws b → is_ok (get_producer_status env b).0 ≡ true
  unfolding get_producer_status
  producer_ok b h = rw (h.is_open)

  -- With consensus on and the two logs of a coordinator in order and in step, a proposal that
  -- succeeds appends one item, of the next index and the log's term, to the log in memory, at the
  -- place that the log on disk then ends at, and leaves both in order and in step, as long as a
  -- file is below 2^31 bytes and its number below 2^32 - 1.
  pub propose_log-Proposed :
      (level : ℕ) (clock : ℕ → ℕ) (now : ℕ) (c : Coordinator env Cmd to_binlog) (cmd : Cmd)
      (c' : Coordinator env Cmd to_binlog)
      → 0 < level
      → IsRooted c
      → size_of env laws c.logger < 2 ^ 31
      → c.logger.pro_num + 1 < 2 ^ 32
      → propose_log env Cmd to_binlog level clock now c cmd ≡ some (ok, c')
      → size_of env laws c'.logger < 2 ^ 31
      → Proposed c cmd c'
  unfolding propose_log internal_append_log
  propose_log-Proposed level clock now c cmd c' on h small few e small' =
      let item = proposed_item env Cmd to_binlog now c.logger in
      let put_item = put env clock c.logger (to_binlog cmd item) in
      let producer : is_ok (get_producer_status env c.logger).0 ≡ true =
        producer_ok c.logger h.placed in
      elim (Option-cases put_item) [
        | inl missing ↦ absurd (cc (rw (missing, producer) at e))
        | inr ((s, b), made) ↦
            let eq : append_log_item env Cmd to_binlog level c item cmd (s, b) ≡ (ok, c') =
              cc (rw (made, producer) at e) in
            let good : s ≡ ok = append_log_item_status level c item cmd s b c' eq in
            let made' : put_item ≡ some (ok, b) = made ∙ rw good in
            let same : grown c item cmd b ≡ c' =
              ap (λ (r : Status × Coordinator env Cmd to_binlog). r.1)
                (sym (append_log_item-grown level c item cmd b on) ∙ rw good at eq) in
            let (placed, up, id) =
              put-IsPlaced env laws clock c.logger (to_binlog cmd item) b h.placed small few made'
                (rw (← same) at small') in
            rw (← same) (grown-Proposed level now c cmd b on h placed up id)
      ]
