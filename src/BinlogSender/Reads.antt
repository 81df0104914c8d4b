-- ===== src/BinlogSender/Reads.antt =====
-- What the reader of a slave gave for the tasks that are made of it.
use pika.Prelude.{
  ℕ, suc, ◌*◌, ◌≡◌, ap, ◌⊎◌, inl, inr, Bool, true, false, ◌||◌, List, [], ◌∷◌, some, ltb, length,
}
use pika.Env.{Env}
use pika.Slash.{Slash}
use pika.Status.{Status, ok, corruption, is_end_file, is_corruption, is_io_error}
use pika.Transverter.{BinlogItem, empty_item, type_first, binlog_item_without_content_decode}
use pika.Binlog.{Binlog}
use pika.BinlogReader.{Cursor, Consumed, get}
use pika.SlaveNode.{SlaveNode}
use pika.LogOffset.{LogOffset}
use pika.RmNode.{RmNode, WriteTask, new_node}
use pika.WriteQueue.{max_conn_rbuf_hb}

module _ (env : Env) (slash : Slash) (files : ℕ) where
  abbrev decoded : List ℕ → Bool × BinlogItem
  decoded msg = binlog_item_without_content_decode slash type_first msg empty_item

  -- The slave that a task is for.
  abbrev pub address : SlaveNode env → RmNode
  address n =
      new_node n.ip n.port (record { table_name = n.table_name; partition_id = n.partition_id })
        n.session_id

  -- From reader `c` on, each task holds what `Get` gives next, whole, with the place and with the
  -- term and index that its header says, for that slave; `d` is the reader behind the last one.
  pub data Reads (b : Binlog env) (node : RmNode)
      : Cursor env → List WriteTask → Cursor env → Type 0 where
    nothing : (c : Cursor env) → Reads b node c [] c
    next :
        (c d : Cursor env) (r : Consumed env) (item : BinlogItem) (prev : LogOffset)
        (tasks : List WriteTask)
        → get env files b c 0 0 ≡ some r
        → is_end_file r.status ≡ false
        → (is_corruption r.status || is_io_error r.status) ≡ false
        → decoded r.scratch ≡ (true, item)
        → Reads b node r.cursor tasks d
        → Reads b node c
            (record {
              rm_node = node;
              binlog_chip = record {
                offset = record {
                  b_offset = record { filenum = r.filenum; offset = r.offset };
                  l_offset = record { term = item.term_id; index = item.logic_id };
                };
                binlog = r.scratch;
              };
              prev_offset = prev;
            }
              ∷ tasks)
            d

  -- Why no more was read behind `d`: as many as `cnt` were, or the window holds more bytes than it
  -- may; or the next `Get` is at the end of the log, fails, or gives what cannot be decoded.
  abbrev pub Stops : ℕ → Binlog env → Status → SlaveNode env → List WriteTask → Cursor env → Type 0
  Stops cnt b s n' tasks d =
      ((s ≡ ok)
        × (n'.binlog_reader ≡ some d)
        × ((length tasks ≡ cnt) ⊎ (ltb (2 * max_conn_rbuf_hb) n'.sync_win.total_size ≡ true)))
      ⊎ ((r : Consumed env) × (get env files b d 0 0 ≡ some r)
          × (n'.binlog_reader ≡ some r.cursor)
          × (((is_end_file r.status ≡ true) × (s ≡ ok))
              ⊎ (((is_corruption r.status || is_io_error r.status) ≡ true) × (s ≡ r.status))
              ⊎ (((decoded r.scratch).0 ≡ false) × (s ≡ corruption))))

  pub record Traced (cnt : ℕ) (b : Binlog env) (n : SlaveNode env) (c : Cursor env) (s : Status)
      (n' : SlaveNode env) (tasks : List WriteTask) : Type 0 where
    pub last : Cursor env
    pub reads : Reads b (address n) c tasks last
    pub stops : Stops cnt b s n' tasks last

  pub Stops-suc :
      (cnt : ℕ) (b : Binlog env) (s : Status) (n' : SlaveNode env) (t : WriteTask)
      (tasks : List WriteTask) (d : Cursor env)
      → Stops cnt b s n' tasks d
      → Stops (suc cnt) b s n' (t ∷ tasks) d
  Stops-suc cnt b s n' t tasks d (inl (e, reader, inl all)) = inl (e, reader, inl (ap suc all))
  Stops-suc cnt b s n' t tasks d (inl (e, reader, inr full)) = inl (e, reader, inr full)
  Stops-suc cnt b s n' t tasks d (inr h) = inr h
