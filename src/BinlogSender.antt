-- ===== src/BinlogSender.antt =====
-- How a master moves binlogs from the log of a partition towards a slave: `ReadBinlogFileToWq` of
-- `SyncMasterPartition`, src/pika_rm.cc.
pub mod Reads
pub mod Chain
use pika.Prelude.{
  ℕ, zero, suc, ◌*◌, ◌^◌, Bool, true, false, ◌||◌, not, List, [], ◌∷◌, Option, some, none, ltb,
  length, if◌then◌else◌,
}
use pika.Env.{Env}
use pika.Slash.{Slash}
use pika.Status.{Status, ok, corruption, is_ok, is_end_file, is_corruption, is_io_error}
use pika.LogOffset.{LogOffset}
use pika.Transverter.{empty_item, type_first, binlog_item_without_content_decode}
use pika.Binlog.{Binlog}
use pika.BinlogReader.{Cursor, get}
use pika.SyncWindow.{SyncWindow, remaining}
use pika.SlaveNode.{SlaveNode, send}
use pika.RmNode.{WriteTask, new_node}
use pika.WriteQueue.{WriteQueues, produce_write_queue, max_conn_rbuf_hb}

-- How often the loop runs, `Remaining` of the window as an `int`: not at all below 0.
unfoldable pub room : ℕ → SyncWindow → ℕ
room sync_window_size win =
    let cnt = remaining sync_window_size win in if ltb cnt (2 ^ 31) then cnt else 0

module _ (env : Env) (slash : Slash) (files : ℕ) where
  -- The task for a binlog that was read, of a slave node before it is sent.
  abbrev pub write_task : SlaveNode env → LogOffset → List ℕ → WriteTask
  write_task n sent msg = record {
    rm_node =
        new_node n.ip n.port (record { table_name = n.table_name; partition_id = n.partition_id })
          n.session_id;
    binlog_chip = record { offset = sent; binlog = msg };
    prev_offset = n.sent_offset;
  }

  -- The loop, with its reader: a status, the node and `tasks`. `none` is no outcome of the code:
  -- `Get` ran out of files. Where `Get` sets no place, the code goes on with variables that were
  -- never set; here they are 0.
  unfoldable pub read_loop :
      ℕ
      → Binlog env
      → ℕ
      → SlaveNode env
      → Cursor env
      → Option (Status × SlaveNode env × List WriteTask)
  read_loop zero b now n c = some (ok, n, [])
  read_loop (suc cnt) b now n c = elim (ltb (2 * max_conn_rbuf_hb) n.sync_win.total_size) [
    | true ↦ some (ok, n, [])
    | false ↦ elim (get env files b c 0 0) [
      | none ↦ none
      | some r ↦
          let read = record n { binlog_reader = some r.cursor } in
          let (good, item) =
            binlog_item_without_content_decode slash type_first r.scratch empty_item in
          let sent : LogOffset = record {
            b_offset = record { filenum = r.filenum; offset = r.offset };
            l_offset = record { term = item.term_id; index = item.logic_id };
          } in
          elim (is_end_file r.status) [
            | true ↦ some (ok, read, [])
            | false ↦ elim (is_corruption r.status || is_io_error r.status) [
              | true ↦ some (r.status, read, [])
              | false ↦ elim good [
                | false ↦ some (corruption, read, [])
                | true ↦
                    elim (read_loop cnt b now (send env read sent (length r.scratch) now)
                      r.cursor) [
                        | none ↦ none
                        | some (s, n', tasks) ↦
                            some (s, n', write_task read sent (r.scratch) ∷ tasks)
                      ]
              ]
            ]
          ]
    ]
  ]

  -- `window` is `sync_window_size` of the configuration, `p` the partition of the master. The
  -- queues are those of the manager, and the reader is that of the node.
  unfoldable pub read_from :
      Option (Cursor env)
      → ℕ
      → ℕ
      → Binlog env
      → ℕ
      → SlaveNode env
      → WriteQueues
      → Option (Status × SlaveNode env × WriteQueues)
  unfolding read_loop
  read_from none window p b now n w = some (ok, n, w)
  read_from (some c) window p b now n w = elim (read_loop (room window n.sync_win) b now n c) [
    | none ↦ none
    | some (s, n', tasks) ↦
        if is_ok s
        then some (ok, n', produce_write_queue n'.ip n'.port p tasks w)
        else some (s, n', w)
  ]

  unfoldable pub read_binlog_file_to_wq :
      ℕ
      → ℕ
      → Binlog env
      → ℕ
      → SlaveNode env
      → WriteQueues
      → Option (Status × SlaveNode env × WriteQueues)
  unfolding read_from
  read_binlog_file_to_wq window p b now n w = read_from n.binlog_reader window p b now n w
