-- ===== src/BinlogSender/Chain.antt =====
-- What `ReadBinlogFileToWq` of src/pika_rm.cc sends.
use pika.Prelude.{
  ℕ, zero, suc, ◌*◌, ◌≤◌, ◌≡◌, refl, sym, ◌∙◌, ap, ◌⊎◌, inl, inr, true, false, ◌||◌, List, [], ◌∷◌,
  ◌++◌, map, append_assoc, Option, some, none, arith, ltb, subst, Bool-cases, Option-cases, length,
  append-nil,
}
use pika.Env.{Env}
use pika.Slash.{Slash}
use pika.Status.{Status, ok, is_ok, is_end_file, is_corruption, is_io_error}
use pika.LogOffset.{LogOffset}
use pika.Transverter.{empty_item, type_first, binlog_item_without_content_decode}
use pika.Binlog.{Binlog}
use pika.BinlogReader.{Cursor, get}
use pika.SyncWindow.{SyncWinItem, new_item, push}
use pika.SlaveNode.{SlaveNode, send}
use pika.RmNode.{WriteTask}
use pika.WriteQueue.{WriteQueues, produce_write_queue, produce_tasks, max_conn_rbuf_hb}
use pika.BinlogSender.Reads.{Reads, nothing, next, address, Stops-suc, Traced}
use pika.BinlogSender.{room, read_from, read_loop, read_binlog_file_to_wq, write_task}

-- Each task says as the offset before it that of the one before, the first one `a`; `z` is the last.
pub IsChain : LogOffset → List WriteTask → LogOffset → Type 0
IsChain a [] z = a ≡ z
IsChain a (t ∷ ts) z = (t.prev_offset ≡ a) × IsChain t.binlog_chip.offset ts z

-- The item of the window for a task.
abbrev pub window_item : WriteTask → SyncWinItem
window_item t = new_item t.binlog_chip.offset (length t.binlog_chip.binlog)

module _ (env : Env) (slash : Slash) (files : ℕ) where
  -- The tasks of a run over at most `cnt` binlogs take a node to another.
  pub record Sent (cnt : ℕ) (n n' : SlaveNode env) (tasks : List WriteTask) : Type 0 where
    pub chain : IsChain n.sent_offset tasks n'.sent_offset
    pub window : n'.sync_win.win ≡ n.sync_win.win ++ map window_item tasks
    pub few : length tasks ≤ cnt
    pub acked_kept : n'.acked_offset ≡ n.acked_offset
    pub ip_kept : n'.ip ≡ n.ip
    pub port_kept : n'.port ≡ n.port

  abbrev pub Read :
      ℕ
      → Binlog env
      → SlaveNode env
      → Cursor env
      → Option (Status × SlaveNode env × List WriteTask)
      → Type 0
  Read cnt b n c none =
      (d : Cursor env) × (tasks : List WriteTask) × Reads env slash files b
        (address env slash files n) c tasks d
      × (get env files b d 0 0 ≡ none)
  Read cnt b n c (some (s, n', tasks)) =
      Sent cnt n n' tasks × Traced env slash files cnt b n c s n' tasks

  stays :
      (cnt : ℕ) (n : SlaveNode env) (c : Option (Cursor env))
      → Sent cnt n (record n { binlog_reader = c }) []
  unfolding IsChain
  stays cnt n c = record {
    chain = refl;
    window = sym (append-nil n.sync_win.win);
    few = omega arith;
    acked_kept = refl;
    ip_kept = refl;
    port_kept = refl;
  }

  sends :
      (cnt : ℕ) (n n' : SlaveNode env) (tasks : List WriteTask) (c : Cursor env) (sent : LogOffset)
      (msg : List ℕ) (now : ℕ)
      → Sent cnt (send env (record n { binlog_reader = some c }) sent (length msg) now) n' tasks
      → Sent
          (suc cnt)
          n
          n'
          (write_task env slash files (record n { binlog_reader = some c }) sent msg ∷ tasks)
  unfolding IsChain send push
  sends cnt n n' tasks c sent msg now h = record {
    chain = (refl, h.chain);
    window =
        h.window
        ∙ append_assoc n.sync_win.win (new_item sent (length msg) ∷ []) (map window_item tasks);
    few = omega (arith, h.few);
    acked_kept = h.acked_kept;
    ip_kept = h.ip_kept;
    port_kept = h.port_kept;
  }

  read_loop-Read :
      (cnt : ℕ) (b : Binlog env) (now : ℕ) (n : SlaveNode env) (c : Cursor env)
      → n.binlog_reader ≡ some c
      → Read cnt b n c (read_loop env slash files cnt b now n c)
  unfolding read_loop send
  read_loop-Read zero b now n c reader = (
    stays 0 n n.binlog_reader,
    record { last = c; reads = nothing c; stops = inl (refl, reader, inl refl) },
  )
  read_loop-Read (suc cnt) b now n c reader =
      elim (Bool-cases (ltb (2 * max_conn_rbuf_hb) n.sync_win.total_size)) [
        | inl full ↦
            rw (full, read_loop)
              (
                stays (suc cnt) n n.binlog_reader,
                record { last = c; reads = nothing c; stops = inl (refl, reader, inr full) },
              )
        | inr free ↦ elim (Option-cases (get env files b c 0 0)) [
          | inl out ↦ rw (free, out, read_loop) (c, [], nothing c, out)
          | inr (r, got) ↦
              let read = binlog_item_without_content_decode slash type_first r.scratch empty_item in
              let sent : LogOffset = record {
                b_offset = record { filenum = r.filenum; offset = r.offset };
                l_offset = record { term = read.1.term_id; index = read.1.logic_id };
              } in
              let n1 =
                send env (record n { binlog_reader = some r.cursor }) sent (length r.scratch) now in
              elim (Bool-cases (is_end_file r.status)) [
                | inl end ↦
                    rw (free, got, end, read_loop)
                      (
                        stays (suc cnt) n (some r.cursor),
                        record {
                          last = c;
                          reads = nothing c;
                          stops = inr (r, got, refl, inl (end, refl));
                        },
                      )
                | inr more ↦ elim (Bool-cases (is_corruption r.status || is_io_error r.status)) [
                  | inl bad ↦
                      rw (free, got, more, bad, read_loop)
                        (
                          stays (suc cnt) n (some r.cursor),
                          record {
                            last = c;
                            reads = nothing c;
                            stops = inr (r, got, refl, inr (inl (bad, refl)));
                          },
                        )
                  | inr fine ↦ elim (Bool-cases read.0) [
                    | inr undecoded ↦
                        rw (free, got, more, fine, undecoded, read_loop)
                          (
                            stays (suc cnt) n (some r.cursor),
                            record {
                              last = c;
                              reads = nothing c;
                              stops = inr (r, got, refl, inr (inr (undecoded, refl)));
                            },
                          )
                    | inl good ↦
                        let ih = read_loop-Read cnt b now n1 r.cursor refl in
                        let whole : binlog_item_without_content_decode slash type_first r.scratch
                              empty_item
                            ≡ (true, read.1) =
                          ap (λ x. (x, read.1)) good in
                        elim (Option-cases (read_loop env slash files cnt b now n1 r.cursor)) [
                          | inl out ↦
                              let (d, tasks, rest, stuck) = subst (Read cnt b n1 r.cursor) out ih in
                              rw (free, got, more, fine, good, out, read_loop)
                                (
                                  d,
                                  _,
                                  next c d r read.1 n.sent_offset tasks got more fine whole rest,
                                  stuck,
                                )
                          | inr ((s, n', tasks), e) ↦
                              let (sent_all, trace) = subst (Read cnt b n1 r.cursor) e ih in
                              rw (free, got, more, fine, good, e, read_loop)
                                (
                                  sends cnt n n' tasks r.cursor sent (r.scratch) now sent_all,
                                  record {
                                    last = trace.last;
                                    reads =
                                        next c trace.last r read.1 n.sent_offset tasks got more fine
                                          whole trace.reads;
                                    stops =
                                        Stops-suc env slash files cnt b s n'
                                          (write_task env slash files
                                            (record n { binlog_reader = some r.cursor }) sent
                                            (r.scratch))
                                          tasks trace.last trace.stops;
                                  },
                                )
                        ]
                  ]
                ]
              ]
        ]
      ]

  -- The tasks are queued for the slave where the status is OK, and else they are not.
  abbrev pub Delivered :
      ℕ
      → ℕ
      → Binlog env
      → SlaveNode env
      → WriteQueues
      → Option (Status × SlaveNode env × WriteQueues)
      → Type 0
  Delivered cnt p b n w none =
      (c : Cursor env) × (d : Cursor env) × (tasks : List WriteTask) × (n.binlog_reader ≡ some c)
      × Reads env slash files b (address env slash files n) c tasks d
      × (get env files b d 0 0 ≡ none)
  Delivered cnt p b n w (some (s, n', w')) =
      (tasks : List WriteTask) × Sent cnt n n' tasks
      × (((n.binlog_reader ≡ none) × (tasks ≡ []) × (n' ≡ n))
          ⊎ ((c : Cursor env) × (n.binlog_reader ≡ some c)
              × Traced env slash files cnt b n c s n' tasks))
      × (((is_ok s ≡ true) × (w' ≡ produce_write_queue n.ip n.port p tasks w))
          ⊎ ((is_ok s ≡ false) × (w' ≡ w)))

  read_from-Delivered :
      (reader : Option (Cursor env)) (window p : ℕ) (b : Binlog env) (now : ℕ) (n : SlaveNode env)
      (w : WriteQueues)
      → n.binlog_reader ≡ reader
      → Delivered
          (room window n.sync_win)
          p
          b
          n
          w
          (read_from env slash files reader window p b now n w)
  unfolding read_from produce_write_queue produce_tasks
  read_from-Delivered none window p b now n w absent = (
    [],
    stays (room window n.sync_win) n n.binlog_reader,
    inl (absent, refl, refl),
    inl (refl, refl),
  )
  read_from-Delivered (some c) window p b now n w reader =
      let cnt = room window n.sync_win in
      let h = read_loop-Read cnt b now n c reader in
      elim (Option-cases (read_loop env slash files cnt b now n c)) [
        | inl out ↦
            let (d, tasks, reads, stuck) = subst (Read cnt b n c) out h in
            rw (out, read_from) (c, d, tasks, reader, reads, stuck)
        | inr ((s, n', tasks), e) ↦
            let (all_sent, trace) = subst (Read cnt b n c) e h in
            elim (Bool-cases (is_ok s)) [
              | inl good ↦
                  let queued : produce_write_queue n'.ip n'.port p tasks w
                      ≡ produce_write_queue n.ip n.port p tasks w =
                    ap (λ i. produce_write_queue i n'.port p tasks w) all_sent.ip_kept
                    ∙ ap (λ q. produce_write_queue n.ip q p tasks w) all_sent.port_kept in
                  let fine : s ≡ ok = ground (arith, good) in
                  rw (e, good, read_from)
                    (
                      tasks,
                      all_sent,
                      inr (
                        c,
                        reader,
                        subst (λ (q : Status). Traced env slash files cnt b n c q n' tasks) fine
                            trace,
                      ),
                      inl (refl, queued),
                    )
              | inr bad ↦
                  rw (e, bad, read_from) (tasks, all_sent, inr (c, reader, trace), inr (bad, refl))
            ]
      ]

  -- ReadBinlogFileToWq makes a task of each binlog that Get gives in turn, from the reader of the
  -- node on, with all its bytes, its place, and the term and index in its header, for that node.
  -- It stops once it has as many as the window has room for or the window holds more than 1 GB; or
  -- at the end of the log, with OK; or with the error of the Get that fails, or Corruption at a
  -- binlog that cannot be decoded. Each task says as the offset before it that of the one before,
  -- the first one the sent offset of the node; they go into the window behind what is there, the
  -- last one is the new sent offset, and the acked offset stays. The tasks are queued for the
  -- slave where the status is OK, and else the queues stay. Without a reader there are no tasks.
  -- Or a Get runs out of files.
  pub read_binlog_file_to_wq-Delivered :
      (window p : ℕ) (b : Binlog env) (now : ℕ) (n : SlaveNode env) (w : WriteQueues)
      → Delivered
          (room window n.sync_win)
          p
          b
          n
          w
          (read_binlog_file_to_wq env slash files window p b now n w)
  unfolding read_binlog_file_to_wq
  read_binlog_file_to_wq-Delivered window p b now n w =
      read_from-Delivered n.binlog_reader window p b now n w refl
