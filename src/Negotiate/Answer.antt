-- ===== src/Negotiate/Answer.antt =====
-- `GetLogsBefore` and `LeaderNegotiate` of src/pika_consensus.cc.
use pika.Prelude.{
  ℕ, ◌-◌, Bool, true, false, ◌||◌, not, List, [], Option, some, none, ltb, ◌==◌, if◌then◌else◌,
  length, drop,
}
use pika.Env.{Env}
use pika.Slash.{Slash}
use pika.Status.{Status, ok, not_found, corruption, is_ok}
use pika.BinlogOffset.{BinlogOffset}
use pika.BinlogOffset
use pika.LogOffset.{LogOffset}
use pika.Transverter.{BinlogItem}
use pika.Binlog.{Binlog}
use pika.Coordinator.{Coordinator}
use pika.Negotiate.{has_key, get_binlog_offsets, find_logic_offset}

-- The last hundred.
unfoldable pub last_hundred : List LogOffset → List LogOffset
last_hundred offsets =
    if ltb 100 (length offsets) then drop (length offsets - 100) offsets else offsets

-- What `LeaderNegotiate` returns: the status, `*reject` and `*hints`, which was empty.
pub record Answer : Type 0 where
  pub status : Status
  pub reject : Bool
  pub hints : List LogOffset

module _ (env : Env) (slash : Slash) (files rounds : ℕ) where
  unfoldable pub get_logs_before :
      Option (List ℕ) → Binlog env → BinlogOffset → Option (Status × List LogOffset)
  unfolding last_hundred
  get_logs_before none b end = some (corruption, [])
  get_logs_before (some binlogs) b end =
      let before = if end.filenum == 0 then 0 else end.filenum - 1 in
      let start_filenum = if has_key before binlogs then before else end.filenum in
      elim (get_binlog_offsets env slash files rounds b
        (record { filenum = start_filenum; offset = 0 }) end) [
          | none ↦ none
          | some (s, offsets) ↦ if is_ok s then some (ok, last_hundred offsets) else some (s, [])
        ]

  -- An answer that rejects, with the logs before an offset as hints.
  unfoldable pub reject_before : Option (List ℕ) → Binlog env → BinlogOffset → Option Answer
  reject_before binlogs b end = elim (get_logs_before binlogs b end) [
    | none ↦ none
    | some (s, hints) ↦ some (record { status = s; reject = true; hints = hints })
  ]

  module _ (Cmd : Type 0) (to_binlog : Cmd → BinlogItem → List ℕ) where
    unfoldable pub leader_negotiate :
        Option (List ℕ) → Coordinator env Cmd to_binlog → LogOffset → Option Answer
    unfolding reject_before
    leader_negotiate binlogs c f_last =
        let f_index = f_last.l_offset.index in
        elim (ltb c.mem_logger.last_offset.l_offset.index f_index) [
          | true ↦ reject_before binlogs c.logger c.mem_logger.last_offset.b_offset
          | false ↦ elim (ltb f_index c.first_offset.l_offset.index) [
            | true ↦ some (record { status = not_found; reject = true; hints = [] })
            | false ↦ elim (f_index == 0) [
              | true ↦ some (record { status = ok; reject = false; hints = [] })
              | false ↦
                  elim (find_logic_offset env slash files rounds binlogs c.logger f_last.b_offset
                    f_index) [
                      | none ↦ none
                      | some (s, found) ↦ elim (is_ok s) [
                        | false ↦ some (record { status = s; reject = true; hints = [] })
                        | true ↦
                            elim (not (found.l_offset.term == f_last.l_offset.term)
                              || not (BinlogOffset.eq f_last.b_offset found.b_offset)) [
                                | true ↦ reject_before binlogs c.logger found.b_offset
                                | false ↦ some (record { status = ok; reject = false; hints = [] })
                              ]
                      ]
                    ]
            ]
          ]
        ]
