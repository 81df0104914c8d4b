-- ===== src/Negotiate/Follower.antt =====
-- `TruncateTo` and `FollowerNegotiate` of src/pika_consensus.cc.
use pika.Prelude.{
  ℕ, true, false, ◌&&◌, List, [], ◌∷◌, Option, some, none, ltb, ◌==◌, if◌then◌else◌, reverse,
}
use pika.Env.{Env}
use pika.Slash.{Slash}
use pika.Status.{Status, ok, corruption, is_ok}
use pika.LogOffset.{LogOffset, log_origin}
use pika.Transverter.{BinlogItem}
use pika.Binlog.{Binlog}
use pika.MemLog
use pika.StableLog.{Disk}
use pika.StableLog
use pika.Coordinator.{Coordinator}
use pika.Negotiate.{find_logic_offset}

-- The last one of a vector that is not empty.
unfoldable pub last_hint : LogOffset → List LogOffset → LogOffset
last_hint h [] = h
last_hint h (h' ∷ hs) = last_hint h' hs

-- `list_files` gives the keys of what `GetBinlogFiles` finds for a log.
module _ (env : Env) (disk : Disk env) (slash : Slash) (files rounds : ℕ) (Cmd : Type 0)
    (to_binlog : Cmd → BinlogItem → List ℕ) (list_files : Binlog env → Option (List ℕ)) where
  -- What is done to the log in memory once the offset is found.
  unfoldable pub truncate_memory :
      Coordinator env Cmd to_binlog → LogOffset → Status × MemLog.MemLog Cmd
  truncate_memory c found =
      if found.l_offset.index == c.committed_index.l_offset.index
      then (ok, MemLog.reset Cmd c.mem_logger c.committed_index)
      else MemLog.truncate_to Cmd c.mem_logger found

  unfoldable pub truncate_to :
      Coordinator env Cmd to_binlog → LogOffset → Option (Status × Coordinator env Cmd to_binlog)
  unfolding truncate_memory
  truncate_to c o =
      elim (find_logic_offset env slash files rounds (list_files c.logger) c.logger o.b_offset
        o.l_offset.index) [
          | none ↦ none
          | some (s, found) ↦
              let (s1, mem_logger) = truncate_memory c found in
              let (s2, logger) =
                StableLog.truncate_to env disk (list_files c.logger) c.logger found in
              if is_ok s
              then (if is_ok s1
                  then some (s2, record c { mem_logger = mem_logger; logger = logger })
                  else some (s1, c))
              else some (s, c)
        ]

  -- The status, the coordinator and `*reply_offset`, from its value before.
  abbrev pub Followed : Type 0
  Followed = Option (Status × Coordinator env Cmd to_binlog × LogOffset)

  -- A truncation, and the last offset after it as the reply.
  unfoldable pub truncate_and_reply :
      Coordinator env Cmd to_binlog → LogOffset → LogOffset → Followed
  truncate_and_reply c o reply = elim (truncate_to c o) [
    | none ↦ none
    | some (s, c') ↦ elim (is_ok s) [
      | true ↦ some (ok, c', c'.mem_logger.last_offset)
      | false ↦ some (s, c', reply)
    ]
  ]

  -- The loop over the hints from `h` back to the first one, which is the last of the list.
  unfoldable pub follower_loop :
      Coordinator env Cmd to_binlog → LogOffset → List LogOffset → LogOffset → Followed
  unfolding truncate_and_reply
  follower_loop c first [] reply = truncate_and_reply c first reply
  follower_loop c first (h ∷ hs) reply =
      elim (ltb h.l_offset.index c.committed_index.l_offset.index) [
        | true ↦ some (corruption, c, reply)
        | false ↦
            elim ((h.l_offset.index == c.committed_index.l_offset.index)
              && (h.l_offset.term == c.committed_index.l_offset.term)) [
                | true ↦ truncate_and_reply c h reply
                | false ↦
                    let (there, o) = MemLog.find_log_item Cmd c.mem_logger h log_origin in
                    elim there [
                      | false ↦ some (corruption, c, reply)
                      | true ↦ elim (o.l_offset.term == h.l_offset.term) [
                        | true ↦ truncate_and_reply c o reply
                        | false ↦ follower_loop c first hs reply
                      ]
                    ]
              ]
      ]

  -- The truncation to the end of the hints, then the loop.
  unfoldable pub follow_hints :
      Coordinator env Cmd to_binlog → LogOffset → List LogOffset → LogOffset → Followed
  unfolding follower_loop
  follow_hints c h hs reply =
      let end = last_hint h hs in
      elim (ltb end.l_offset.index c.mem_logger.last_offset.l_offset.index) [
        | false ↦ follower_loop c h (reverse (h ∷ hs)) reply
        | true ↦ elim (truncate_to c end) [
          | none ↦ none
          | some (s, c') ↦ elim (is_ok s) [
            | true ↦ follower_loop c' h (reverse (h ∷ hs)) reply
            | false ↦ some (s, c', reply)
          ]
        ]
      ]

  unfoldable pub follower_negotiate :
      Coordinator env Cmd to_binlog → List LogOffset → LogOffset → Followed
  unfolding follow_hints
  follower_negotiate c [] reply = some (corruption, c, reply)
  follower_negotiate c (h ∷ hs) reply =
      if ltb c.mem_logger.last_offset.l_offset.index h.l_offset.index
      then some (ok, c, c.mem_logger.last_offset)
      else if ltb (last_hint h hs).l_offset.index c.committed_index.l_offset.index
      then some (corruption, c, reply)
      else follow_hints c h hs reply
