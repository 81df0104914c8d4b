-- ===== src/Negotiate/Truncations.antt =====
-- What `FollowerNegotiate` of src/pika_consensus.cc may cut off.
use pika.Prelude.{
  ℕ, ◌≤◌, ◌≡◌, refl, ◌∙◌, ◌⊎◌, inl, inr, true, false, ◌&&◌, List, [], ◌∷◌, Option, some, none,
  arith, ltb, ◌==◌, Bool-cases, Option-cases, subst,
}
use mathlib.Core.List.{reverse_aux, reverse}
use pika.Env.{Env}
use pika.Slash.{Slash}
use pika.Status.{Status, is_ok}
use pika.LogOffset.{LogOffset, log_origin}
use pika.Transverter.{BinlogItem}
use pika.Binlog.{Binlog}
use pika.MemLog
use pika.MemLog.Find.{find_log_item_lem}
use pika.StableLog.{Disk}
use pika.Coordinator.{Coordinator}
use pika.Negotiate.{find_logic_offset}
use pika.Negotiate.Follower.{
  truncate_to, truncate_memory, truncate_and_reply, follower_loop, follow_hints, follower_negotiate,
  last_hint,
}

-- Membership in a list of hints.
In : LogOffset → List LogOffset → Type 0
In o [] = ⊥
In o (h ∷ hs) = (h ≡ o) ⊎ In o hs

In-reverse_aux : (o : LogOffset) (hs acc : List LogOffset) → In o acc → In o (reverse_aux hs acc)
unfolding In
In-reverse_aux o [] acc h = h
In-reverse_aux o (x ∷ hs) acc h = In-reverse_aux o hs (x ∷ acc) (inr h)

module _ (env : Env) (disk : Disk env) (slash : Slash) (files rounds : ℕ) (Cmd : Type 0)
    (to_binlog : Cmd → BinlogItem → List ℕ) (list_files : Binlog env → Option (List ℕ)) where
  abbrev C : Type 0
  C = Coordinator env Cmd to_binlog

  abbrev cut : C → LogOffset → Option (Status × C)
  cut c o = truncate_to env disk slash files rounds Cmd to_binlog list_files c o

  abbrev Above : C → LogOffset → Type 0
  Above c o = c.committed_index.l_offset.index ≤ o.l_offset.index

  -- Truncations, whether they succeed or not, none of them to an offset whose index is below the
  -- committed one.
  pub data Truncations : C → C → Type 0 where
    uncut : (c : C) → Truncations c c
    truncated :
        (c c' : C) (o : LogOffset) (s : Status) (d : C)
        → c.committed_index.l_offset.index ≤ o.l_offset.index
        → truncate_to env disk slash files rounds Cmd to_binlog list_files c o ≡ some (s, c')
        → Truncations c' d
        → Truncations c d

  KeepsCommitted : C → Option (Status × C) → Type 0
  KeepsCommitted c none = Unit
  KeepsCommitted c (some (s, c')) = c'.committed_index ≡ c.committed_index

  cut-KeepsCommitted : (c : C) (o : LogOffset) → KeepsCommitted c (cut c o)
  unfolding truncate_to KeepsCommitted
  cut-KeepsCommitted c o =
      elim (Option-cases (
        find_logic_offset env slash files rounds (list_files c.logger) c.logger o.b_offset
          o.l_offset.index)) [
            | inl out ↦ rw (out, KeepsCommitted, truncate_to) tt
            | inr ((s, found), e) ↦ elim (Bool-cases (is_ok s)) [
              | inr bad ↦ rw (e, bad, KeepsCommitted, truncate_to) refl
              | inl good ↦
                  elim (Bool-cases (
                    is_ok
                      (truncate_memory env disk slash files rounds Cmd to_binlog list_files c
                        found).0)) [
                          | inl fine ↦ rw (e, good, fine, KeepsCommitted, truncate_to) refl
                          | inr bad ↦ rw (e, good, bad, KeepsCommitted, truncate_to) refl
                        ]
            ]
          ]

  -- What FollowerNegotiate ends in: a truncation that found no end, or a status and a reply, which
  -- is the last offset of the log then, or unchanged where it failed.
  abbrev pub Outcome : C → LogOffset → Option (Status × C × LogOffset) → Type 0
  Outcome c reply none = (d : C) × (o : LogOffset) × Truncations c d × Above d o × (cut d o ≡ none)
  Outcome c reply (some (s, d, r)) =
      Truncations c d
      × (((is_ok s ≡ true) × (r ≡ d.mem_logger.last_offset)) ⊎ ((is_ok s ≡ false) × (r ≡ reply)))

  after_cut :
      (c d : C) (o : LogOffset) (s : Status) (reply : LogOffset)
      (r : Option (Status × C × LogOffset))
      → Above c o
      → cut c o ≡ some (s, d)
      → Outcome d reply r
      → Outcome c reply r
  after_cut c d o s reply none le e (d', o', steps, le', out) =
      (d', o', truncated c d o s d' le e steps, le', out)
  after_cut c d o s reply (some (s', d', r)) le e (steps, replied) =
      (truncated c d o s d' le e steps, replied)

  truncate_and_reply_lem :
      (c : C) (o reply : LogOffset)
      → Above c o
      → Outcome c reply
          (truncate_and_reply env disk slash files rounds Cmd to_binlog list_files c o reply)
  unfolding truncate_and_reply
  truncate_and_reply_lem c o reply le = elim (Option-cases (cut c o)) [
    | inl out ↦ rw (out, truncate_and_reply) (c, o, uncut c, le, out)
    | inr ((s, d), e) ↦ elim (Bool-cases (is_ok s)) [
      | inl good ↦
          rw (e, good, truncate_and_reply) (truncated c d o s d le e (uncut d), inl (refl, refl))
      | inr bad ↦
          rw (e, bad, truncate_and_reply) (truncated c d o s d le e (uncut d), inr (bad, refl))
    ]
  ]

  still-Above :
      (c : C) (first h : LogOffset) (hs : List LogOffset)
      → Above c h
      → Above c first ⊎ In first (h ∷ hs)
      → Above c first ⊎ In first hs
  unfolding In
  still-Above c first h hs le (inl passed) = inl passed
  still-Above c first h hs le (inr (inl e)) = inl (subst (Above c) e le)
  still-Above c first h hs le (inr (inr later)) = inr later

  follower_loop_lem :
      (c : C) (first : LogOffset) (hs : List LogOffset) (reply : LogOffset)
      → Above c first ⊎ In first hs
      → Outcome c reply
          (follower_loop env disk slash files rounds Cmd to_binlog list_files c first hs reply)
  unfolding follower_loop In
  follower_loop_lem c first [] reply (inl le) = truncate_and_reply_lem c first reply le
  follower_loop_lem c first [] reply (inr h) = absurd h
  follower_loop_lem c first (h ∷ hs) reply passed =
      elim (Bool-cases (ltb h.l_offset.index c.committed_index.l_offset.index)) [
        | inl below ↦ rw (below, follower_loop) (uncut c, inr (refl, refl))
        | inr not_below ↦
            let le : Above c h = ground (arith, not_below) in
            elim (Bool-cases (
              (h.l_offset.index == c.committed_index.l_offset.index)
              && (h.l_offset.term == c.committed_index.l_offset.term))) [
                | inl committed ↦
                    rw (not_below, committed, follower_loop) (truncate_and_reply_lem c h reply le)
                | inr later ↦
                    let o = (MemLog.find_log_item Cmd c.mem_logger h log_origin).1 in
                    elim (Bool-cases ((MemLog.find_log_item Cmd c.mem_logger h log_origin).0)) [
                      | inr absent ↦
                          rw (not_below, later, absent, follower_loop) (uncut c, inr (refl, refl))
                      | inl there ↦
                          let same = find_log_item_lem Cmd c.mem_logger h log_origin there in
                          elim (Bool-cases (o.l_offset.term == h.l_offset.term)) [
                            | inl agreed ↦
                                rw (not_below, later, there, agreed, follower_loop)
                                  (truncate_and_reply_lem c o reply (rw same le))
                            | inr other ↦
                                rw (not_below, later, there, other, follower_loop)
                                  (follower_loop_lem c first hs reply
                                    (still-Above c first h hs le passed))
                          ]
                    ]
              ]
      ]

  follow_hints_lem :
      (c : C) (h : LogOffset) (hs : List LogOffset) (reply : LogOffset)
      → Above c (last_hint h hs)
      → Outcome c reply
          (follow_hints env disk slash files rounds Cmd to_binlog list_files c h hs reply)
  unfolding follow_hints In
  follow_hints_lem c h hs reply le =
      let end = last_hint h hs in
      let inside : In h (reverse (h ∷ hs)) = In-reverse_aux h hs (h ∷ []) (inl refl) in
      elim (Bool-cases (ltb end.l_offset.index c.mem_logger.last_offset.l_offset.index)) [
        | inr short ↦
            rw (short, follow_hints) (follower_loop_lem c h (reverse (h ∷ hs)) reply (inr inside))
        | inl longer ↦ elim (Option-cases (cut c end)) [
          | inl out ↦ rw (longer, out, follow_hints) (c, end, uncut c, le, out)
          | inr ((s, d), e) ↦ elim (Bool-cases (is_ok s)) [
            | inl good ↦
                rw (longer, e, good, follow_hints)
                  (after_cut c d end s reply _ le e
                    (follower_loop_lem d h (reverse (h ∷ hs)) reply (inr inside)))
            | inr bad ↦
                rw (longer, e, bad, follow_hints)
                  (truncated c d end s d le e (uncut d), inr (bad, refl))
          ]
        ]
      ]

  Truncations-committed : (c d : C) → Truncations c d → d.committed_index ≡ c.committed_index
  unfolding KeepsCommitted
  Truncations-committed c d (uncut _) = refl
  Truncations-committed c d (truncated _ c' o s _ le e steps) =
      Truncations-committed c' d steps ∙ subst (KeepsCommitted c) e (cut-KeepsCommitted c o)

  abbrev pub IsCommitted : C → Option (Status × C × LogOffset) → Type 0
  IsCommitted c none = Unit
  IsCommitted c (some (s, d, r)) = d.committed_index ≡ c.committed_index

  Outcome-IsCommitted :
      (c : C) (reply : LogOffset) (r : Option (Status × C × LogOffset))
      → Outcome c reply r
      → Outcome c reply r × IsCommitted c r
  Outcome-IsCommitted c reply none h = (h, tt)
  Outcome-IsCommitted c reply (some (s, d, r)) h = (h, Truncations-committed c d h.0)

  follower_negotiate_ends :
      (c : C) (hints : List LogOffset) (reply : LogOffset)
      → Outcome c reply
          (follower_negotiate env disk slash files rounds Cmd to_binlog list_files c hints reply)
  unfolding follower_negotiate
  follower_negotiate_ends c [] reply = (uncut c, inr (refl, refl))
  follower_negotiate_ends c (h ∷ hs) reply =
      let last = c.mem_logger.last_offset.l_offset.index in
      elim (Bool-cases (ltb last h.l_offset.index)) [
        | inl behind ↦ rw (behind, follower_negotiate) (uncut c, inl (refl, refl))
        | inr reached ↦
            elim (Bool-cases
              (ltb (last_hint h hs).l_offset.index c.committed_index.l_offset.index)) [
                | inl invalid ↦
                    rw (reached, invalid, follower_negotiate) (uncut c, inr (refl, refl))
                | inr valid ↦
                    rw (reached, valid, follower_negotiate)
                      (follow_hints_lem c h hs reply (ground (arith, valid)))
              ]
      ]

  -- FollowerNegotiate, whatever the hints, keeps the committed index and ends after truncations
  -- none of which is to an offset with an index below the committed one, with the last offset of
  -- the log as its reply or with a status that is not OK and no reply; or one such truncation runs
  -- out of fuel.
  pub follower_negotiate-Outcome :
      (c : C) (hints : List LogOffset) (reply : LogOffset)
      → Outcome c reply
          (follower_negotiate env disk slash files rounds Cmd to_binlog list_files c hints reply)
        × IsCommitted c
            (follower_negotiate env disk slash files rounds Cmd to_binlog list_files c hints reply)
  follower_negotiate-Outcome c hints reply =
      Outcome-IsCommitted c reply _ (follower_negotiate_ends c hints reply)
