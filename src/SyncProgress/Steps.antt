-- ===== src/SyncProgress/Steps.antt =====
-- `AddSlaveNode`, `RemoveSlaveNode` and `Update`: the two maps of a `SyncProgress`.
use pika.Prelude.{
  ℕ, ◌≡◌, refl, sym, ap, ◌∙◌, true, List, [], ◌∷◌, some, arith, Option-cases, Bool-cases, inl, inr,
  length, suc,
}
use pika.Prelude.Table.{lookup, insert, erase, keys, lookup-insert_self}
use pika.Env.{Env}
use pika.Status.{Status, ok, is_ok}
use pika.LogOffset.{LogOffset, log_origin}
use pika.LogOffset
use pika.SlaveNode.Acks.{IsOrdered, update-Acknowledged}
use pika.SlaveNode
use pika.SlaveNode.{SlaveNode}
use pika.SyncProgress.{
  SyncProgress, slave_key, get_slave_node, store_slave_node, add_slave_node, remove_slave_node,
  update, slave_size, cal_committed_index,
}

module _ {V W : Type 0} where
  keys-insert :
      (k : List ℕ) (v : V) (w : W) (m : List (List ℕ × V)) (m' : List (List ℕ × W))
      → keys m ≡ keys m'
      → keys (insert k v m) ≡ keys (insert k w m')
  unfolding insert
  keys-insert k v w [] [] h = refl
  keys-insert k v w [] (y ∷ m') h = cc
  keys-insert k v w (x ∷ m) [] h = cc
  keys-insert k v w ((j, x) ∷ m) ((j', y) ∷ m') h = ground (arith, keys-insert k v w m m')

  keys-erase :
      (k : List ℕ) (m : List (List ℕ × V)) (m' : List (List ℕ × W))
      → keys m ≡ keys m'
      → keys (erase k m) ≡ keys (erase k m')
  unfolding erase
  keys-erase k [] [] h = refl
  keys-erase k [] (y ∷ m') h = cc
  keys-erase k (x ∷ m) [] h = cc
  keys-erase k ((j, x) ∷ m) ((j', y) ∷ m') h = ground (arith, keys-erase k m m')

keys-insert_present {ℓ} :
    {V : Type ℓ} (k : List ℕ) (v w : V) (m : List (List ℕ × V))
    → lookup k m ≡ some w
    → keys (insert k v m) ≡ keys m
unfolding lookup insert
keys-insert_present k v w [] h = cc
keys-insert_present k v w ((j, x) ∷ m) h = ground (arith, keys-insert_present k v w m)

length-keys {ℓ} : {V : Type ℓ} (m : List (List ℕ × V)) → length (keys m) ≡ length m
length-keys [] = refl
length-keys ((k, v) ∷ m) = ap suc (length-keys m)

is_ok-ok : (s : Status) → is_ok s ≡ true → s ≡ ok
is_ok-ok s h = ground arith

module _ (env : Env) where
  abbrev pub InStep : SyncProgress env → Type 0
  InStep s = keys s.slaves ≡ keys s.match_index

  -- Adding a slave, known or new, removing one and taking an acknowledgement keep the two maps in
  -- step.
  pub add_slave_node-InStep :
      (s : SyncProgress env) (ip : List ℕ) (port : ℕ) (table_name : List ℕ)
      (partition_id session_id now : ℕ)
      → InStep s
      → InStep (add_slave_node env s ip port table_name partition_id session_id now).1
  unfolding add_slave_node store_slave_node get_slave_node
  add_slave_node-InStep s ip port table_name partition_id session_id now h =
      elim (Option-cases (lookup (slave_key ip port) s.slaves)) [
        | inl new ↦
            rw (new, add_slave_node) (keys-insert (slave_key ip port) _ _ s.slaves s.match_index h)
        | inr (n, old) ↦
            rw (old, add_slave_node) (keys-insert_present (slave_key ip port) _ n s.slaves old ∙ h)
      ]

  remove_slave_node-InStep :
      (s : SyncProgress env) (ip : List ℕ) (port : ℕ)
      → InStep s
      → InStep (remove_slave_node env s ip port).1
  unfolding remove_slave_node
  remove_slave_node-InStep s ip port h = keys-erase (slave_key ip port) s.slaves s.match_index h

  update-InStep :
      (s : SyncProgress env) (level : ℕ) (ip : List ℕ) (port : ℕ) (start end before : LogOffset)
      → InStep s
      → InStep (update env s level ip port start end before).1
  unfolding update get_slave_node store_slave_node
  update-InStep s level ip port start end before h =
      elim (Option-cases (lookup (slave_key ip port) s.slaves)) [
        | inl missing ↦ rw (missing, update) h
        | inr (n, found) ↦
            elim (Bool-cases (is_ok (SlaveNode.update env n start end log_origin).0)) [
              | inl good ↦
                  rw (found, update, good)
                    (keys-insert (slave_key ip port) _ _ s.slaves s.match_index h)
              | inr bad ↦
                  rw (found, update, bad)
                    (keys-insert_present (slave_key ip port) _ n s.slaves found ∙ h)
            ]
      ]

  -- What the outside does to a partition's slaves.
  pub data Request : Type 0 where
    add : (ip : List ℕ) (port : ℕ) (table_name : List ℕ) (partition_id session_id now : ℕ) → Request
    remove : (ip : List ℕ) (port : ℕ) → Request
    acknowledge : (level : ℕ) (ip : List ℕ) (port : ℕ) (start end before : LogOffset) → Request

  abbrev pub handle : SyncProgress env → Request → SyncProgress env
  handle s (add ip port table_name partition_id session_id now) =
      (add_slave_node env s ip port table_name partition_id session_id now).1
  handle s (remove ip port) = (remove_slave_node env s ip port).1
  handle s (acknowledge level ip port start end before) =
      (update env s level ip port start end before).1

  abbrev pub run : SyncProgress env → List Request → SyncProgress env
  run s [] = s
  run s (r ∷ rs) = run (handle s r) rs

  handle-InStep : (s : SyncProgress env) (r : Request) → InStep s → InStep (handle s r)
  handle-InStep s (add ip port t p i now) h = add_slave_node-InStep s ip port t p i now h
  handle-InStep s (remove ip port) h = remove_slave_node-InStep s ip port h
  handle-InStep s (acknowledge level ip port start end before) h =
      update-InStep s level ip port start end before h

  run-InStep : (rs : List Request) (s : SyncProgress env) → InStep s → InStep (run s rs)
  run-InStep [] s h = h
  run-InStep (r ∷ rs) s h = run-InStep rs (handle s r) (handle-InStep s r h)

  -- From the empty progress on, whatever slaves are added, removed or acknowledge, the two maps
  -- hold the same keys in the same order, and so as many offsets as slaves.
  pub run_in_step :
      (rs : List Request)
      → let s = run (record { slaves = []; match_index = [] }) rs in
        (keys s.slaves ≡ keys s.match_index) × (slave_size env s ≡ length s.match_index)
  unfolding slave_size
  run_in_step rs =
      let h = run-InStep rs (record { slaves = []; match_index = [] }) refl in
      (h, sym (length-keys _) ∙ ap length h ∙ length-keys _)

  -- An acknowledgement that the node, found and with its offsets in order, takes is stored with
  -- the node, sets its match index to the acked offset, which did not fall, and reports the
  -- committed index of the map as it is then.
  pub update_taken :
      (s : SyncProgress env) (level : ℕ) (ip : List ℕ) (port : ℕ) (start end before : LogOffset)
      (n : SlaveNode env)
      → get_slave_node env s ip port ≡ some n
      → IsOrdered env n
      → is_ok (SlaveNode.update env n start end log_origin).0 ≡ true
      → let r = update env s level ip port start end before in
        let n' = (SlaveNode.update env n start end log_origin).1 in
        (r.0 ≡ ok)
        × (get_slave_node env r.1 ip port ≡ some n')
        × (lookup (slave_key ip port) r.1.match_index ≡ some n'.acked_offset)
        × (LogOffset.le n.acked_offset n'.acked_offset ≡ true)
        × (r.2 ≡ cal_committed_index level r.1.match_index)
  unfolding update store_slave_node get_slave_node
  update_taken s level ip port start end before n found h good =
      let a = update-Acknowledged env n start end log_origin h in
      let e : (SlaveNode.update env n start end log_origin).2
          ≡ (SlaveNode.update env n start end log_origin).1.acked_offset =
        a.reported (is_ok-ok _ good) in
      rw (found, update, good)
        (
          refl,
          lookup-insert_self (slave_key ip port) _ s.slaves,
          lookup-insert_self (slave_key ip port) _ s.match_index ∙ ap some e,
          a.grows,
          refl,
        )
