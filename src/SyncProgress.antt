-- ===== src/SyncProgress.antt =====
-- `SyncProgress` of include/pika_consensus.h and src/pika_consensus.cc: the slaves of a partition and
-- how far each has acknowledged the log.
pub mod Sort
pub mod Quorum
pub mod Keys
pub mod Steps
use pika.Prelude.{
  ℕ, ◌-◌, Bool, true, false, List, [], ◌∷◌, ◌++◌, Option, none, some, ltb, ◌==◌, if◌then◌else◌,
  length, get_or, to_string,
}
use pika.Prelude.Table.{lookup, insert, erase, values}
use pika.Env.{Env}
use pika.LogOffset.{LogOffset, log_origin}
use pika.LogOffset
use pika.Status.{Status, ok, not_found, is_ok}
use pika.SlaveNode.{SlaveNode, new_slave_node}
use pika.SlaveNode

-- `ip + std::to_string(port)`.
unfoldable pub slave_key : List ℕ → ℕ → List ℕ
slave_key ip port = ip ++ to_string port

-- `std::sort` by `operator<`, as the insertion sort that keeps equal offsets in their order.
unfoldable pub insert_sorted : LogOffset → List LogOffset → List LogOffset
insert_sorted x [] = x ∷ []
insert_sorted x (y ∷ ys) =
    let rest = insert_sorted x ys in if LogOffset.lt y x then y ∷ rest else x ∷ y ∷ ys

unfoldable pub sort : List LogOffset → List LogOffset
sort [] = []
sort (x ∷ xs) = insert_sorted x (sort xs)

-- `InternalCalCommittedIndex` at a consensus level.
unfoldable pub cal_committed_index : ℕ → List (List ℕ × LogOffset) → LogOffset
cal_committed_index consensus_level match_index =
    let offsets = sort (values match_index) in
    if consensus_level == 0
    then log_origin
    else if ltb (length match_index) consensus_level
    then log_origin
    else get_or offsets (length offsets - consensus_level) log_origin

module _ (env : Env) where
  pub record SyncProgress : Type 0 where
    pub slaves : List (List ℕ × SlaveNode env)
    pub match_index : List (List ℕ × LogOffset)

  unfoldable pub get_slave_node : SyncProgress → List ℕ → ℕ → Option (SlaveNode env)
  get_slave_node s ip port = lookup (slave_key ip port) s.slaves

  -- The map holds pointers: a node that was got and changed is changed in the map.
  unfoldable pub store_slave_node : SyncProgress → List ℕ → ℕ → SlaveNode env → SyncProgress
  store_slave_node s ip port n = record s { slaves = insert (slave_key ip port) n s.slaves }

  unfoldable pub add_slave_node :
      SyncProgress → List ℕ → ℕ → List ℕ → ℕ → ℕ → ℕ → Status × SyncProgress
  add_slave_node s ip port table_name partition_id session_id now =
      elim (get_slave_node s ip port) [
        | some n ↦ (ok, store_slave_node s ip port (record n { session_id = session_id }))
        | none ↦
            let n = record (new_slave_node env ip port table_name partition_id session_id) {
              last_send_time = now;
              last_recv_time = now;
            } in
            (
              ok,
              record (store_slave_node s ip port n) {
                match_index = insert (slave_key ip port) log_origin s.match_index;
              },
            )
      ]

  unfoldable pub remove_slave_node : SyncProgress → List ℕ → ℕ → Status × SyncProgress
  remove_slave_node s ip port = (
    ok,
    record {
      slaves = erase (slave_key ip port) s.slaves;
      match_index = erase (slave_key ip port) s.match_index;
    },
  )

  -- `Update`: the status, the progress and `*committed_index`, from its value before.
  unfoldable pub update :
      SyncProgress
      → ℕ
      → List ℕ
      → ℕ
      → LogOffset
      → LogOffset
      → LogOffset
      → Status × SyncProgress × LogOffset
  update s consensus_level ip port start end committed_index = elim (get_slave_node s ip port) [
    | none ↦ (not_found, s, committed_index)
    | some n ↦
        let (status, n', acked_offset) = SlaveNode.update env n start end log_origin in
        let stored = store_slave_node s ip port n' in
        let matched = record stored {
          match_index = insert (slave_key ip port) acked_offset s.match_index;
        } in
        if is_ok status
        then (ok, matched, cal_committed_index consensus_level matched.match_index)
        else (status, stored, committed_index)
  ]

  unfoldable pub slave_size : SyncProgress → ℕ
  slave_size s = length s.slaves
