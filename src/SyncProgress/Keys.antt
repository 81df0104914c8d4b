-- ===== src/SyncProgress/Keys.antt =====
-- The keys of the two maps: an address and a port with nothing in between.
use pika.Prelude.{
  ℕ, suc, ◌+◌, ◌*◌, ◌/◌, ◌%◌, ◌≤◌, ◌<◌, ◌≡◌, ◌∙◌, List, [], ◌∷◌, ◌++◌, some, arith, append_assoc,
  to_string, digits_loop, digits_loop_one,
}
use pika.Prelude.Table.{length-insert, lookup-insert_self}
use pika.Env.{Env}
use pika.SlaveNode.{SlaveNode}
use pika.SyncProgress.{
  SyncProgress, slave_key, get_slave_node, store_slave_node, add_slave_node, slave_size,
}

digits_loop_last :
    (fuel n : ℕ)
    → 10 ≤ n
    → digits_loop (suc fuel) n ≡ digits_loop fuel (n / 10) ++ ((n % 10 + 48) ∷ [])
unfolding digits_loop
digits_loop_last fuel n h = ground arith

front_one :
    (fuel d p : ℕ)
    → 0 < d
    → d < 10
    → p < 10
    → digits_loop (suc (suc fuel)) (d * 10 + p) ≡ (d + 48) ∷ digits_loop (suc (suc fuel)) p
front_one fuel d p h1 h2 h3 =
    let q : (d * 10 + p) / 10 ≡ d = omega arith in
    let r : (d * 10 + p) % 10 ≡ p = omega arith in
    digits_loop_last (suc fuel) (d * 10 + p) (omega arith)
    ∙ rw (q, r, digits_loop_one fuel d h2, digits_loop_one (suc fuel) p h3)

front_step :
    (fuel d m p : ℕ)
    → 10 ≤ p
    → digits_loop fuel (d * m + p / 10) ≡ (d + 48) ∷ digits_loop fuel (p / 10)
    → digits_loop (suc fuel) (d * (10 * m) + p) ≡ (d + 48) ∷ digits_loop (suc fuel) p
front_step fuel d m p h ih =
    let q : (d * (10 * m) + p) / 10 ≡ d * m + p / 10 = omega arith in
    let r : (d * (10 * m) + p) % 10 ≡ p % 10 = omega arith in
    digits_loop_last fuel (d * (10 * m) + p) (omega arith)
    ∙ rw (q, r, ih, digits_loop_last fuel p h)

-- A digit in front of a four-digit number is printed in front of it.
to_string_front :
    (d p : ℕ)
    → 0 < d
    → d < 10
    → 1000 ≤ p
    → p < 10000
    → to_string (d * 10000 + p) ≡ (d + 48) ∷ to_string p
unfolding to_string
to_string_front d p h1 h2 h3 h4 = front_step 19 d 1000 p (omega arith) (
    front_step 18 d 100 (p / 10) (omega arith) (
      front_step 17 d 10 (p / 10 / 10) (omega arith)
        (front_one 15 d (p / 10 / 10 / 10) h1 h2 (omega arith))))

-- Two addresses, of which one ends in the digit that the other's port begins with, share a key.
slave_key_collides :
    (ip : List ℕ) (d p : ℕ)
    → 0 < d
    → d < 10
    → 1000 ≤ p
    → p < 10000
    → slave_key (ip ++ ((d + 48) ∷ [])) p ≡ slave_key ip (d * 10000 + p)
unfolding slave_key
slave_key_collides ip d p h1 h2 h3 h4 =
    append_assoc ip ((d + 48) ∷ []) (to_string p) ∙ rw (to_string_front d p h1 h2 h3 h4)

-- If a slave is there at a five-digit port, one whose address is the same followed by the first
-- digit of that port, and whose port is the other four, is not added: it gets the first one's node
-- and changes its session.
pub add_slave_node_collides :
    (env : Env) (s : SyncProgress env) (ip : List ℕ) (d p : ℕ) (table_name : List ℕ)
    (partition_id session_id now : ℕ) (n : SlaveNode env)
    → 0 < d
    → d < 10
    → 1000 ≤ p
    → p < 10000
    → get_slave_node env s ip (d * 10000 + p) ≡ some n
    → let r =
        add_slave_node env s (ip ++ ((d + 48) ∷ [])) p table_name partition_id session_id now in
      (slave_size env r.1 ≡ slave_size env s)
      × (get_slave_node env r.1 (ip ++ ((d + 48) ∷ [])) p
          ≡ some (record n { session_id = session_id }))
      × (get_slave_node env r.1 ip (d * 10000 + p) ≡ some (record n { session_id = session_id }))
unfolding add_slave_node get_slave_node store_slave_node slave_size
add_slave_node_collides env s ip d p table_name partition_id session_id now n h1 h2 h3 h4 found =
    let e = slave_key_collides ip d p h1 h2 h3 h4 in
    rw (e, found, add_slave_node, store_slave_node, e)
      (
        length-insert (slave_key ip (d * 10000 + p)) (record n { session_id = session_id }) s.slaves
            ∙ rw found,
        lookup-insert_self (slave_key ip (d * 10000 + p)) (record n { session_id = session_id })
            s.slaves,
        lookup-insert_self (slave_key ip (d * 10000 + p)) (record n { session_id = session_id })
            s.slaves,
      )
