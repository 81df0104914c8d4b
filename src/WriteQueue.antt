-- ===== src/WriteQueue.antt =====
-- `write_queues_` of `PikaReplicaManager` in include/pika_rm.h and src/pika_rm.cc: the binlogs that
-- wait to be sent, a queue for each slave and each partition, the front first.
pub mod Batches
pub mod Fifo
pub mod Calls
pub mod Invariant
pub mod Channel
pub mod Run
pub mod Order
pub mod Drain
pub mod Bounds
use pika.Prelude.{
  ℕ, zero, suc, ◌+◌, ◌%◌, ◌^◌, Bool, true, false, ◌&&◌, List, [], ◌∷◌, ◌++◌, Option, none, some,
  ltb, ◌==◌, if◌then◌else◌, length, to_string,
}
use pika.Prelude.Table.{lookup, insert, erase}
use pika.Status.{Status, is_ok}
use pika.RmNode.{WriteTask}

abbrev pub binlog_send_packet_num : ℕ
binlog_send_packet_num = 40

abbrev pub binlog_send_batch_num : ℕ
binlog_send_batch_num = 100

-- `PIKA_MAX_CONN_RBUF_HB`.
abbrev pub max_conn_rbuf_hb : ℕ
max_conn_rbuf_hb = 2 ^ 29

-- `std::unordered_map<uint32_t, std::queue<WriteTask>>`.
abbrev pub PartitionQueues : Type 0
PartitionQueues = List (ℕ × List WriteTask)

abbrev pub WriteQueues : Type 0
WriteQueues = List (List ℕ × PartitionQueues)

-- `ip + ":" + std::to_string(port)`.
unfoldable pub queue_index : List ℕ → ℕ → List ℕ
queue_index ip port = ip ++ (58 ∷ to_string port)

-- `p_map[partition_id].push(task)`.
unfoldable pub push_partition : ℕ → WriteTask → PartitionQueues → PartitionQueues
push_partition p t [] = (p, t ∷ []) ∷ []
push_partition p t ((q, ts) ∷ m) =
    let rest = push_partition p t m in if q == p then (q, ts ++ (t ∷ [])) ∷ m else (q, ts) ∷ rest

-- `write_queues_[index]`, which is an empty map where there was none.
unfoldable pub queues_of : List ℕ → WriteQueues → PartitionQueues
queues_of index w = elim (lookup index w) [ none ↦ [] | some m ↦ m ]

unfoldable pub produce_tasks : List ℕ → ℕ → List WriteTask → WriteQueues → WriteQueues
produce_tasks index p [] w = w
produce_tasks index p (t ∷ ts) w =
    produce_tasks index p ts (insert index (push_partition p t (queues_of index w)) w)

unfoldable pub produce_write_queue : List ℕ → ℕ → ℕ → List WriteTask → WriteQueues → WriteQueues
unfolding queue_index
produce_write_queue ip port p tasks w = produce_tasks (queue_index ip port) p tasks w

-- `batch_size`, an `int`, as the word that holds it: `batch_size > PIKA_MAX_CONN_RBUF_HB`.
unfoldable pub is_over : ℕ → Bool
is_over batch_size = ltb max_conn_rbuf_hb batch_size && ltb batch_size (2 ^ 31)

-- What a loop takes: `to_send`, the queue that is left and `counter`.
pub record Taken (A : Type 0) : Type 0 where
  pub to_send : List A
  pub left : List WriteTask
  pub counter : ℕ

-- The inner loop, for `room` further tasks.
unfoldable pub fill_batch : ℕ → ℕ → List WriteTask → ℕ → Taken WriteTask
unfolding is_over
fill_batch zero batch_size queue counter = record { to_send = []; left = queue; counter = counter }
fill_batch (suc room) batch_size [] counter = record { to_send = []; left = []; counter = counter }
fill_batch (suc room) batch_size (t ∷ queue) counter =
    let size = (batch_size + length t.binlog_chip.binlog) % 2 ^ 32 in
    let rest = fill_batch room size queue (counter + 1) in
    if is_over size
    then record { to_send = []; left = t ∷ queue; counter = counter }
    else record { to_send = t ∷ rest.to_send; left = rest.left; counter = rest.counter }

-- `batch_index`.
unfoldable pub batch_index : List WriteTask → ℕ
batch_index queue =
    if ltb binlog_send_batch_num (length queue) then binlog_send_batch_num else length queue

-- `if (!to_send.empty()) push_back`.
abbrev pub push_batch : List WriteTask → List (List WriteTask) → List (List WriteTask)
push_batch [] batches = batches
push_batch (t ∷ ts) batches = (t ∷ ts) ∷ batches

-- The loop of at most `packets` rounds over one queue.
unfoldable pub take_packets : ℕ → List WriteTask → ℕ → Taken (List WriteTask)
unfolding batch_index fill_batch
take_packets zero queue counter = record { to_send = []; left = queue; counter = counter }
take_packets (suc packets) [] counter = record { to_send = []; left = []; counter = counter }
take_packets (suc packets) (t ∷ queue) counter =
    let batch = fill_batch (batch_index (t ∷ queue)) 0 (t ∷ queue) counter in
    let more = take_packets packets batch.left batch.counter in
    record {
      to_send = push_batch batch.to_send more.to_send;
      left = more.left;
      counter = more.counter;
    }

-- The loop over the partitions of a slave: what goes to `to_send_map[ip_port]`, the queues and
-- `counter`.
unfoldable pub take_partitions : PartitionQueues → ℕ → List (List WriteTask) × PartitionQueues × ℕ
take_partitions [] counter = ([], [], counter)
take_partitions ((p, queue) ∷ m) counter =
    let r = take_packets binlog_send_packet_num queue counter in
    let (to_send, left, n) = take_partitions m r.counter in
    (r.to_send ++ to_send, (p, r.left) ∷ left, n)

abbrev pub ToSend : Type 0
ToSend = List (List ℕ × List (List WriteTask))

-- `to_send_map` has an entry only where a batch was pushed.
abbrev pub push_to_send : List ℕ → List (List WriteTask) → ToSend → ToSend
push_to_send index [] m = m
push_to_send index (b ∷ bs) m = (index, b ∷ bs) ∷ m

-- The loop over the slaves: `to_send_map`, `write_queues_` and `counter`.
unfoldable pub take_slaves : WriteQueues → ℕ → ToSend × WriteQueues × ℕ
take_slaves [] counter = ([], [], counter)
take_slaves ((index, m) ∷ w) counter =
    let (batches, m', n) = take_partitions m counter in
    let (to_send, w', n') = take_slaves w n in
    (push_to_send index batches to_send, (index, m') ∷ w', n')

-- A call of `SendSlaveBinlogChips`.
pub record Call : Type 0 where
  pub ip : List ℕ
  pub port : ℕ
  pub tasks : List WriteTask

-- `answer` is what each call gives, by the calls that were made before it, the last one first;
-- `parse_ip_port` is `slash::ParseIpPortString`.
module _ (answer : List Call → Call → Status) (parse_ip_port : List ℕ → Option (List ℕ × ℕ)) where
  -- The calls for one slave: those made, the last one first, and whether one of them failed.
  unfoldable pub send_batches : List ℕ → ℕ → List (List WriteTask) → List Call → List Call × Bool
  send_batches ip port [] calls = (calls, false)
  send_batches ip port (b ∷ bs) calls =
      let call : Call = record { ip = ip; port = port; tasks = b } in
      let (calls', failed) = send_batches ip port bs (call ∷ calls) in
      (calls', if is_ok (answer calls call) then failed else true)

  -- The loop over `to_send_map`: the calls and `to_delete`, which may name a queue more than once.
  unfoldable pub send_slaves : ToSend → List Call → List Call × List (List ℕ)
  unfolding send_batches
  send_slaves [] calls = (calls, [])
  send_slaves ((index, batches) ∷ m) calls = elim (parse_ip_port index) [
    | none ↦ send_slaves m calls
    | some (ip, port) ↦
        let (calls', failed) = send_batches ip port batches calls in
        let (calls2, to_delete) = send_slaves m calls' in
        (calls2, if failed then index ∷ to_delete else to_delete)
  ]

  unfoldable pub erase_queues : List (List ℕ) → WriteQueues → WriteQueues
  erase_queues [] w = w
  erase_queues (index ∷ to_delete) w = erase_queues to_delete (erase index w)

  -- The calls made, the last one first, the queues and what is returned.
  unfoldable pub consume_write_queue : WriteQueues → List Call × WriteQueues × ℕ
  consume_write_queue w =
      let (to_send, w', counter) = take_slaves w 0 in
      let (calls, to_delete) = send_slaves to_send [] in (calls, erase_queues to_delete w', counter)

unfoldable pub drop_item_in_write_queue : List ℕ → ℕ → WriteQueues → WriteQueues
unfolding queue_index
drop_item_in_write_queue ip port w = erase (queue_index ip port) w
