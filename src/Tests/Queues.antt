-- ===== src/Tests/Queues.antt =====
-- Binlogs on their way to one slave.
use pika.Prelude.{
  ℕ, zero, suc, ap, ◌+◌, ◌^◌, ◌≡◌, refl, List, [], ◌∷◌, ◌++◌, Option, some, none, arith,
  if◌then◌else◌, bytes_eq, length, to_string,
}
use pika.Status.{Status, ok}
use pika.LogOffset.{log_origin}
use pika.RmNode.{no_node, WriteTask}
use pika.Prelude.Table.{insert, lookup}
use pika.WriteQueue.{
  WriteQueues, Call, queue_index, consume_write_queue, produce_write_queue, produce_tasks,
  push_partition, queues_of, take_slaves, take_partitions, take_packets, batch_index, fill_batch,
  is_over, send_slaves, send_batches,
}
use pika.WriteQueue.Fifo.{pending, queue_of}
use pika.WriteQueue.Calls.{received, has_failed, IsNamed}
use pika.WriteQueue.Invariant.{IsSound}
use pika.WriteQueue.Run.{Op, produce, consume, start, step, run, AllFit, AllAllowed, run_refines}
use pika.WriteQueue.Order.{AllUndisturbed, all_asked, run_in_order}
use pika.WriteQueue.Drain.{rounds, rounds_drain, consume_write_queue_blocked}
use pika.WriteQueue.Bounds.{AllCalls, consume_write_queue-AllCalls}

abbrev ip : List ℕ
ip = 49 ∷ []

-- `1:9221`.
abbrev index : List ℕ
index = 49 ∷ 58 ∷ 57 ∷ 50 ∷ 50 ∷ 49 ∷ []

abbrev parse : List ℕ → Option (List ℕ × ℕ)
parse s = if bytes_eq s index then some (ip, 9221) else none

-- A task of partition 3 with that binlog.
abbrev task : List ℕ → WriteTask
task binlog = record {
  rm_node = record no_node { partition_info = record { table_name = []; partition_id = 3 } };
  binlog_chip = record { offset = log_origin; binlog = binlog };
  prev_offset = log_origin;
}

abbrev tasks : List WriteTask
tasks = task (1 ∷ []) ∷ task (2 ∷ []) ∷ []

abbrev sends : List Call → Call → Status
sends calls call = ok

abbrev ops : List Op
ops = produce ip 9221 3 tasks ∷ consume sends ∷ []

abbrev queues : WriteQueues
queues = (index, (3, tasks) ∷ []) ∷ []

index_eq : queue_index ip 9221 ≡ index
unfolding queue_index to_string
index_eq = refl

index-IsNamed : IsNamed parse (queue_index ip 9221)
unfolding queue_index to_string bytes_eq
index-IsNamed = (ip, 9221, refl, refl)

ops-AllFit : AllFit parse ops
ops-AllFit = ((index-IsNamed, (refl, (refl, tt))), (tt, tt))

run_refines_example : AllAllowed parse index 3 ops start
run_refines_example = run_refines parse index 3 ops ops-AllFit

ops-AllUndisturbed : AllUndisturbed parse index ops start
unfolding step consume_write_queue produce_write_queue produce_tasks queue_index to_string insert
    push_partition queues_of lookup take_slaves take_partitions take_packets batch_index fill_batch
    is_over send_slaves send_batches bytes_eq has_failed
ops-AllUndisturbed = (tt, (refl, tt))

run_in_order_example :
    received index 3 (run parse ops start).calls ++ pending index 3 (run parse ops start).queues
    ≡ all_asked index 3 ops
run_in_order_example = run_in_order parse index 3 ops ops-AllFit ops-AllUndisturbed

queues-IsSound : IsSound parse queues
unfolding lookup queue_index to_string bytes_eq
queues-IsSound = record {
  queues = (((refl, (refl, tt)), tt, tt), refl, tt);
  named = ((ip, 9221, refl, refl), tt);
}

rounds_drain_example : pending index 3 (rounds parse (λ n. sends) 2 queues) ≡ []
unfolding pending queues_of queue_of lookup bytes_eq
rounds_drain_example =
    rounds_drain parse (λ n. sends) index 3 2 queues queues-IsSound (omega arith, (omega arith, tt))
      (omega arith)

-- A binlog of any length.
unfoldable zeros : ℕ → List ℕ
zeros zero = []
zeros (suc n) = 0 ∷ zeros n

length-zeros : (n : ℕ) → length (zeros n) ≡ n
unfolding zeros
length-zeros zero = refl
length-zeros (suc n) = ap suc (length-zeros n)

-- One byte too long.
abbrev huge : List ℕ
huge = zeros (2 ^ 29 + 1)

length-huge : length huge ≡ 2 ^ 29 + 1
length-huge = length-zeros (2 ^ 29 + 1)

abbrev blocked : WriteQueues
blocked = (index, (3, task huge ∷ tasks) ∷ []) ∷ []

blocked-IsSound : IsSound parse blocked
unfolding lookup queue_index to_string bytes_eq
blocked-IsSound = record {
  queues = (((refl, (refl, (refl, tt))), tt, tt), refl, tt);
  named = ((ip, 9221, refl, refl), tt);
}

pending-blocked : pending index 3 blocked ≡ task huge ∷ tasks
unfolding pending queues_of queue_of lookup bytes_eq
pending-blocked = refl

consume_write_queue_blocked_example :
    (received index 3 (consume_write_queue sends parse blocked).0 ≡ [])
    × (pending index 3 (consume_write_queue sends parse blocked).1 ≡ (
        if has_failed sends index (consume_write_queue sends parse blocked).0
        then []
        else task huge ∷ tasks))
consume_write_queue_blocked_example =
    consume_write_queue_blocked parse sends index 3 blocked (task huge) tasks blocked-IsSound
      pending-blocked (omega (arith, length-huge)) (omega (arith, length-huge))

consume_write_queue-AllCalls_example : AllCalls (consume_write_queue sends parse queues).0
consume_write_queue-AllCalls_example =
    consume_write_queue-AllCalls sends parse queues (((omega arith, (omega arith, tt)), tt), tt)
