-- ===== src/Tests/Replicas.antt =====
-- The partitions of a server.
use pika.Prelude.{
  Option, ◌≡◌, refl, ◌⊎◌, ◌&&◌, not, [], ◌∷◌, some, none, true, false, arith, bytes_eq, replicate,
}
use pika.Status.{Status, ok, corruption}
use pika.RmNode.{PartitionInfo, no_node, eq}
use pika.PartitionTable.{find}
use pika.PartitionTable.Less.{less, less-eq}
use pika.SlavePartition.{SyncSlavePartition, try_connect, wait_db_sync}
use pika.ReplicaManager.{Master, add_sync_partition, add_sync_partition_sanity_check}
use pika.ReplicaManager.Connect.{Request, Manager}
use pika.ReplicaManager.DbSync.{run_sync_slave_partition_state_machine}
use pika.ReplicaManager.States.{Move}
use pika.ReplicaManager.Machine.{run_state_machine-Move}
use pika.ReplicaManager.Known.{is_in, all_db, is_known}
use pika.ReplicaManager.Registry.{Added, add_sync_partition_cases}
use pika.MasterSlots
use pika.MasterSlots.{db_idx_from_str, find_slot}
use pika.MasterSlots.Keys.{is_db}
use pika.Tests.Files.{plain}
use pika.Tests.Proposal.{Cmd, to_binlog, leader}

abbrev first : PartitionInfo
first = record { table_name = 100 ∷ 98 ∷ 48 ∷ []; partition_id = 0 }

abbrev second : PartitionInfo
second = record { table_name = 100 ∷ 98 ∷ 49 ∷ []; partition_id = 0 }

abbrev asking : SyncSlavePartition
asking = record { m_info = no_node; repl_state = try_connect; local_ip = [] }

abbrev waiting : SyncSlavePartition
waiting = record { m_info = no_node; repl_state = wait_db_sync; local_ip = [] }

abbrev master : PartitionInfo → Master plain Cmd to_binlog
master p = record { coordinator = leader; session_id = 0 }

abbrev manager : Manager plain Cmd to_binlog
manager = record {
  masters = some (master first) ∷ some (master second) ∷ replicate 6 none;
  slaves = (first, asking) ∷ (second, waiting) ∷ [];
  write_queues = [];
  loop_state_machine = true;
  infos = [];
}

abbrev empty : Manager plain Cmd to_binlog
empty = record {
  masters = replicate 8 none;
  slaves = [];
  write_queues = [];
  loop_state_machine = false;
  infos = [];
}

abbrev sends : Request → Status
sends request = ok

abbrev moved : Manager plain Cmd to_binlog
moved =
    (run_sync_slave_partition_state_machine plain Cmd to_binlog sends (λ s. none) (λ p. true) 1 7
      manager).1

run_state_machine-Move_example :
    (s : SyncSlavePartition) × (find first moved.slaves ≡ some s) × Move asking s
unfolding find eq bytes_eq
run_state_machine-Move_example =
    run_state_machine-Move plain Cmd to_binlog (λ s. none) (λ p. true) 1 7 sends manager first
      asking ((refl, tt), (tt, tt)) refl

less-eq_example : less first second ≡ not (eq first second)
less-eq_example =
    less-eq first second (omega arith, (omega arith, (omega arith, tt)))
      (omega arith, (omega arith, (omega arith, tt)))

abbrev added : Option (Status × Manager plain Cmd to_binlog)
added = add_sync_partition plain Cmd to_binlog master 7 empty (first ∷ [])

add_sync_partition_cases_example :
    ((rm' : Manager plain Cmd to_binlog) × (added ≡ some (ok, rm'))
      × (all_db (first ∷ []) ≡ true)
      × ((is_in first (first ∷ []) && is_known plain Cmd to_binlog empty first) ≡ false)
      × Added plain Cmd to_binlog master 7 empty (first ∷ []) rm' first)
    ⊎ (added ≡ some (corruption, empty))
    ⊎ ((added ≡ none) × (all_db (first ∷ []) ≡ false))
unfolding is_db db_idx_from_str
add_sync_partition_cases_example =
    add_sync_partition_cases plain Cmd to_binlog master 7 empty (first ∷ []) first refl refl

-- A database db9 has no slot: the program ends.
ninth-add_sync_partition :
    add_sync_partition plain Cmd to_binlog master 7 empty
      (record { table_name = 100 ∷ 98 ∷ 57 ∷ []; partition_id = 0 } ∷ [])
    ≡ none
unfolding add_sync_partition add_sync_partition_sanity_check MasterSlots.find find_slot
    db_idx_from_str
ninth-add_sync_partition = refl
