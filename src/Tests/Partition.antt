-- ===== src/Tests/Partition.antt =====
-- The log of a partition: a reset, a bad record, and an item on its way to the database.
use pika.Prelude.{
  ◌<◌, ℕ, ◌+◌, ◌≡◌, ◌≤◌, ◌<◌, ◌⊎◌, ◌↔◌, refl, List, [], ◌∷◌, some, true, false, arith, length, ◌%◌,
}
use pika.Status.{ok, io_error}
use pika.BinlogOffset
use pika.LogOffset.{LogOffset, log_origin}
use pika.LogOffset
use pika.Binlog.{Binlog, put, roll, record_put, save_version, block_size, get_producer_status}
use pika.BinlogReader.{Cursor}
use pika.BinlogReset.{append_padding, append_padding_loop, write_padding, set_producer_status}
use pika.BinlogReset.Padding.{append_padding_lem}
use pika.BinlogReset.Places.{set_producer_status_places}
use pika.Transverter.{BinlogItem}
use pika.SyncWindow.{new_item}
use pika.SyncProgress.{cal_committed_index}
use pika.Coordinator.{
  Coordinator, written_offset, append_log_item, update_slave, update_applied_index,
  process_leader_log,
}
use pika.Coordinator.Commit.{update_slave-Committed}
use pika.Coordinator.Pipeline.{Sound, Grows}
use pika.Coordinator.Events.{Run, Run-Sound, appends, acknowledges, applies, stop, next}
use pika.Coordinator.Leader.{process_leader_log_failed}
use pika.Binlog.{
  from_int, produce, produce_loop, fill_block, produce_fragment, fragment_length,
  emit_physical_record, write_record,
}
use pika.Env.{Env}
use pika.Tests.Files.{plain, plain-EnvLaws}
use pika.Tests.Log.{near_end, item, clock, written, near_end-produce}

abbrev at : ℕ → LogOffset
at n = record {
  b_offset = record { filenum = 3; offset = n };
  l_offset = record { term = 1; index = n };
}

abbrev Cmd : Type 0
Cmd = List ℕ

abbrev to_binlog : Cmd → BinlogItem → List ℕ
to_binlog cmd attribute = cmd

-- The applied index is 10, 20 is scheduled and 30 waits in memory; one slave has acknowledged 20.
abbrev partition : Coordinator plain Cmd to_binlog
partition = record {
  table_name = [];
  partition_id = 0;
  committed_index = at 20;
  context = record {
    applied_index = at 10;
    applied_win = record { win = new_item (at 20) 0 ∷ []; total_size = 0 };
    mapped = [];
  };
  term = 1;
  sync_pros = record { slaves = []; match_index = [] };
  logger = near_end;
  first_offset = log_origin;
  mem_logger = record {
    logs = record { offset = at 30; payload = 97 ∷ [] } ∷ [];
    last_offset = at 30;
  };
  client_tasks = [];
  write_db_tasks = [];
  failed_cmds = [];
}

partition-Sound : Sound plain Cmd to_binlog partition
unfolding LogOffset.lt BinlogOffset.lt
partition-Sound = record {
  contiguous = record { rising = (refl, tt); front = refl };
  follows = record { rising = (refl, tt); last_known = refl };
}

abbrev attribute : BinlogItem
attribute = record {
  exec_time = 7;
  term_id = 1;
  logic_id = 31;
  filenum = 3;
  offset = 65526;
  content = [];
}

abbrev logger : Binlog plain
logger = (record_put plain (ok, written, 65547)).1

near_end-put : put plain clock near_end item ≡ some (ok, logger)
unfolding put roll record_put
near_end-put = rw near_end-produce

abbrev appended : Coordinator plain Cmd to_binlog
appended = (append_log_item plain Cmd to_binlog 1 partition attribute item (ok, logger)).1

abbrev acknowledged : Coordinator plain Cmd to_binlog
acknowledged = (update_slave plain Cmd to_binlog 1 appended [] 9221 (at 30) (at 30)).1

abbrev applied : Coordinator plain Cmd to_binlog
applied = update_applied_index plain Cmd to_binlog acknowledged (at 20)

above_last : LogOffset.lt (at 30) (written_offset plain Cmd to_binlog logger attribute) ≡ true
unfolding LogOffset.lt BinlogOffset.lt written_offset get_producer_status record_put save_version
    from_int
above_last = refl

partition-Run : Run plain Cmd to_binlog 1 partition applied
partition-Run =
    next partition appended applied (appends clock attribute item ok logger near_end-put above_last)
      (next appended acknowledged applied (acknowledges [] 9221 (at 30) (at 30))
        (next acknowledged applied applied (applies (at 20)) (stop applied)))

Run-Sound_example : Grows plain Cmd to_binlog partition applied
Run-Sound_example = Run-Sound plain Cmd to_binlog 1 partition applied partition-Run partition-Sound

update_slave-Committed_example :
    (acknowledged.committed_index ≡ appended.committed_index)
    ⊎ ((acknowledged.committed_index ≡ cal_committed_index 1 acknowledged.sync_pros.match_index)
        × (acknowledged.committed_index.l_offset.term ≡ appended.term)
        × (LogOffset.lt appended.committed_index acknowledged.committed_index ≡ true))
update_slave-Committed_example =
    update_slave-Committed plain Cmd to_binlog 1 appended [] 9221 (at 30) (at 30)

append_padding_lem_example :
    let r = append_padding plain 7 (1 ∷ 2 ∷ []) 20 in
    (length r.1 ≡ 2 + r.2) × (r.2 ≤ 20) × (20 < r.2 + 8)
unfolding append_padding append_padding_loop write_padding
append_padding_lem_example = append_padding_lem plain plain-EnvLaws 7 (1 ∷ 2 ∷ []) 20 refl

set_producer_status_places_example :
    let r = set_producer_status plain 7 near_end 4 5 1 30 in
    let n = length r.1.queue in
    (r.0 ≡ ok)
    × (r.1.version.pro_offset ≤ 5)
    × (5 < r.1.version.pro_offset + 8)
    × (r.1.block_offset ≡ n % block_size)
    × ((n ≡ r.1.version.pro_offset) ↔ (true ≡ false))
unfolding append_padding
set_producer_status_places_example =
    set_producer_status_places plain plain-EnvLaws 7 near_end 4 5 1 30 refl refl

-- A reader in front of a padding record.
abbrev at_padding : Cursor plain
at_padding = record {
  cur_filenum = 3;
  cur_offset = 0;
  last_record_offset = 0;
  queue = 1 ∷ 0 ∷ 0 ∷ 7 ∷ 0 ∷ 0 ∷ 0 ∷ 6 ∷ b'*' ∷ [];
}

-- Files that take no write.
abbrev broken : Env
broken = record plain { append = λ f s. (io_error, f) }

abbrev unwritten : Binlog broken
unwritten = record {
  opened = true;
  version = near_end.version;
  manifest = [];
  queue = [];
  pro_num = 3;
  block_offset = 65526;
  file_size = 104857600;
  binlog_io_error = false;
  older = [];
}

abbrev follower : Coordinator broken Cmd to_binlog
follower = record {
  table_name = [];
  partition_id = 0;
  committed_index = at 20;
  context = partition.context;
  term = 1;
  sync_pros = record { slaves = []; match_index = [] };
  logger = unwritten;
  first_offset = log_origin;
  mem_logger = partition.mem_logger;
  client_tasks = [];
  write_db_tasks = [];
  failed_cmds = [];
}

abbrev failed : Binlog broken
failed = record unwritten { block_offset = 65536; binlog_io_error = true }

unwritten-put : put broken clock unwritten item ≡ some (io_error, failed)
unfolding put roll record_put produce produce_loop fill_block produce_fragment fragment_length
    emit_physical_record write_record
unwritten-put = refl

process_leader_log_failed_example :
    process_leader_log broken Cmd to_binlog 0 clock follower item attribute
    ≡ some (
      ok,
      record follower {
        logger = failed;
        failed_cmds = item ∷ [];
        write_db_tasks = record { offset = log_origin; payload = item } ∷ [];
      },
    )
process_leader_log_failed_example =
    process_leader_log_failed broken Cmd to_binlog 0 clock follower item attribute io_error failed
      (omega arith) unwritten-put refl
