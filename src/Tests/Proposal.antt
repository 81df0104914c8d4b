-- ===== src/Tests/Proposal.antt =====
-- A proposal on a log that holds a few bytes.
use pika.Prelude.{ℕ, ◌≡◌, refl, List, [], ◌∷◌, some, true, false, arith}
use pika.Status.{ok}
use pika.BinlogOffset
use pika.LogOffset.{log_origin}
use pika.Binlog.{
  Binlog, put, roll, record_put, save_version, produce, produce_loop, fill_block, produce_fragment,
  fragment_length, emit_physical_record, write_record, record_header, fragment_type, to_int,
  get_producer_status,
}
use pika.Binlog.Place.{IsPlaced, place, put-IsPlaced}
use pika.Transverter.{BinlogItem}
use pika.SyncWindow.{empty_window}
use pika.Coordinator.{Coordinator, propose_log, internal_append_log, append_log_item, proposed_item}
use pika.Coordinator.Propose.{IsRooted, Proposed, propose_log-Proposed}
use pika.Tests.Files.{plain, plain-EnvLaws}
use pika.Tests.Log.{clock}

abbrev pub log : Binlog plain
log = record {
  opened = true;
  version = record { pro_num = 3; pro_offset = 2; logic_id = 8; term = 1 };
  manifest = [];
  queue = 0 ∷ 0 ∷ [];
  pro_num = 3;
  block_offset = 2;
  file_size = 104857600;
  binlog_io_error = false;
  older = [];
}

log-IsPlaced : IsPlaced plain plain-EnvLaws log
log-IsPlaced = record {
  in_block = omega arith;
  aligned = refl;
  counted = refl;
  numbered = refl;
  is_open = refl;
}

abbrev item : List ℕ
item = 97 ∷ []

-- The log with the item behind what it held.
abbrev longer : Binlog plain
longer =
    (record_put plain (
      ok,
      record log { queue = 0 ∷ 0 ∷ 1 ∷ 0 ∷ 0 ∷ 7 ∷ 0 ∷ 0 ∷ 0 ∷ 1 ∷ 97 ∷ []; block_offset = 11 },
      11,
    )).1

log-put : put plain clock log item ≡ some (ok, longer)
unfolding put roll produce produce_loop fill_block produce_fragment fragment_length
    emit_physical_record write_record record_header fragment_type to_int record_put
log-put = refl

put-IsPlaced_example :
    IsPlaced plain plain-EnvLaws longer
    × (BinlogOffset.lt (place plain plain-EnvLaws log) (place plain plain-EnvLaws longer) ≡ true)
    × (longer.version.logic_id ≡ 9)
unfolding record_put save_version
put-IsPlaced_example =
    put-IsPlaced plain plain-EnvLaws clock log item longer log-IsPlaced (omega arith) (omega arith)
      log-put (omega arith)

abbrev pub Cmd : Type 0
Cmd = List ℕ

abbrev pub to_binlog : Cmd → BinlogItem → List ℕ
to_binlog cmd attribute = cmd

abbrev pub leader : Coordinator plain Cmd to_binlog
leader = record {
  table_name = [];
  partition_id = 0;
  committed_index = log_origin;
  context = record { applied_index = log_origin; applied_win = empty_window; mapped = [] };
  term = 1;
  sync_pros = record { slaves = []; match_index = [] };
  logger = log;
  first_offset = log_origin;
  mem_logger = record { logs = []; last_offset = log_origin };
  client_tasks = [];
  write_db_tasks = [];
  failed_cmds = [];
}

leader-IsRooted : IsRooted plain plain-EnvLaws Cmd to_binlog leader
unfolding BinlogOffset.le
leader-IsRooted = record {
  sound = record {
    contiguous = record { rising = tt; front = tt };
    follows = record { rising = tt; last_known = refl };
  };
  placed = log-IsPlaced;
  last_below = refl;
}

abbrev proposed : Coordinator plain Cmd to_binlog
proposed =
    (append_log_item plain Cmd to_binlog 1 leader (proposed_item plain Cmd to_binlog 7 log) item
      (ok, longer)).1

leader-propose_log : propose_log plain Cmd to_binlog 1 clock 7 leader item ≡ some (ok, proposed)
unfolding propose_log internal_append_log append_log_item get_producer_status
leader-propose_log = rw log-put

propose_log-Proposed_example : Proposed plain plain-EnvLaws Cmd to_binlog leader item proposed
unfolding append_log_item record_put save_version
propose_log-Proposed_example =
    propose_log-Proposed plain plain-EnvLaws Cmd to_binlog 1 clock 7 leader item proposed
      (omega arith) leader-IsRooted (omega arith) (omega arith) leader-propose_log (omega arith)
