-- ===== src/Tests/Negotiations.antt =====
-- A follower that asks a leader whether its log is a part of the leader's.
use pika.Prelude.{ℕ, ◌≡◌, ◌≤◌, ◌*◌, ◌↔◌, refl, ◌⊎◌, inr, [], ◌∷◌, some, arith}
use pika.Status.{ok}
use pika.LogOffset.{LogOffset}
use pika.Binlog.{Binlog}
use pika.Coordinator.{Coordinator}
use pika.BinlogOffset
use pika.Binlog.{get_producer_status}
use pika.BinlogReader.{
  get, get_loop, find_file, consume, block_left, char_to_uint, consume_loop, find_older, read_body,
  read_physical_record, read_record, roll_to, skip_tail,
}
use pika.BinlogReader.{header_length, header_type, read_to_the_end}
use pika.LittleEndian.{from_bytes}
use pika.BinlogSeek.{seek, seek_file, at_block, seek_loop, get_next, get_next_loop}
use pika.Transverter.{binlog_item_without_content_decode}
use pika.Negotiate.{
  find_binlog_file_num, find_logic_offset, get_binlog_offset, find_logic_offset_by_searching_binlog,
  last_key, has_key, decoded, find_index, find_loop, get_binlog_offsets, init_reader, range_loop,
  search_file,
}
use pika.Negotiate.Answer.{leader_negotiate}
use pika.Negotiate.Leader.{accepted, leader_negotiate-accepts}
use pika.Tests.Files.{plain, coding}
use pika.Tests.Proposal.{log, leader, Cmd, to_binlog}

-- Log 7 of term 1, in one record at the front of the file.
abbrev pub one_log : Binlog plain
one_log = record log {
  queue =
      35 ∷ 0 ∷ 0 ∷ 7 ∷ 0 ∷ 0 ∷ 0 ∷ 1 ∷ 1 ∷ 0 ∷ 0 ∷ 0 ∷ 0 ∷ 0 ∷ 1 ∷ 0 ∷ 0 ∷ 0 ∷ 7 ∷ 0 ∷ 0 ∷ 0 ∷ 0 ∷ 0
      ∷ 0 ∷ 0 ∷ 0 ∷ 0 ∷ 0 ∷ 0 ∷ 0 ∷ 0 ∷ 0 ∷ 0 ∷ 0 ∷ 0 ∷ 0 ∷ 0 ∷ 1 ∷ 0 ∷ 0 ∷ 0 ∷ 97 ∷ [];
  version = record { pro_num = 3; pro_offset = 43; logic_id = 8; term = 1 };
}

abbrev pub seventh : LogOffset
seventh = record {
  b_offset = record { filenum = 3; offset = 43 };
  l_offset = record { term = 1; index = 7 };
}

abbrev pub asked : Coordinator plain Cmd to_binlog
asked = record leader {
  logger = one_log;
  first_offset = seventh;
  mem_logger = record { logs = []; last_offset = seventh };
}

seventh-find_logic_offset :
    find_logic_offset plain coding 1 3 (some (3 ∷ [])) one_log seventh.b_offset 7
    ≡ some (ok, seventh)
unfolding find_logic_offset get_binlog_offset get seek seek_file get_loop get_producer_status
    find_file find_logic_offset_by_searching_binlog find_binlog_file_num last_key has_key consume
    BinlogOffset.gt block_left char_to_uint consume_loop find_older read_body read_physical_record
    read_record roll_to skip_tail at_block decoded find_index find_loop get_binlog_offsets
    init_reader range_loop search_file binlog_item_without_content_decode seek_loop get_next
    get_next_loop header_length header_type read_to_the_end from_bytes
seventh-find_logic_offset = refl

leader_negotiate-accepts_example :
    (leader_negotiate plain coding 1 3 Cmd to_binlog (some (3 ∷ [])) asked seventh ≡ some accepted)
    ↔ ((7 ≤ 7)
        × (7 ≤ 7)
        × ((seventh.l_offset.index ≡ 0)
            ⊎ (find_logic_offset plain coding 1 3 (some (3 ∷ [])) one_log seventh.b_offset 7
                ≡ some (ok, seventh))))
leader_negotiate-accepts_example =
    leader_negotiate-accepts plain coding 1 3 Cmd to_binlog (some (3 ∷ [])) asked seventh

-- It is accepted.
seventh-leader_negotiate :
    leader_negotiate plain coding 1 3 Cmd to_binlog (some (3 ∷ [])) asked seventh ≡ some accepted
seventh-leader_negotiate =
    leader_negotiate-accepts_example.1 (omega arith, omega arith, inr seventh-find_logic_offset)

-- Each file begins with a log whose index is ten times its number.
abbrev tenfold : ℕ → LogOffset
tenfold n = record seventh { l_offset = record { term = 1; index = 10 * n } }
