-- ===== src/Tests/Slaves.antt =====
-- Windows, slave nodes and their progress on concrete offsets.
use pika.Prelude.{
  ℕ, ◌≡◌, ◌≤◌, ◌↔◌, refl, List, [], ◌∷◌, ◌++◌, some, none, true, arith, to_string, digits_loop,
  bytes_eq,
}
use pika.Prelude.Table.{lookup, values}
use pika.BinlogOffset.{BinlogOffset}
use pika.BinlogOffset
use pika.LogOffset.{LogOffset, log_origin}
use pika.LogOffset
use pika.BinlogReader.{Cursor}
use pika.SyncWindow.{
  SyncWindow, SyncWinItem, Updated, new_item, item_eq, update, push, find_positions, mark,
  subtract_sizes, pop_acked,
}
use pika.SyncWindow
use pika.SyncWindow.Search.{Covers}
use pika.SyncWindow.Size.{IsCounted, unacked_size, acked_between, acknowledge_counted}
use pika.SlaveNode.{SlaveNode, slave_binlog_sync, read_from_file}
use pika.SlaveNode
use pika.SlaveNode.Acks.{IsOrdered, Acknowledged, update-Acknowledged, activate-IsOrdered}
use pika.SyncProgress.{
  SyncProgress, cal_committed_index, add_slave_node, get_slave_node, slave_size, slave_key,
}
use pika.SyncProgress.Sort.{count_reached}
use pika.SyncProgress.Quorum.{committed_reached, committed_greatest}
use pika.SyncProgress.Keys.{add_slave_node_collides}
use pika.SyncProgress.Steps.{Request, add, remove, acknowledge}
use pika.Tests.Files.{plain}

abbrev at : ℕ → LogOffset
at n = record {
  b_offset = record { filenum = 3; offset = n };
  l_offset = record { term = 1; index = n };
}

-- Three items were sent; the second was acknowledged out of order.
abbrev three : List SyncWinItem
three = new_item (at 10) 5 ∷ record (new_item (at 20) 6) { acked = true } ∷ new_item (at 30) 7 ∷ []

abbrev window : SyncWindow
window = record { win = three; total_size = 12 }

abbrev first : SyncWinItem
first = new_item (at 10) 0

abbrev last : SyncWinItem
last = new_item (at 30) 0

window-Covers : Covers window first last 0 2
unfolding item_eq
window-Covers = record {
  first = new_item (at 10) 5;
  last = new_item (at 30) 7;
  first_at = refl;
  last_at = refl;
  first_eq = refl;
  last_eq = refl;
  ordered = omega arith;
}

window-IsCounted : IsCounted window
window-IsCounted = record {
  counted = refl;
  fits = omega arith;
  words = (omega arith, (omega arith, (omega arith, tt)));
}

acknowledge_counted_example :
    ((SyncWindow.acknowledge window 0 2 log_origin).1.total_size
      ≡ unacked_size (SyncWindow.acknowledge window 0 2 log_origin).1.win)
    ↔ (acked_between 0 2 0 three ≡ 0)
acknowledge_counted_example =
    acknowledge_counted window 0 2 log_origin window-IsCounted (omega arith)

-- A slave that was sent the three items.
abbrev node : SlaveNode plain
node = record {
  ip = 49 ∷ 48 ∷ [];
  port = 9221;
  table_name = 100 ∷ 98 ∷ [];
  partition_id = 0;
  session_id = 1;
  last_send_time = 0;
  last_recv_time = 0;
  slave_state = slave_binlog_sync;
  b_state = read_from_file;
  sync_win = window;
  sent_offset = at 30;
  acked_offset = at 0;
  binlog_reader = none;
}

node-IsOrdered : IsOrdered plain node
unfolding LogOffset.lt BinlogOffset.lt
node-IsOrdered = record { rising = (refl, (refl, (refl, tt))); sent_last = refl }

update-Acknowledged_example :
    Acknowledged plain node (SlaveNode.update plain node (at 10) (at 10) log_origin)
update-Acknowledged_example =
    update-Acknowledged plain node (at 10) (at 10) log_origin node-IsOrdered

abbrev reader : Cursor plain
reader = record { cur_filenum = 3; cur_offset = 0; last_record_offset = 0; queue = [] }

activate-IsOrdered_example :
    IsOrdered plain (SlaveNode.activate_binlog_sync plain node (at 30) reader) ↔ (three ≡ [])
activate-IsOrdered_example = activate-IsOrdered plain node (at 30) reader

-- Three slaves have acknowledged the log up to 30, 10 and 20.
abbrev reached : List (List ℕ × LogOffset)
reached = (1 ∷ [], at 30) ∷ (2 ∷ [], at 10) ∷ (3 ∷ [], at 20) ∷ []

committed_reached_example : 2 ≤ count_reached (cal_committed_index 2 reached) (values reached)
committed_reached_example = committed_reached 2 reached (omega arith) (omega arith)

committed_greatest_example : LogOffset.le (at 20) (cal_committed_index 2 reached) ≡ true
unfolding LogOffset.le BinlogOffset.le
committed_greatest_example =
    committed_greatest 2 reached (at 20) (omega arith) (omega arith) (omega arith)

-- The slave 10.0.0.1 at port 19221 is there when 10.0.0.11 comes at port 9221.
abbrev ip : List ℕ
ip = 49 ∷ 48 ∷ 46 ∷ 48 ∷ 46 ∷ 48 ∷ 46 ∷ 49 ∷ []

abbrev progress : SyncProgress plain
progress = record {
  slaves = (slave_key ip 19221, record node { ip = ip; port = 19221 }) ∷ [];
  match_index = (slave_key ip 19221, at 0) ∷ [];
}

progress-get_slave_node :
    get_slave_node plain progress ip 19221 ≡ some (record node { ip = ip; port = 19221 })
unfolding get_slave_node slave_key lookup bytes_eq to_string digits_loop
progress-get_slave_node = refl

add_slave_node_collides_example :
    let r = add_slave_node plain progress (ip ++ (49 ∷ [])) 9221 (100 ∷ []) 0 5 77 in
    (slave_size plain r.1 ≡ slave_size plain progress)
    × (get_slave_node plain r.1 (ip ++ (49 ∷ [])) 9221
        ≡ some (record node { ip = ip; port = 19221; session_id = 5 }))
    × (get_slave_node plain r.1 ip 19221
        ≡ some (record node { ip = ip; port = 19221; session_id = 5 }))
add_slave_node_collides_example =
    add_slave_node_collides plain progress ip 1 9221 (100 ∷ []) 0 5 77
      (record node { ip = ip; port = 19221 }) (omega arith) (omega arith) (omega arith)
      (omega arith) progress-get_slave_node

abbrev requests : List (Request plain)
requests =
    add ip 9221 (100 ∷ []) 0 5 77
    ∷ add ip 9222 (100 ∷ []) 0 6 78
    ∷ acknowledge 1 ip 9221 (at 0) (at 0) log_origin
    ∷ remove ip 9221
    ∷ []
