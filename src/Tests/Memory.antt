-- ===== src/Tests/Memory.antt =====
-- The memory log and the applied index on concrete items.
use pika.Prelude.{ℕ, refl, [], ◌∷◌, true}
use pika.BinlogOffset
use pika.LogOffset.{LogOffset, log_origin}
use pika.LogOffset
use pika.MemLog.{LogItem, MemLog}
use pika.MemLog.Order.{Follows}
use pika.Context.{Context, update_applied_index}
use pika.Context.Applied.{IsContiguous, Advances, update_applied_index-Advances}
use pika.SyncWindow.{new_item}

abbrev at : ℕ → LogOffset
at n = record {
  b_offset = record { filenum = 3; offset = n };
  l_offset = record { term = 1; index = n };
}

abbrev log_item : ℕ → LogItem ℕ
log_item n = record { offset = at n; payload = n }

abbrev mem_log : MemLog ℕ
mem_log = record { logs = log_item 10 ∷ log_item 20 ∷ log_item 30 ∷ []; last_offset = at 30 }

mem_log-Follows : Follows ℕ (at 0) mem_log
unfolding LogOffset.lt BinlogOffset.lt
mem_log-Follows = record { rising = (refl, (refl, (refl, tt))); last_known = refl }

-- Two items are scheduled, and the second is applied already.
abbrev context : Context
context = record {
  applied_index = at 0;
  applied_win = record {
    win = new_item (at 10) 0 ∷ record (new_item (at 20) 0) { acked = true } ∷ [];
    total_size = 0;
  };
  mapped = [];
}

context-IsContiguous : IsContiguous context
unfolding LogOffset.lt BinlogOffset.lt
context-IsContiguous = record { rising = (refl, (refl, tt)); front = refl }

update_applied_index-Advances_example : Advances context (update_applied_index context (at 10))
update_applied_index-Advances_example =
    update_applied_index-Advances context (at 10) context-IsContiguous
