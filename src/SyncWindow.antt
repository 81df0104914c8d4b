-- ===== src/SyncWindow.antt =====
-- `SyncWinItem` and `SyncWindow` of include/pika_slave_node.h and src/pika_slave_node.cc: the
-- binlog items that were sent and are not yet acknowledged in order.
pub mod Offsets
pub mod Search
pub mod Size
use pika.Prelude.{
  ℕ, suc, ◌+◌, ◌-◌, ◌%◌, ◌^◌, Bool, true, false, ◌&&◌, ◌||◌, List, [], ◌∷◌, ◌++◌, ltb, leb, ◌==◌,
  if◌then◌else◌, length,
}
use pika.LogOffset.{LogOffset}

pub record SyncWinItem : Type 0 where
  pub offset : LogOffset
  pub binlog_size : ℕ
  pub acked : Bool

-- The constructor `SyncWinItem(offset, binlog_size)`.
abbrev pub new_item : LogOffset → ℕ → SyncWinItem
new_item o n = record { offset = o; binlog_size = n; acked = false }

unfoldable pub item_eq : SyncWinItem → SyncWinItem → Bool
item_eq a b =
    (a.offset.b_offset.filenum == b.offset.b_offset.filenum)
    && (a.offset.b_offset.offset == b.offset.b_offset.offset)

-- `win_` is a deque, its front first; `total_size_` is a `size_t` of 64 bits.
pub record SyncWindow : Type 0 where
  pub win : List SyncWinItem
  pub total_size : ℕ

-- The constructor, and what `Reset` leaves.
abbrev pub empty_window : SyncWindow
empty_window = record { win = []; total_size = 0 }

unfoldable pub reset : SyncWindow → SyncWindow
reset w = record w { win = []; total_size = 0 }

abbrev pub size_mod : ℕ
size_mod = 2 ^ 64

unfoldable pub push : SyncWindow → SyncWinItem → SyncWindow
push w x = record {
  win = w.win ++ (x ∷ []);
  total_size = (w.total_size + x.binlog_size) % size_mod;
}

-- The first loop of `Update`: `i` is the index of the head, and the pair holds `start_pos` and
-- `end_pos`. The loop ends at the first item that equals `end_item`.
unfoldable pub find_positions : List SyncWinItem → ℕ → SyncWinItem → SyncWinItem → ℕ → ℕ → ℕ × ℕ
find_positions [] i s e start_pos end_pos = (start_pos, end_pos)
find_positions (x ∷ xs) i s e start_pos end_pos =
    let start_pos' = if item_eq x s then i else start_pos in
    let rest = find_positions xs (suc i) s e start_pos' end_pos in
    if item_eq x e then (start_pos', i) else rest

-- The second loop of `Update`: the items from `start_pos` to `end_pos` are acked.
unfoldable pub mark : ℕ → ℕ → ℕ → List SyncWinItem → List SyncWinItem
mark start_pos end_pos i [] = []
mark start_pos end_pos i (x ∷ xs) =
    (if leb start_pos i && leb i end_pos then record x { acked = true } else x)
    ∷ mark start_pos end_pos (suc i) xs

-- What the same loop leaves in `total_size_`: each step subtracts on 64 bits.
unfoldable pub subtract_sizes : ℕ → ℕ → ℕ → List SyncWinItem → ℕ → ℕ
subtract_sizes start_pos end_pos i [] total = total
subtract_sizes start_pos end_pos i (x ∷ xs) total = subtract_sizes start_pos end_pos (suc i) xs (
    if leb start_pos i && leb i end_pos
    then (total + size_mod - x.binlog_size) % size_mod
    else total)

-- The last loop of `Update`: acked items leave at the front, and `*acked_offset` follows them.
unfoldable pub pop_acked : List SyncWinItem → LogOffset → List SyncWinItem × LogOffset
pop_acked [] o = ([], o)
pop_acked (x ∷ xs) o = let rest = pop_acked xs x.offset in if x.acked then rest else (x ∷ xs, o)

-- The result, the window afterwards and `*acked_offset`.
abbrev pub Updated : Type 0
Updated = Bool × SyncWindow × LogOffset

unfoldable pub acknowledge : SyncWindow → ℕ → ℕ → LogOffset → Updated
acknowledge w start_pos end_pos o =
    let (left, o') = pop_acked (mark start_pos end_pos 0 w.win) o in
    (
      true,
      record { win = left; total_size = subtract_sizes start_pos end_pos 0 w.win w.total_size },
      o',
    )

unfoldable pub update : SyncWindow → SyncWinItem → SyncWinItem → LogOffset → Updated
unfolding acknowledge
update w s e o =
    let n = length w.win in
    let (start_pos, end_pos) = find_positions w.win 0 s e n n in
    if (start_pos == n) || (end_pos == n) then (false, w, o) else acknowledge w start_pos end_pos o

-- `Remaining()` computes a `size_t` and returns it as an `int`: the 64-bit difference, of which the
-- low 32 bits are kept. The result is the bit pattern of that `int`.
unfoldable pub remaining : ℕ → SyncWindow → ℕ
remaining sync_window_size w =
    let remaining_size = (sync_window_size + size_mod - length w.win) % size_mod in
    if ltb 0 remaining_size then remaining_size % 2 ^ 32 else 0
