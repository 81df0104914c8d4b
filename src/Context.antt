-- ===== src/Context.antt =====
-- `Context` of include/pika_consensus.h and src/pika_consensus.cc: how far the committed log has been
-- applied to the database, kept in a mapped file.
pub mod Applied
pub mod Saved
use pika.Prelude.{ℕ, Bool, true, false, List, ◌++◌, drop, if◌then◌else◌}
use pika.LittleEndian.{to_bytes, from_bytes}
use pika.LogOffset.{LogOffset, log_origin}
use pika.LogOffset
use pika.SyncWindow.{SyncWindow, new_item}
use pika.SyncWindow

-- `mapped` is what `save_->GetData()` points at.
pub record Context : Type 0 where
  pub applied_index : LogOffset
  pub applied_win : SyncWindow
  pub mapped : List ℕ

unfoldable pub stable_save : LogOffset → List ℕ → List ℕ
stable_save o mapped =
    to_bytes 4 o.b_offset.filenum
    ++ (to_bytes 8 o.b_offset.offset
        ++ (to_bytes 4 o.l_offset.term ++ (to_bytes 8 o.l_offset.index ++ drop 24 mapped)))

-- What `Init` reads from the file.
unfoldable pub load : List ℕ → LogOffset
load mapped = record {
  b_offset = record {
    filenum = (from_bytes 4 mapped).0;
    offset = (from_bytes 8 (drop 4 mapped)).0;
  };
  l_offset = record {
    term = (from_bytes 4 (drop 12 mapped)).0;
    index = (from_bytes 8 (drop 16 mapped)).0;
  };
}

-- `Init`: a file that is new gets the present index first.
unfoldable pub init : Bool → Context → Context
init exists c =
    let mapped = if exists then c.mapped else stable_save c.applied_index c.mapped in
    record c { applied_index = load mapped; mapped = mapped }

unfoldable pub prepare_update_applied_index : Context → LogOffset → Context
prepare_update_applied_index c o = record c {
  applied_win = SyncWindow.push c.applied_win (new_item o 0);
}

unfoldable pub update_applied_index : Context → LogOffset → Context
update_applied_index c o =
    let (res, win, cur_offset) =
      SyncWindow.update c.applied_win (new_item o 0) (new_item o 0) log_origin in
    if LogOffset.gt cur_offset c.applied_index
    then record {
      applied_index = cur_offset;
      applied_win = win;
      mapped = stable_save cur_offset c.mapped;
    }
    else record c { applied_win = win }

unfoldable pub reset : Context → LogOffset → Context
reset c o = record {
  applied_index = o;
  applied_win = SyncWindow.reset c.applied_win;
  mapped = stable_save o c.mapped;
}
