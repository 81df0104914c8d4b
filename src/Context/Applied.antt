-- ===== src/Context/Applied.antt =====
-- `PrepareUpdateAppliedIndex` and `UpdateAppliedIndex`: the applied index and the items that wait.
use pika.Prelude.{ℕ, ◌≡◌, ◌∙◌, refl, inl, inr, true, false, arith, if◌then◌else◌}
use pika.LogOffset.{LogOffset, log_origin}
use pika.LogOffset
use pika.LogOffset.Order
use pika.BinlogOffset
use pika.SyncWindow.{SyncWindow, SyncWinItem, new_item}
use pika.SyncWindow
use pika.SyncWindow.Search.{update_cases}
use pika.SyncWindow.Offsets.{
  Above, last_or, mark-Above, last_or-mark, pop_acked-Above, last_or-pop_acked, pop_acked_from,
  pop_acked-FrontWaits, FrontWaits, Above-append, FrontWaits-append,
}
use pika.Context.{Context, prepare_update_applied_index, update_applied_index, stable_save}

-- The items that wait rise above the applied index, and the first of them is not applied.
pub record IsContiguous (c : Context) : Type 0 where
  pub rising : Above c.applied_index c.applied_win.win
  pub front : FrontWaits c.applied_win.win

-- What a step leaves of the items to come: the applied index may only grow towards the last of them.
pub record Advances (c c' : Context) : Type 0 where
  pub contiguous : IsContiguous c'
  pub grows : LogOffset.le c.applied_index c'.applied_index ≡ true
  pub last_kept :
      last_or c'.applied_index c'.applied_win.win ≡ last_or c.applied_index c.applied_win.win

not_past : (o : LogOffset) → LogOffset.gt log_origin o ≡ false
unfolding LogOffset.gt BinlogOffset.gt
not_past o = ground arith

-- An item past those that wait may be scheduled.
pub prepare-IsContiguous :
    (c : Context) (o : LogOffset)
    → IsContiguous c
    → LogOffset.lt (last_or c.applied_index c.applied_win.win) o ≡ true
    → IsContiguous (prepare_update_applied_index c o)
unfolding prepare_update_applied_index SyncWindow.push
prepare-IsContiguous c o h lt = record {
  rising = (Above-append c.applied_index c.applied_win.win (new_item o 0) h.rising lt).0;
  front = FrontWaits-append c.applied_win.win (new_item o 0) refl h.front;
}

-- The context once the window was acknowledged from place `i` to place `j`.
abbrev after_ack : Context → SyncWindow.Updated → Context
after_ack c (res, win, cur_offset) =
    if LogOffset.gt cur_offset c.applied_index
    then record {
      applied_index = cur_offset;
      applied_win = win;
      mapped = stable_save cur_offset c.mapped;
    }
    else record c { applied_win = win }

acknowledged :
    (c : Context) (i j : ℕ)
    → IsContiguous c
    → Advances c (after_ack c (SyncWindow.acknowledge c.applied_win i j log_origin))
unfolding SyncWindow.acknowledge
acknowledged c i j h =
    let xs = SyncWindow.mark i j 0 c.applied_win.win in
    let rising = mark-Above i j 0 c.applied_index c.applied_win.win h.rising in
    let last = last_or-mark i j 0 c.applied_index c.applied_win.win in
    elim (pop_acked_from c.applied_index log_origin xs rising) [
      | inl (e, e') ↦
          rw (e, not_past c.applied_index)
            (record {
              contiguous = record {
                rising = rising;
                front = rw e at (pop_acked-FrontWaits xs log_origin);
              };
              grows = Order.le_refl c.applied_index;
              last_kept = last;
            })
      | inr (e, up) ↦
          let past : LogOffset.gt (SyncWindow.pop_acked xs log_origin).1 c.applied_index ≡ true =
            Order.gt-lt (SyncWindow.pop_acked xs log_origin).1 c.applied_index ∙ up in
          rw past (record {
            contiguous = record {
              rising = rw e (pop_acked-Above c.applied_index xs rising);
              front = pop_acked-FrontWaits xs log_origin;
            };
            grows = Order.le-of-lt c.applied_index (SyncWindow.pop_acked xs log_origin).1 up;
            last_kept = rw e (last_or-pop_acked c.applied_index xs) ∙ last;
          })
    ]

-- On a context whose window rises from the applied index and whose first item waits,
-- UpdateAppliedIndex with any offset keeps it so, does not lower the applied index, and keeps the
-- last offset to come.
pub update_applied_index-Advances :
    (c : Context) (o : LogOffset) → IsContiguous c → Advances c (update_applied_index c o)
unfolding update_applied_index
update_applied_index-Advances c o h =
    elim (update_cases c.applied_win (new_item o 0) (new_item o 0) log_origin) [
      | inl e ↦
          rw (e, not_past c.applied_index)
            (record { contiguous = h; grows = Order.le_refl c.applied_index; last_kept = refl })
      | inr (i, j, e) ↦ rw e (acknowledged c i j h)
    ]
