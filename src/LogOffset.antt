-- ===== src/LogOffset.antt =====
-- `struct LogicOffset` and `struct LogOffset` of include/pika_define.h. A log offset is compared by
-- its binlog position alone.
pub mod Order
use pika.Prelude.{ℕ, Bool, ◌&&◌, ◌||◌, ◌==◌, not}
use pika.BinlogOffset.{BinlogOffset}
use pika.BinlogOffset

pub record LogicOffset : Type 0 where
  pub term : ℕ
  pub index : ℕ

pub record LogOffset : Type 0 where
  pub b_offset : BinlogOffset
  pub l_offset : LogicOffset

-- The default constructors.
abbrev pub logic_origin : LogicOffset
logic_origin = record { term = 0; index = 0 }

abbrev pub log_origin : LogOffset
log_origin = record { b_offset = BinlogOffset.origin; l_offset = logic_origin }

unfoldable pub logic_eq : LogicOffset → LogicOffset → Bool
logic_eq a b = (a.term == b.term) && (a.index == b.index)

unfoldable pub logic_ne : LogicOffset → LogicOffset → Bool
logic_ne a b = not (a.term == b.term) || not (a.index == b.index)

unfoldable pub lt : LogOffset → LogOffset → Bool
lt a b = BinlogOffset.lt a.b_offset b.b_offset

unfoldable pub eq : LogOffset → LogOffset → Bool
eq a b = BinlogOffset.eq a.b_offset b.b_offset

unfoldable pub le : LogOffset → LogOffset → Bool
le a b = BinlogOffset.le a.b_offset b.b_offset

unfoldable pub ge : LogOffset → LogOffset → Bool
ge a b = BinlogOffset.ge a.b_offset b.b_offset

unfoldable pub gt : LogOffset → LogOffset → Bool
gt a b = BinlogOffset.gt a.b_offset b.b_offset
