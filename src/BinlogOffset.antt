-- ===== src/BinlogOffset.antt =====
-- `struct BinlogOffset` of include/pika_define.h: a file number and an offset in that file.
pub mod Order
use pika.Prelude.{ℕ, Bool, true, false, ◌&&◌, ◌||◌, ltb, leb, ◌==◌, not, if◌then◌else◌}

pub record BinlogOffset : Type 0 where
  pub filenum : ℕ
  pub offset : ℕ

-- The default constructor.
abbrev pub origin : BinlogOffset
origin = record { filenum = 0; offset = 0 }

unfoldable pub eq : BinlogOffset → BinlogOffset → Bool
eq a b = if (a.filenum == b.filenum) && (a.offset == b.offset) then true else false

unfoldable pub ne : BinlogOffset → BinlogOffset → Bool
ne a b = if not (a.filenum == b.filenum) || not (a.offset == b.offset) then true else false

unfoldable pub gt : BinlogOffset → BinlogOffset → Bool
gt a b =
    if ltb b.filenum a.filenum || ((a.filenum == b.filenum) && ltb b.offset a.offset)
    then true
    else false

unfoldable pub lt : BinlogOffset → BinlogOffset → Bool
lt a b =
    if ltb a.filenum b.filenum || ((a.filenum == b.filenum) && ltb a.offset b.offset)
    then true
    else false

unfoldable pub le : BinlogOffset → BinlogOffset → Bool
le a b =
    if ltb a.filenum b.filenum || ((a.filenum == b.filenum) && leb a.offset b.offset)
    then true
    else false

unfoldable pub ge : BinlogOffset → BinlogOffset → Bool
ge a b =
    if ltb b.filenum a.filenum || ((a.filenum == b.filenum) && leb b.offset a.offset)
    then true
    else false
