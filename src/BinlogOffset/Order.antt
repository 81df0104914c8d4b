-- ===== src/BinlogOffset/Order.antt =====
-- The comparison operators of `BinlogOffset` against one another.
use pika.Prelude.{◌≡◌, ◌↔◌, true, false, not, ◌||◌, arith}
use pika.BinlogOffset.{BinlogOffset}
use pika.BinlogOffset

pub eq_iff : (a b : BinlogOffset) → (BinlogOffset.eq a b ≡ true) ↔ (a ≡ b)
unfolding BinlogOffset.eq
eq_iff a b = ground arith

pub ne-not-eq : (a b : BinlogOffset) → BinlogOffset.ne a b ≡ not (BinlogOffset.eq a b)
unfolding BinlogOffset.eq BinlogOffset.ne
ne-not-eq a b = ground arith

pub gt-lt : (a b : BinlogOffset) → BinlogOffset.gt a b ≡ BinlogOffset.lt b a
unfolding BinlogOffset.gt BinlogOffset.lt
gt-lt a b = ground arith

pub ge-le : (a b : BinlogOffset) → BinlogOffset.ge a b ≡ BinlogOffset.le b a
unfolding BinlogOffset.ge BinlogOffset.le
ge-le a b = ground arith

pub le-not-gt : (a b : BinlogOffset) → BinlogOffset.le a b ≡ not (BinlogOffset.gt a b)
unfolding BinlogOffset.le BinlogOffset.gt
le-not-gt a b = ground arith

pub le-lt-eq :
    (a b : BinlogOffset) → BinlogOffset.le a b ≡ BinlogOffset.lt a b || BinlogOffset.eq a b
unfolding BinlogOffset.le BinlogOffset.lt BinlogOffset.eq
le-lt-eq a b = ground arith

pub le_refl : (a : BinlogOffset) → BinlogOffset.le a a ≡ true
unfolding BinlogOffset.le
le_refl a = ground arith

pub le_trans :
    (a b c : BinlogOffset)
    → BinlogOffset.le a b ≡ true
    → BinlogOffset.le b c ≡ true
    → BinlogOffset.le a c ≡ true
unfolding BinlogOffset.le
le_trans a b c h k = ground arith

pub lt-le_trans :
    (a b c : BinlogOffset)
    → BinlogOffset.lt a b ≡ true
    → BinlogOffset.le b c ≡ true
    → BinlogOffset.lt a c ≡ true
unfolding BinlogOffset.le BinlogOffset.lt
lt-le_trans a b c h k = ground arith

pub le-lt_trans :
    (a b c : BinlogOffset)
    → BinlogOffset.le a b ≡ true
    → BinlogOffset.lt b c ≡ true
    → BinlogOffset.lt a c ≡ true
unfolding BinlogOffset.le BinlogOffset.lt
le-lt_trans a b c h k = ground arith

pub le-of-lt : (a b : BinlogOffset) → BinlogOffset.lt a b ≡ true → BinlogOffset.le a b ≡ true
unfolding BinlogOffset.le BinlogOffset.lt
le-of-lt a b h = ground arith

pub le-of-not-lt : (a b : BinlogOffset) → BinlogOffset.lt a b ≡ false → BinlogOffset.le b a ≡ true
unfolding BinlogOffset.le BinlogOffset.lt
le-of-not-lt a b h = ground arith

pub not-lt-of-le : (a b : BinlogOffset) → BinlogOffset.le a b ≡ true → BinlogOffset.lt b a ≡ false
unfolding BinlogOffset.le BinlogOffset.lt
not-lt-of-le a b h = ground arith

pub not-eq-of-lt : (a b : BinlogOffset) → BinlogOffset.lt a b ≡ true → BinlogOffset.eq b a ≡ false
unfolding BinlogOffset.eq BinlogOffset.lt
not-eq-of-lt a b h = ground arith
