-- ===== src/LogOffset/Order.antt =====
-- The laws of the order on `LogOffset`, taken from those of the binlog position.
use pika.Prelude.{◌≡◌, true, false, ◌||◌}
use pika.BinlogOffset.Order
use pika.LogOffset.{LogOffset}
use pika.LogOffset

pub gt-lt : (a b : LogOffset) → LogOffset.gt a b ≡ LogOffset.lt b a
unfolding LogOffset.gt LogOffset.lt
gt-lt a b = Order.gt-lt a.b_offset b.b_offset

pub ge-le : (a b : LogOffset) → LogOffset.ge a b ≡ LogOffset.le b a
unfolding LogOffset.ge LogOffset.le
ge-le a b = Order.ge-le a.b_offset b.b_offset

pub le_refl : (a : LogOffset) → LogOffset.le a a ≡ true
unfolding LogOffset.le
le_refl a = Order.le_refl a.b_offset

pub le_trans :
    (a b c : LogOffset)
    → LogOffset.le a b ≡ true
    → LogOffset.le b c ≡ true
    → LogOffset.le a c ≡ true
unfolding LogOffset.le
le_trans a b c h k = Order.le_trans a.b_offset b.b_offset c.b_offset h k

pub lt-le_trans :
    (a b c : LogOffset)
    → LogOffset.lt a b ≡ true
    → LogOffset.le b c ≡ true
    → LogOffset.lt a c ≡ true
unfolding LogOffset.le LogOffset.lt
lt-le_trans a b c h k = Order.lt-le_trans a.b_offset b.b_offset c.b_offset h k

pub le-lt_trans :
    (a b c : LogOffset)
    → LogOffset.le a b ≡ true
    → LogOffset.lt b c ≡ true
    → LogOffset.lt a c ≡ true
unfolding LogOffset.le LogOffset.lt
le-lt_trans a b c h k = Order.le-lt_trans a.b_offset b.b_offset c.b_offset h k

pub le-of-lt : (a b : LogOffset) → LogOffset.lt a b ≡ true → LogOffset.le a b ≡ true
unfolding LogOffset.le LogOffset.lt
le-of-lt a b h = Order.le-of-lt a.b_offset b.b_offset h

pub le-of-not-lt : (a b : LogOffset) → LogOffset.lt a b ≡ false → LogOffset.le b a ≡ true
unfolding LogOffset.le LogOffset.lt
le-of-not-lt a b h = Order.le-of-not-lt a.b_offset b.b_offset h

pub not-lt-of-le : (a b : LogOffset) → LogOffset.le a b ≡ true → LogOffset.lt b a ≡ false
unfolding LogOffset.le LogOffset.lt
not-lt-of-le a b h = Order.not-lt-of-le a.b_offset b.b_offset h

pub not-eq-of-lt : (a b : LogOffset) → LogOffset.lt a b ≡ true → LogOffset.eq b a ≡ false
unfolding LogOffset.lt LogOffset.eq
not-eq-of-lt a b h = Order.not-eq-of-lt a.b_offset b.b_offset h

pub le-lt-eq : (a b : LogOffset) → LogOffset.le a b ≡ LogOffset.lt a b || LogOffset.eq a b
unfolding LogOffset.le LogOffset.lt LogOffset.eq
le-lt-eq a b = Order.le-lt-eq a.b_offset b.b_offset
