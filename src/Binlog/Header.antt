-- ===== src/Binlog/Header.antt =====
-- The headers that `EmitPhysicalRecord` of src/pika_binlog.cc writes are those of the format.
use pika.Prelude.{ℕ, ◌≡◌, refl, Bool, true, false, arith, length}
use pika.LittleEndian.{to_bytes}
use pika.Binlog.{record_header, fragment_type}
use pika.Binlog.Layout.{header, tag}

pub length-record_header : (kind n now : ℕ) → length (record_header kind n now) ≡ 8
unfolding record_header
length-record_header kind n now = refl

pub length-header : (kind n now : ℕ) → length (header kind n now) ≡ 8
unfolding header to_bytes
length-header kind n now = refl

pub written_header :
    (begin end : Bool) (n now : ℕ)
    → record_header (fragment_type begin end) n now ≡ header (tag begin end) n now
unfolding record_header fragment_type header to_bytes
written_header true true n now = ground arith
written_header true false n now = ground arith
written_header false true n now = ground arith
written_header false false n now = ground arith
