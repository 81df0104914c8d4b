-- ===== src/RecordType.antt =====
-- `enum RecordType` of include/pika_define.h.
use pika.Prelude.{ℕ}

abbrev pub zero_type : ℕ
zero_type = 0

abbrev pub full_type : ℕ
full_type = 1

abbrev pub first_type : ℕ
first_type = 2

abbrev pub middle_type : ℕ
middle_type = 3

abbrev pub last_type : ℕ
last_type = 4

abbrev pub eof : ℕ
eof = 5

abbrev pub bad_record : ℕ
bad_record = 6

abbrev pub old_record : ℕ
old_record = 7
