-- ===== src/BinlogReader/Rounds.antt =====
-- One round of the loop of `Consume`, by the type of the record that it reads.
use pika.Prelude.{ℕ, suc, ◌+◌, ◌≤◌, ◌≡◌, refl, List, ◌++◌, some, arith, length}
use pika.Env.{Env, EnvLaws}
use pika.RecordType
use pika.Status.{ok}
use pika.Binlog.{block_size, header_size}
use pika.BinlogReader.{consumed, Cursor, Physical, read_physical_record, consume_loop}
use pika.BinlogReader.Consume.{ReadOk}
use pika.BinlogReader.Tail.{ItemRead}

module _ (env : Env) (laws : EnvLaws env) where
  open env use {unread}

  -- One round of the loop, by the type of its record.
  module _ (fuel : ℕ) (c : Cursor env) (scratch fragment : List ℕ) (filenum offset : ℕ) where
    abbrev pub physical : Physical env
    physical = read_physical_record env c fragment filenum offset

    pub full_round :
        physical.type ≡ RecordType.full_type
        → consume_loop env (suc fuel) c scratch fragment filenum offset
          ≡ some (consumed env ok physical.fragment physical)
    unfolding consume_loop
    full_round e = rw e

    pub last_round :
        physical.type ≡ RecordType.last_type
        → consume_loop env (suc fuel) c scratch fragment filenum offset
          ≡ some (consumed env ok (scratch ++ physical.fragment) physical)
    unfolding consume_loop
    last_round e = rw e

    pub first_round :
        physical.type ≡ RecordType.first_type
        → consume_loop env (suc fuel) c scratch fragment filenum offset
          ≡ consume_loop env fuel physical.cursor physical.fragment physical.fragment
              physical.filenum physical.offset
    unfolding consume_loop
    first_round e = rw e

    pub middle_round :
        physical.type ≡ RecordType.middle_type
        → consume_loop env (suc fuel) c scratch fragment filenum offset
          ≡ consume_loop env fuel physical.cursor
              (scratch ++ physical.fragment)
              physical.fragment
              physical.filenum
              physical.offset
    unfolding consume_loop
    middle_round e = rw e

  pub ReadOk-ItemRead :
      (c : Cursor env) (type o n : ℕ) (scratch p more : List ℕ) (r : Physical env)
      → ReadOk env laws c type p more r
      → c.last_record_offset ≡ o
      → o + header_size + length p ≤ block_size
      → n ≡ header_size + length p
      → ItemRead env laws c scratch p more
          (o + header_size + length p)
          n
          (consumed env ok (scratch ++ r.fragment) r)
  ReadOk-ItemRead c type o n scratch p more r k e fits en = record {
    status_ok = refl;
    item_read = rw (k.fragment_read);
    filenum_read = k.filenum_read;
    offset_read = k.offset_read;
    filenum_kept = k.filenum_kept;
    offset_moved = omega (arith, k.offset_moved);
    place_moved = omega (arith, k.place_moved);
    rest_left = k.rest_left;
  }
