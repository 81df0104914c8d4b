-- ===== src/BinlogReader/Tail.antt =====
-- The tail of a block, which the reader skips, and what a read item leaves.
use pika.Prelude.{
  ℕ, zero, suc, ◌+◌, ◌-◌, ◌%◌, ◌^◌, ◌≤◌, ◌<◌, ◌≡◌, ◌∙◌, refl, ◌⊎◌, List, ◌++◌, arith, append_assoc,
  length,
}
use pika.Env.{Env, EnvLaws}
use pika.Status.{ok}
use pika.Binlog.Layout.{header}
use pika.Binlog.{block_size, header_size}
use pika.BinlogReader.{Cursor, Consumed, block_left, skip_tail, read_physical_record, consume_loop}
use pika.BinlogReader.Consume.{ReadOk, read_record-ReadOk}

module _ (env : Env) (laws : EnvLaws env) where
  open env use {unread}

  -- The reader stands where the writer stood: at place `o` of a block, the end of a block being also
  -- the start of the next.
  abbrev pub StandsAt : Cursor env → ℕ → Type 0
  StandsAt c o = (c.last_record_offset ≡ o) ⊎ ((o ≡ block_size) × (c.last_record_offset ≡ 0))

  -- What is left once the item `p`, which takes `n` bytes of the file, was read behind `scratch`.
  pub record ItemRead (c : Cursor env) (scratch p more : List ℕ) (o n : ℕ) (r : Consumed env)
      : Type 0 where
    pub status_ok : r.status ≡ ok
    pub item_read : r.scratch ≡ scratch ++ p
    pub filenum_read : r.filenum ≡ c.cur_filenum
    pub offset_read : r.offset ≡ r.cursor.cur_offset
    pub filenum_kept : r.cursor.cur_filenum ≡ c.cur_filenum
    pub offset_moved : r.cursor.cur_offset ≡ (c.cur_offset + n) % 2 ^ 64
    pub place_moved : r.cursor.last_record_offset ≡ o
    pub rest_left : unread r.cursor.queue ≡ more

  pub ItemRead-after :
      (c d : Cursor env) (scratch scratch' p1 p2 more : List ℕ) (o n1 n2 : ℕ) (r : Consumed env)
      → ItemRead d scratch' p2 more o n2 r
      → scratch' ≡ scratch ++ p1
      → d.cur_filenum ≡ c.cur_filenum
      → d.cur_offset ≡ (c.cur_offset + n1) % 2 ^ 64
      → ItemRead c scratch (p1 ++ p2) more o (n1 + n2) r
  ItemRead-after c d scratch scratch' p1 p2 more o n1 n2 r h es ef eo = record {
    status_ok = h.status_ok;
    item_read = h.item_read ∙ rw es (append_assoc scratch p1 p2);
    filenum_read = h.filenum_read ∙ ef;
    offset_read = h.offset_read;
    filenum_kept = h.filenum_kept ∙ ef;
    offset_moved = omega (arith, h.offset_moved, eo);
    place_moved = h.place_moved;
    rest_left = h.rest_left;
  }

  -- The reader behind the tail of a block.
  abbrev pub next_block : Cursor env → ℕ → Cursor env
  next_block c o = record c {
    queue = env.skip c.queue (block_size - o);
    cur_offset = (c.cur_offset + (block_size - o)) % 2 ^ 64;
    last_record_offset = 0;
  }

  pub skip_tail_short :
      (c : Cursor env) (o : ℕ)
      → c.last_record_offset ≡ o
      → o ≤ block_size
      → block_size ≤ o + header_size
      → skip_tail env c ≡ next_block c o
  unfolding skip_tail
  skip_tail_short c o e le tight =
      let left : block_left env c ≡ block_size - o = unfold block_left in omega arith in
      rw left (ground arith)

  pub skip_tail_long :
      (c : Cursor env) → c.last_record_offset + header_size < block_size → skip_tail env c ≡ c
  unfolding skip_tail
  skip_tail_long c lt =
      let left : block_left env c ≡ block_size - c.last_record_offset =
        unfold block_left in omega arith in
      rw left (ground arith)

  pub read_physical_record-next_block :
      (c : Cursor env) (fragment : List ℕ) (filenum offset o : ℕ)
      → c.last_record_offset ≡ o
      → o ≤ block_size
      → block_size ≤ o + header_size
      → read_physical_record env c fragment filenum offset
        ≡ read_physical_record env (next_block c o) fragment filenum offset
  unfolding read_physical_record
  read_physical_record-next_block c fragment filenum offset o e le tight =
      rw (skip_tail_short c o e le tight, skip_tail_long (next_block c o) (omega arith))

  -- A round begins behind the tail of the block all the same.
  pub consume_loop-next_block :
      (fuel : ℕ) (c : Cursor env) (scratch fragment : List ℕ) (filenum offset o : ℕ)
      → c.last_record_offset ≡ o
      → o ≤ block_size
      → block_size ≤ o + header_size
      → consume_loop env fuel c scratch fragment filenum offset
        ≡ consume_loop env fuel (next_block c o) scratch fragment filenum offset
  unfolding consume_loop
  consume_loop-next_block zero c scratch fragment filenum offset o e le tight = refl
  consume_loop-next_block (suc fuel) c scratch fragment filenum offset o e le tight =
      rw (read_physical_record-next_block c fragment filenum offset o e le tight)

  -- A record that stands inside its block.
  pub read_here :
      (c : Cursor env) (type now : ℕ) (p more fragment : List ℕ) (filenum offset : ℕ)
      → c.last_record_offset + header_size + length p ≤ block_size
      → 0 < type
      → type < 128
      → 0 < length p
      → unread c.queue ≡ header type (length p) now ++ (p ++ more)
      → ReadOk env laws c type p more (read_physical_record env c fragment filenum offset)
  unfolding read_physical_record
  read_here c type now p more fragment filenum offset fits ht ht' hp h =
      rw (skip_tail_long c (omega arith)) (
        read_record-ReadOk env laws c type now p more fragment filenum offset ht ht' hp
          (omega arith) h)
