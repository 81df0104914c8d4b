-- ===== src/BinlogReader/Errors.antt =====
-- How `Get` goes through the files of a log, and what it says where one cannot be read.
use pika.Prelude.{ℕ, ◌+◌, ◌%◌, ◌^◌, ◌≡◌, ◌⊎◌, true, false, List, Option, some, none}
use pika.Env.{Env}
use pika.Status.{ok, io_error, end_file, is_end_file}
use pika.Binlog.{Binlog}
use pika.BinlogReader.{Cursor, Consumed, read_to_the_end, consume, find_file, roll_to}

module _ (env : Env) where
  -- What `Get` holds at the head of its loop: `*scratch`, `*filenum` and `*offset`, and the reader.
  pub record Place : Type 0 where
    pub scratch : List ℕ
    pub filenum : ℕ
    pub offset : ℕ
    pub cursor : Cursor env

  abbrev pub consume_at : Place → Option (Consumed env)
  consume_at x = consume env x.cursor x.scratch x.filenum x.offset

  abbrev next_file : Consumed env → ℕ
  next_file q = (q.cursor.cur_filenum + 1) % 2 ^ 32

  -- From one place to another: each time Consume found the end of the file, before that of the log,
  -- and there is a next file.
  pub data Rolls (b : Binlog env) : Place → Place → Type 0 where
    here : (x : Place) → Rolls b x x
    roll :
        (x y : Place) (q : Consumed env) (f : env.File)
        → read_to_the_end env b x.cursor ≡ false
        → consume_at x ≡ some q
        → is_end_file q.status ≡ true
        → find_file env b (next_file q) ≡ some f
        → Rolls b
            (record {
              scratch = q.scratch;
              filenum = q.filenum;
              offset = q.offset;
              cursor = roll_to env q.cursor f;
            })
            y
        → Rolls b x y

  -- What `Get` returns from its last place.
  abbrev pub Ends : Binlog env → Place → Consumed env → Type 0
  Ends b y r =
      ((read_to_the_end env b y.cursor ≡ true)
        × (r ≡ record {
          status = end_file;
          scratch = y.scratch;
          filenum = y.filenum;
          offset = y.offset;
          cursor = y.cursor;
        }))
      ⊎ ((q : Consumed env) × (read_to_the_end env b y.cursor ≡ false)
          × (consume_at y ≡ some q)
          × (((is_end_file q.status ≡ false) × (r ≡ record q { status = ok }))
              ⊎ ((is_end_file q.status ≡ true)
                  × (find_file env b (next_file q) ≡ none)
                  × (r ≡ record q { status = io_error }))))
