-- ===== src/BinlogReader/SameFile.antt =====
-- `Consume` stays in its file.
use pika.Prelude.{
  ℕ, zero, suc, ◌≡◌, ◌∙◌, Bool, true, false, ◌==◌, List, [], ◌++◌, Option, some, none, arith,
  if◌then◌else◌, subst,
}
use pika.Env.{Env}
use pika.RecordType
use pika.Binlog.{header_size}
use pika.BinlogReader.{
  Cursor, Consumed, consume, consume_loop, read_physical_record, read_record, read_body, skip_tail,
  header_length, header_type,
}

module _ (env : Env) where
  KeepsFile : Cursor env → Option (Consumed env) → Type 0
  KeepsFile c none = Unit
  KeepsFile c (some r) = r.cursor.cur_filenum ≡ c.cur_filenum

  if_KeepsFile :
      (c : Cursor env) (b : Bool) (x y : Option (Consumed env))
      → KeepsFile c x
      → KeepsFile c y
      → KeepsFile c (if b then x else y)
  if_KeepsFile c true x y hx hy = hx
  if_KeepsFile c false x y hx hy = hy

  moved :
      (c d : Cursor env) (x : Option (Consumed env))
      → d.cur_filenum ≡ c.cur_filenum
      → KeepsFile d x
      → KeepsFile c x
  unfolding KeepsFile
  moved c d none same h = tt
  moved c d (some r) same h = h ∙ same

  skip_tail-file : (c : Cursor env) → (skip_tail env c).cur_filenum ≡ c.cur_filenum
  unfolding skip_tail
  skip_tail-file c = ground arith

  read_body-file :
      (c : Cursor env) (type n filenum offset : ℕ)
      → (read_body env c type n filenum offset).cursor.cur_filenum ≡ c.cur_filenum
  unfolding read_body
  read_body-file c type n filenum offset = ground arith

  read_physical_record-file :
      (c : Cursor env) (fragment : List ℕ) (filenum offset : ℕ)
      → (read_physical_record env c fragment filenum offset).cursor.cur_filenum ≡ c.cur_filenum
  unfolding read_physical_record read_record
  read_physical_record-file c fragment filenum offset =
      let d = skip_tail env c in
      let header = env.read d.queue header_size in
      ground (
        arith,
        skip_tail-file c,
        read_body-file (record d { queue = header.next }) (header_type header.slice)
            (header_length header.slice) filenum offset,
      )

  consume_loop-KeepsFile :
      (fuel : ℕ) (c : Cursor env) (scratch fragment : List ℕ) (filenum offset : ℕ)
      → KeepsFile c (consume_loop env fuel c scratch fragment filenum offset)
  unfolding consume_loop KeepsFile
  consume_loop-KeepsFile zero c scratch fragment filenum offset = tt
  consume_loop-KeepsFile (suc fuel) c scratch fragment filenum offset =
      let r = read_physical_record env c fragment filenum offset in
      let same = read_physical_record-file c fragment filenum offset in
      let first =
        moved c r.cursor _ same
          (consume_loop-KeepsFile fuel r.cursor r.fragment r.fragment r.filenum r.offset) in
      let middle = moved c r.cursor _ same (
        consume_loop-KeepsFile fuel r.cursor (scratch ++ r.fragment) r.fragment r.filenum
          r.offset) in
      if_KeepsFile c (r.type == RecordType.full_type) _ _ same (
        if_KeepsFile c (r.type == RecordType.first_type) _ _ first (
          if_KeepsFile c (r.type == RecordType.middle_type) _ _ middle (
            if_KeepsFile c (r.type == RecordType.last_type) _ _ same (
              if_KeepsFile c (r.type == RecordType.eof) _ _ same (
                if_KeepsFile c (r.type == RecordType.bad_record) _ _ same
                  (if_KeepsFile c (r.type == RecordType.old_record) _ _ same same))))))

  pub consume-file :
      (c : Cursor env) (scratch : List ℕ) (filenum offset : ℕ) (q : Consumed env)
      → consume env c scratch filenum offset ≡ some q
      → q.cursor.cur_filenum ≡ c.cur_filenum
  unfolding consume KeepsFile
  consume-file c scratch filenum offset q e =
      subst (KeepsFile c) e (consume_loop-KeepsFile _ c scratch [] filenum offset)
