-- ===== src/BinlogReader/Terminate.antt =====
-- `Consume`: the rounds that its loop takes, against the fuel.
use pika.Prelude.{
  ℕ, zero, suc, ◌-◌, ◌≤◌, ◌<◌, ◌≡◌, ◌∙◌, refl, ap, ◌⊎◌, inl, inr, Bool, true, false, List, [], ◌++◌,
  Option, some, arith, length, length-drop, Bool-cases, if◌then◌else◌, ◌==◌, ltb,
}
use pika.Env.{Env, EnvLaws}
use pika.RecordType
use pika.Status.{end_file}
use pika.Binlog.{header_size}
use pika.BinlogReader.{
  Cursor, Consumed, block_left, skip_tail, read_body, read_record, header_length, header_type,
  read_physical_record, consume_loop, consume,
}

abbrev IsSome {ℓ} : {A : Type ℓ} → Option A → Type ℓ
IsSome {A = A} o = (a : A) × (o ≡ some a)

if_IsSome {ℓ} :
    {A : Type ℓ} (b : Bool) (x y : Option A) → IsSome x → IsSome y → IsSome (if b then x else y)
if_IsSome true x y h k = h
if_IsSome false x y h k = k

module _ (env : Env) (laws : EnvLaws env) where
  open env use {unread}

  abbrev left : Cursor env → ℕ
  left c = length (unread c.queue)

  left-skip_tail : (c : Cursor env) → left (skip_tail env c) ≤ left c
  unfolding skip_tail
  left-skip_tail c = ground (
    arith,
    ap (length {A = ℕ}) (laws.unread-skip c.queue (block_left env c)),
    length-drop (block_left env c) (unread c.queue),
  )

  left-read_body :
      (c : Cursor env) (type n filenum offset : ℕ)
      → left (read_body env c type n filenum offset).cursor ≤ left c
  unfolding read_body
  left-read_body c type n filenum offset =
      ground (arith, ap (length {A = ℕ}) (laws.read_next c.queue n), length-drop n (unread c.queue))

  read_record_shrinks :
      (c : Cursor env) (fragment : List ℕ) (filenum offset : ℕ)
      → let r = read_record env c fragment filenum offset in
        (r.type ≡ RecordType.eof) ⊎ (left r.cursor < left c)
  unfolding read_record
  read_record_shrinks c fragment filenum offset =
      let header = env.read c.queue header_size in
      let moved : Cursor env = record c { queue = header.next } in
      let n = header_length header.slice in
      let type = header_type header.slice in
      let rest : left moved ≡ left c - header_size =
        ap (length {A = ℕ}) (laws.read_next c.queue header_size)
        ∙ length-drop header_size (unread c.queue) in
      elim (Bool-cases (ltb (left c) header_size)) [
        | inl short ↦
            let ended : header.status ≡ end_file =
              laws.read_short c.queue header_size (ground arith) in
            inl (rw ended)
        | inr long ↦ inr (ground (arith, rest, left-read_body moved type n filenum offset))
      ]

  read_physical_record_shrinks :
      (c : Cursor env) (fragment : List ℕ) (filenum offset : ℕ)
      → let r = read_physical_record env c fragment filenum offset in
        (r.type ≡ RecordType.eof) ⊎ (left r.cursor < left c)
  unfolding read_physical_record
  read_physical_record_shrinks c fragment filenum offset =
      elim (read_record_shrinks (skip_tail env c) fragment filenum offset) [
        | inl ended ↦ inl ended
        | inr less ↦ inr (omega (arith, less, left-skip_tail c))
      ]

  consume_loop-IsSome :
      (fuel : ℕ) (c : Cursor env) (scratch fragment : List ℕ) (filenum offset : ℕ)
      → left c < fuel
      → IsSome (consume_loop env fuel c scratch fragment filenum offset)
  unfolding consume_loop
  consume_loop-IsSome zero c scratch fragment filenum offset lt = elim lt [ ]
  consume_loop-IsSome (suc fuel) c scratch fragment filenum offset lt =
      let r = read_physical_record env c fragment filenum offset in
      elim (read_physical_record_shrinks c fragment filenum offset) [
        | inl ended ↦ rw ended (_, refl)
        | inr less ↦
            let first =
              consume_loop-IsSome fuel r.cursor r.fragment r.fragment r.filenum r.offset
                (omega (arith, less)) in
            let middle =
              consume_loop-IsSome fuel r.cursor (scratch ++ r.fragment) r.fragment r.filenum
                r.offset (omega (arith, less)) in
            if_IsSome (r.type == RecordType.full_type) _ _ (_, refl)
              (if_IsSome (r.type == RecordType.first_type) _ _ first (
                if_IsSome (r.type == RecordType.middle_type) _ _ middle (
                  if_IsSome (r.type == RecordType.last_type) _ _ (_, refl)
                    (if_IsSome (r.type == RecordType.eof) _ _ (_, refl)
                      (if_IsSome (r.type == RecordType.bad_record) _ _ (_, refl)
                        (if_IsSome (r.type == RecordType.old_record) _ _ (_, refl) (_, refl)))))))
      ]

  -- Consume returns on every file and from every place of a reader, whatever bytes the file holds.
  pub consume_total :
      (c : Cursor env) (scratch : List ℕ) (filenum offset : ℕ)
      → (r : Consumed env) × (consume env c scratch filenum offset ≡ some r)
  unfolding consume
  consume_total c scratch filenum offset =
      consume_loop-IsSome (suc (left c)) c scratch [] filenum offset (omega arith)
