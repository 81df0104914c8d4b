-- ===== src/BinlogReader/Fragments.antt =====
-- The fragments of an item, one by one: a last one, one that goes on, and a tail in between.
use pika.Prelude.{
  ℕ, zero, suc, ◌+◌, ◌-◌, ◌≤◌, ◌<◌, ◌≡◌, ◌∙◌, refl, sym, ap, subst, ◌⊎◌, inl, inr, Bool, true,
  false, List, [], ◌++◌, some, arith, append_assoc, append-nil, length, length-append,
}
use pika.Env.{Env, EnvLaws}
use pika.Status.{ok}
use pika.Binlog.Layout.{header, tag}
use pika.Binlog.Header.{length-header}
use pika.Binlog.{block_size, header_size}
use pika.BinlogReader.{consumed, Cursor, Consumed, read_physical_record, consume_loop}
use pika.BinlogReader.Consume.{drop-append}
use pika.BinlogReader.Tail.{
  StandsAt, ItemRead, ItemRead-after, next_block, consume_loop-next_block, read_here,
}
use pika.BinlogReader.Rounds.{full_round, last_round, first_round, middle_round, ReadOk-ItemRead}

pub length_frame :
    (type : ℕ) (p : List ℕ) (now : ℕ)
    → length (header type (length p) now ++ p) ≡ header_size + length p
length_frame type p now =
    length-append (header type (length p) now) p ∙ rw (length-header type (length p) now)

pub length_part :
    (type : ℕ) (p : List ℕ) (now : ℕ) (rest : List ℕ)
    → length (header type (length p) now ++ (p ++ rest)) ≡ header_size + length p + length rest
length_part type p now rest = omega (
  arith,
  length-append (header type (length p) now) (p ++ rest),
  length-append p rest,
  length-header type (length p) now,
)

pub reassoc :
    (type : ℕ) (p : List ℕ) (now : ℕ) (rest more : List ℕ)
    → (header type (length p) now ++ (p ++ rest)) ++ more
      ≡ header type (length p) now ++ (p ++ (rest ++ more))
reassoc type p now rest more =
    append_assoc (header type (length p) now) (p ++ rest) more
    ∙ ap (◌++◌ (header type (length p) now)) (append_assoc p rest more)

module _ (env : Env) (laws : EnvLaws env) where
  open env use {unread}

  abbrev pub ConsumeReads : ℕ → Bool → List ℕ → List ℕ → ℕ → Type 0
  ConsumeReads o begin p out o' =
      (fuel : ℕ) (c : Cursor env) (scratch fragment : List ℕ) (filenum offset : ℕ) (more : List ℕ)
      → StandsAt env laws c o
      → unread c.queue ≡ out ++ more
      → 0 < length p
      → (begin ≡ true → scratch ≡ [])
      → length out < fuel
      → (r : Consumed env) × (consume_loop env fuel c scratch fragment filenum offset ≡ some r)
        × ItemRead env laws c scratch p more o' (length out) r

  pub final-reads :
      (o : ℕ) (begin : Bool) (p : List ℕ) (now : ℕ) (out : List ℕ) (o' : ℕ)
      → o + header_size + length p ≤ block_size
      → out ≡ header (tag begin true) (length p) now ++ p
      → o' ≡ o + header_size + length p
      → ConsumeReads o begin p out o'
  final-reads o begin p now out o' fits eout eo zero c scratch fragment filenum offset more at h hp
        hs lt =
      elim lt [ ]
  final-reads o begin p now out o' fits eout eo (suc fuel) c scratch fragment filenum offset more
        (inr (e, z)) h hp hs lt =
      absurd (omega arith)
  final-reads o true p now out o' fits eout eo (suc fuel) c scratch fragment filenum offset more
        (inl e) h hp hs lt =
      let k =
        read_here env laws c 1 now p more fragment filenum offset (omega (arith, e)) (omega arith)
          (omega arith) hp (h ∙ rw eout (append_assoc (header 1 (length p) now) p more)) in
      let r = read_physical_record env c fragment filenum offset in
      (
        consumed env ok r.fragment r,
        full_round env laws fuel c scratch fragment filenum offset k.type_read,
        rw (hs refl, eo)
            (ReadOk-ItemRead env laws c 1 o (length out) [] p more r k e fits
              (rw eout (length_frame 1 p now))),
      )
  final-reads o false p now out o' fits eout eo (suc fuel) c scratch fragment filenum offset more
        (inl e) h hp hs lt =
      let k =
        read_here env laws c 4 now p more fragment filenum offset (omega (arith, e)) (omega arith)
          (omega arith) hp (h ∙ rw eout (append_assoc (header 4 (length p) now) p more)) in
      let r = read_physical_record env c fragment filenum offset in
      (
        consumed env ok (scratch ++ r.fragment) r,
        last_round env laws fuel c scratch fragment filenum offset k.type_read,
        rw eo (
            ReadOk-ItemRead env laws c 4 o (length out) scratch p more r k e fits
              (rw eout (length_frame 4 p now))),
      )

  -- Behind a skipped tail the rest is read as before.
  pub skip-reads :
      (o o2 : ℕ) (begin : Bool) (p tail out rest : List ℕ) (o' : ℕ) (begin2 : Bool)
      → ConsumeReads o2 begin2 p rest o'
      → o ≤ block_size
      → block_size ≤ o + header_size
      → (o2 ≡ 0) ⊎ (o2 ≡ block_size)
      → length tail ≡ block_size - o
      → out ≡ tail ++ rest
      → (begin2 ≡ true → begin ≡ true)
      → (fuel : ℕ) (c : Cursor env) (scratch fragment : List ℕ) (filenum offset : ℕ) (more : List ℕ)
      → c.last_record_offset ≡ o
      → unread c.queue ≡ out ++ more
      → 0 < length p
      → (begin ≡ true → scratch ≡ [])
      → length out < fuel
      → (r : Consumed env) × (consume_loop env fuel c scratch fragment filenum offset ≡ some r)
        × ItemRead env laws c scratch p more o' (length out) r
  skip-reads o o2 begin p tail out rest o' begin2 ih le tight place lt' eout sb fuel c scratch
        fragment filenum offset more e h hp hs lt =
      let d = next_block env laws c o in
      let len : length out ≡ length tail + length rest = ap length eout ∙ length-append tail rest in
      let ahead : unread d.queue ≡ rest ++ more =
        laws.unread-skip c.queue (block_size - o)
        ∙ rw (h, eout, append_assoc tail rest more)
            (drop-append (block_size - o) tail (rest ++ more) lt') in
      let stands : StandsAt env laws d o2 = elim place [
        | inl z ↦ inl (sym z)
        | inr z ↦ inr (z, refl)
      ] in
      let (r, found, item) =
        ih fuel d scratch fragment filenum offset more stands ahead hp (λ b2. hs (sb b2))
          (omega (arith, len)) in
      (
        r,
        consume_loop-next_block env laws fuel c scratch fragment filenum offset o e le tight
            ∙ found,
        subst (λ (n : ℕ). ItemRead env laws c scratch p more o' n r) (sym (rw (len, lt')))
            (ItemRead-after env laws c d scratch scratch [] p more o' (block_size - o) (length rest)
              r item (sym (append-nil scratch)) refl refl),
      )

  -- A fragment with bytes in it, and then the rest of the item.
  pub part-reads :
      (o : ℕ) (begin : Bool) (p1 p2 : List ℕ) (now : ℕ) (rest : List ℕ) (o' : ℕ)
      → ConsumeReads block_size false p2 rest o'
      → o + header_size + length p1 ≡ block_size
      → 0 < length p1
      → 0 < length p2
      → ConsumeReads o begin
          (p1 ++ p2)
          (header (tag begin false) (length p1) now ++ (p1 ++ rest))
          o'
  part-reads o begin p1 p2 now rest o' ih fits h1 h2 zero c scratch fragment filenum offset more at
        h hp hs lt =
      elim lt [ ]
  part-reads o begin p1 p2 now rest o' ih fits h1 h2 (suc fuel) c scratch fragment filenum offset
        more (inr (e, z)) h hp hs lt =
      absurd (omega arith)
  part-reads o true p1 p2 now rest o' ih fits h1 h2 (suc fuel) c scratch fragment filenum offset
        more (inl e) h hp hs lt =
      let k =
        read_here env laws c 2 now p1 (rest ++ more) fragment filenum offset (omega (arith, e))
          (omega arith) (omega arith) h1 (h ∙ reassoc 2 p1 now rest more) in
      let r = read_physical_record env c fragment filenum offset in
      let len = length_part 2 p1 now rest in
      let (q, found, item) =
        ih fuel r.cursor r.fragment r.fragment r.filenum r.offset more
          (inl (omega (arith, k.place_moved, e))) k.rest_left h2 (λ b. cc) (omega (arith, len)) in
      (
        q,
        first_round env laws fuel c scratch fragment filenum offset k.type_read ∙ found,
        subst (λ (n : ℕ). ItemRead env laws c scratch (p1 ++ p2) more o' n q) (sym len)
            (ItemRead-after env laws c r.cursor scratch r.fragment p1 p2 more o'
              (header_size + length p1) (length rest) q item (rw (hs refl) k.fragment_read)
              k.filenum_kept k.offset_moved),
      )
  part-reads o false p1 p2 now rest o' ih fits h1 h2 (suc fuel) c scratch fragment filenum offset
        more (inl e) h hp hs lt =
      let k =
        read_here env laws c 3 now p1 (rest ++ more) fragment filenum offset (omega (arith, e))
          (omega arith) (omega arith) h1 (h ∙ reassoc 3 p1 now rest more) in
      let r = read_physical_record env c fragment filenum offset in
      let len = length_part 3 p1 now rest in
      let (q, found, item) =
        ih fuel r.cursor (scratch ++ r.fragment) r.fragment r.filenum r.offset more
          (inl (omega (arith, k.place_moved, e))) k.rest_left h2 (λ b. cc) (omega (arith, len)) in
      (
        q,
        middle_round env laws fuel c scratch fragment filenum offset k.type_read ∙ found,
        subst (λ (n : ℕ). ItemRead env laws c scratch (p1 ++ p2) more o' n q) (sym len)
            (ItemRead-after env laws c r.cursor scratch (scratch ++ r.fragment) p1 p2 more o'
              (header_size + length p1) (length rest) q item (ap (◌++◌ scratch) k.fragment_read)
              k.filenum_kept k.offset_moved),
      )
