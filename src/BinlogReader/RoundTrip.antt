-- ===== src/BinlogReader/RoundTrip.antt =====
-- `Consume` on files in the log's format, and on what `Produce` wrote.
use pika.Prelude.{
  ℕ, suc, ◌+◌, ◌-◌, ◌≤◌, ◌<◌, ◌≡◌, ◌∙◌, refl, sym, inl, inr, Bool, true, false, List, [], ◌∷◌, ◌++◌,
  some, arith, append_assoc, length, length-append, length-replicate, replicate,
}
use mathlib.Core.Path.{subst₂}
use pika.Env.{Env, EnvLaws}
use pika.Status.{ok}
use pika.Binlog.Layout.{header, tag}
use pika.Binlog.Header.{length-header}
use pika.Binlog.{Binlog, block_size, header_size, produce}
use pika.Binlog.Layout.{Layout, fill, final, part}
use pika.Binlog.Produce.{produce-Produced}
use pika.BinlogReader.{Cursor, Consumed, consume}
use pika.BinlogReader.Tail.{StandsAt, ItemRead}
use pika.BinlogReader.Fragments.{ConsumeReads, skip-reads, final-reads, part-reads}

pub append-cancel : (xs : List ℕ) {ys zs : List ℕ} → xs ++ ys ≡ xs ++ zs → ys ≡ zs
append-cancel [] h = h
append-cancel (x ∷ xs) h = append-cancel xs (cc)

module _ (env : Env) (laws : EnvLaws env) where
  open env use {unread}

  fill-reads :
      (o : ℕ) (begin : Bool) (p rest out : List ℕ) (o' : ℕ)
      → ConsumeReads env laws 0 begin p rest o'
      → o ≤ block_size
      → block_size < o + header_size
      → out ≡ replicate (block_size - o) 0 ++ rest
      → ConsumeReads env laws o begin p out o'
  fill-reads o begin p rest out o' ih le tight eout fuel c scratch fragment filenum offset more
        (inl e) h hp hs lt =
      skip-reads env laws o 0 begin p (replicate (block_size - o) 0) out rest o' begin ih le
        (omega arith) (inl refl) (length-replicate (block_size - o) 0) eout (λ b. b) fuel c scratch
        fragment filenum offset more e h hp hs lt
  fill-reads o begin p rest out o' ih le tight eout fuel c scratch fragment filenum offset more
        (inr (eo, z)) h hp hs lt =
      let none_left : block_size - o ≡ 0 = omega (arith, eo) in
      let same : out ≡ rest = eout ∙ rw none_left in
      rw same
        (ih fuel c scratch fragment filenum offset more (inl z) (h ∙ rw same) hp hs (rw same at lt))

  -- An empty fragment at the end of a block is skipped as a tail.
  empty-reads :
      (o : ℕ) (begin : Bool) (p2 : List ℕ) (now : ℕ) (rest : List ℕ) (o' : ℕ)
      → ConsumeReads env laws block_size false p2 rest o'
      → o + header_size ≡ block_size
      → ConsumeReads env laws o begin p2 (header (tag begin false) 0 now ++ rest) o'
  empty-reads o begin p2 now rest o' ih fits fuel c scratch fragment filenum offset more
        (inr (e, z)) h hp hs lt =
      absurd (omega arith)
  empty-reads o begin p2 now rest o' ih fits fuel c scratch fragment filenum offset more (inl e) h
        hp hs lt =
      let header = header (tag begin false) 0 now in
      skip-reads env laws o block_size begin p2 header (header ++ rest) rest o' false ih
        (omega arith) (omega arith) (inr refl)
        (omega (arith, length-header (tag begin false) 0 now)) refl (λ b. cc) fuel c scratch
        fragment filenum offset more e h hp hs lt

  split-reads :
      (o : ℕ) (begin : Bool) (p1 p2 : List ℕ) (now : ℕ) (rest : List ℕ) (o' : ℕ)
      → ConsumeReads env laws block_size false p2 rest o'
      → o + header_size + length p1 ≡ block_size
      → 0 < length p2
      → ConsumeReads env laws o begin
          (p1 ++ p2)
          (header (tag begin false) (length p1) now ++ (p1 ++ rest))
          o'
  split-reads o begin [] p2 now rest o' ih fits h2 =
      empty-reads o begin p2 now rest o' ih (omega arith)
  split-reads o begin (x ∷ xs) p2 now rest o' ih fits h2 =
      part-reads env laws o begin (x ∷ xs) p2 now rest o' ih fits (omega arith) h2

  -- Induction on the format.
  Layout-reads :
      (o : ℕ) (begin : Bool) (p out : List ℕ) (o' : ℕ)
      → Layout o begin p out o'
      → ConsumeReads env laws o begin p out o'
  Layout-reads _ _ _ _ _ (fill o begin p rest out o' le tight l e) =
      fill-reads o begin p rest out o' (Layout-reads 0 begin p rest o' l) le tight e
  Layout-reads _ _ _ _ _ (final o begin p now out o' fits eout eo) =
      final-reads env laws o begin p now out o' fits eout eo
  Layout-reads _ _ _ _ _ (part o begin p p1 p2 now rest out o' fits longer ep l eout) =
      subst₂ (λ (q w : List ℕ). ConsumeReads env laws o begin q w o') (sym ep) (sym eout)
        (split-reads o begin p1 p2 now rest o' (Layout-reads block_size false p2 rest o' l) fits
          longer)

  -- On a file that continues, from where the reader stands, with a non-empty item in the log's
  -- format, over however many fragments and blocks, Consume returns OK, the item and the place
  -- behind it, and leaves the rest of the file unread.
  pub consume-Layout :
      (c : Cursor env) (o o' : ℕ) (item out more : List ℕ) (filenum offset : ℕ)
      → Layout o true item out o'
      → StandsAt env laws c o
      → unread c.queue ≡ out ++ more
      → 0 < length item
      → (r : Consumed env) × (consume env c [] filenum offset ≡ some r)
        × ItemRead env laws c [] item more o' (length out) r
  unfolding consume
  consume-Layout c o o' item out more filenum offset l at h hp =
      Layout-reads o true item out o' l (suc (length (unread c.queue))) c [] [] filenum offset more
        at h hp (λ b. refl) (rw h (omega (arith, length-append out more)))

  -- Where a Produce of a non-empty item succeeded from a place inside a block, Consume on a reader
  -- that stands at that place, in front of what was appended, returns OK and the whole item, and
  -- then stands where the writer stands.
  pub consume-produce :
      (clock : ℕ → ℕ) (b b' : Binlog env) (t' : ℕ) (item more : List ℕ) (c : Cursor env)
      (filenum offset : ℕ)
      → b.block_offset ≤ block_size
      → 0 < length item
      → produce env clock b item ≡ some (ok, b', t')
      → StandsAt env laws c b.block_offset
      → env.contents b.queue ++ unread c.queue ≡ env.contents b'.queue ++ more
      → (r : Consumed env) × (consume env c [] filenum offset ≡ some r)
        × (r.status ≡ ok)
        × (r.scratch ≡ item)
        × (unread r.cursor.queue ≡ more)
        × (r.cursor.last_record_offset ≡ b'.block_offset)
  consume-produce clock b b' t' item more c filenum offset le hp h at e =
      let w = produce-Produced env laws clock b item b' t' le h in
      let ahead : unread c.queue ≡ w.out ++ more =
        append-cancel (env.contents b.queue)
          (e ∙ rw (w.appends.written) (append_assoc (env.contents b.queue) w.out more)) in
      let (r, found, k) =
        consume-Layout c b.block_offset b'.block_offset item w.out more filenum offset w.layout at
          ahead hp in
      (r, found, k.status_ok, k.item_read, k.rest_left, k.place_moved)
