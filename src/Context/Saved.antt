-- ===== src/Context/Saved.antt =====
-- `Context::StableSave` and `Context::Init` together: an index that is saved and read again.
use pika.Prelude.{ℕ, ◌^◌, ◌<◌, ◌≡◌, ap, List, ◌++◌, drop, true}
use pika.LittleEndian.{to_bytes, from_bytes, from_bytes-to_bytes}
use pika.LogOffset.{LogOffset}
use pika.Context.{Context, stable_save, load, init, reset}

-- The members fit their machine words.
pub record IsWords (o : LogOffset) : Type 0 where
  pub filenum : o.b_offset.filenum < 2 ^ 32
  pub offset : o.b_offset.offset < 2 ^ 64
  pub term : o.l_offset.term < 2 ^ 32
  pub index : o.l_offset.index < 2 ^ 64

-- An applied index that fits its words and was saved is the one that is loaded, whatever the file
-- held before.
pub load-stable_save :
    (o : LogOffset) (mapped : List ℕ) → IsWords o → load (stable_save o mapped) ≡ o
unfolding load stable_save to_bytes
load-stable_save o mapped w =
    let tail3 = to_bytes 8 o.l_offset.index ++ drop 24 mapped in
    let tail2 = to_bytes 4 o.l_offset.term ++ tail3 in
    let tail1 = to_bytes 8 o.b_offset.offset ++ tail2 in
    let p1 : (from_bytes 4 (to_bytes 4 o.b_offset.filenum ++ tail1)).0 ≡ o.b_offset.filenum =
      ap (λ (r : ℕ × List ℕ). r.0) (from_bytes-to_bytes 4 o.b_offset.filenum tail1 w.filenum) in
    let p2 : (from_bytes 8 tail1).0 ≡ o.b_offset.offset =
      ap (λ (r : ℕ × List ℕ). r.0) (from_bytes-to_bytes 8 o.b_offset.offset tail2 w.offset) in
    let p3 : (from_bytes 4 tail2).0 ≡ o.l_offset.term =
      ap (λ (r : ℕ × List ℕ). r.0) (from_bytes-to_bytes 4 o.l_offset.term tail3 w.term) in
    let p4 : (from_bytes 8 tail3).0 ≡ o.l_offset.index =
      ap (λ (r : ℕ × List ℕ). r.0)
        (from_bytes-to_bytes 8 o.l_offset.index (drop 24 mapped) w.index) in
    λ i. record {
      b_offset = record { filenum = p1 i; offset = p2 i };
      l_offset = record { term = p3 i; index = p4 i };
    }

-- After a reset, a restart of the program finds the applied index that was set.
pub init-reset :
    (c : Context) (o : LogOffset) → IsWords o → (init true (reset c o)).applied_index ≡ o
unfolding init reset
init-reset c o w = load-stable_save o c.mapped w
