-- ===== src/Binlog/Manifest.antt =====
-- `Version::StableSave` and `Version::Init` together: a manifest that is saved and read again.
use pika.Prelude.{ℕ, ◌^◌, ◌<◌, ◌≡◌, ap, List, ◌++◌, drop}
use pika.LittleEndian.{to_bytes, from_bytes, from_bytes-to_bytes}
use pika.Binlog.{Version, stable_save, init_version}

-- The members fit their machine words.
pub record IsWords (v : Version) : Type 0 where
  pub pro_num : v.pro_num < 2 ^ 32
  pub pro_offset : v.pro_offset < 2 ^ 64
  pub logic_id : v.logic_id < 2 ^ 64
  pub term : v.term < 2 ^ 32

-- A version that fits its words and was saved is the one that is loaded, whatever the manifest
-- held before.
pub init_version-stable_save :
    (v : Version) (mapped : List ℕ) → IsWords v → init_version (stable_save v mapped) ≡ v
unfolding init_version stable_save to_bytes
init_version-stable_save v mapped w =
    let tail3 = to_bytes 4 v.term ++ drop 24 mapped in
    let tail2 = to_bytes 8 v.logic_id ++ tail3 in
    let tail1 = to_bytes 8 v.pro_offset ++ tail2 in
    let p1 : (from_bytes 4 (to_bytes 4 v.pro_num ++ tail1)).0 ≡ v.pro_num =
      ap (λ (r : ℕ × List ℕ). r.0) (from_bytes-to_bytes 4 v.pro_num tail1 w.pro_num) in
    let p2 : (from_bytes 8 tail1).0 ≡ v.pro_offset =
      ap (λ (r : ℕ × List ℕ). r.0) (from_bytes-to_bytes 8 v.pro_offset tail2 w.pro_offset) in
    let p3 : (from_bytes 8 tail2).0 ≡ v.logic_id =
      ap (λ (r : ℕ × List ℕ). r.0) (from_bytes-to_bytes 8 v.logic_id tail3 w.logic_id) in
    let p4 : (from_bytes 4 tail3).0 ≡ v.term =
      ap (λ (r : ℕ × List ℕ). r.0) (from_bytes-to_bytes 4 v.term (drop 24 mapped) w.term) in
    λ i. record { pro_num = p1 i; pro_offset = p2 i; logic_id = p3 i; term = p4 i }
