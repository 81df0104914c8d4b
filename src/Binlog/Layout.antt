-- ===== src/Binlog/Layout.antt =====
-- The format of a log file, stated apart from the code that writes or reads it. A file is a row of
-- blocks; an item is one fragment or several, each behind its header and inside one block.
use pika.Prelude.{
  ℕ, ◌+◌, ◌-◌, ◌≤◌, ◌<◌, ◌≡◌, Bool, true, false, List, [], ◌∷◌, ◌++◌, length, replicate,
}
use pika.LittleEndian.{to_bytes}

-- A block has 64 KB, a header 8 bytes.
abbrev pub block : ℕ
block = 65536

abbrev pub header_bytes : ℕ
header_bytes = 8

-- The last byte of a header says which fragment of its item it heads: 1 the only one, 2 the first of
-- several, 3 one in the middle, 4 the last.
abbrev pub tag : Bool → Bool → ℕ
tag true true = 1
tag true false = 2
tag false false = 3
tag false true = 4

-- A header: the length of the fragment, the time in seconds and the tag, the lowest byte first.
unfoldable pub header : ℕ → ℕ → ℕ → List ℕ
unfolding to_bytes
header kind n now = to_bytes 3 n ++ (to_bytes 4 now ++ (kind ∷ []))

-- `Layout o begin p out o'`: written from place `o` of a block, the bytes `out` hold the item (or,
-- if not `begin`, the rest of an item) `p`, and the next item is written from place `o'`.
pub data Layout : ℕ → Bool → List ℕ → List ℕ → ℕ → Type 0 where
  -- A tail too short for a header is zeros.
  fill :
      (o : ℕ) (begin : Bool) (p rest out : List ℕ) (o' : ℕ)
      → o ≤ block
      → block < o + header_bytes
      → Layout 0 begin p rest o'
      → out ≡ replicate (block - o) 0 ++ rest
      → Layout o begin p out o'
  -- What is left of the item fits the block.
  final :
      (o : ℕ) (begin : Bool) (p : List ℕ) (now : ℕ) (out : List ℕ) (o' : ℕ)
      → o + header_bytes + length p ≤ block
      → out ≡ header (tag begin true) (length p) now ++ p
      → o' ≡ o + header_bytes + length p
      → Layout o begin p out o'
  -- A fragment fills the block to its end, and the item goes on in the next one.
  part :
      (o : ℕ) (begin : Bool) (p p1 p2 : List ℕ) (now : ℕ) (rest out : List ℕ) (o' : ℕ)
      → o + header_bytes + length p1 ≡ block
      → 0 < length p2
      → p ≡ p1 ++ p2
      → Layout block false p2 rest o'
      → out ≡ header (tag begin false) (length p1) now ++ (p1 ++ rest)
      → Layout o begin p out o'
