-- ===== src/Slash.antt =====
-- What the program takes from the slash library, which is a submodule and not part of the
-- repository's files: the fixed-width integer coding and the printing of integers.
use pika.Prelude.{ℕ, ◌+◌, ◌^◌, ◌<◌, ◌≡◌, List, [], ◌∷◌, ◌++◌, length}

-- `PutFixedN` appends; `GetFixedN` takes a number off the front of a string.
pub record Slash : Type 0 where
  pub put_fixed16 : ℕ → List ℕ
  pub put_fixed32 : ℕ → List ℕ
  pub put_fixed64 : ℕ → List ℕ
  pub get_fixed16 : List ℕ → ℕ × List ℕ
  pub get_fixed32 : List ℕ → ℕ × List ℕ
  pub get_fixed64 : List ℕ → ℕ × List ℕ
  pub ll2string : ℕ → List ℕ

-- The documented behaviour: N bits take N / 8 bytes, and a number that fits is read back.
pub record SlashLaws (s : Slash) : Type 0 where
  pub length16 : (n : ℕ) → length (s.put_fixed16 n) ≡ 2
  pub length32 : (n : ℕ) → length (s.put_fixed32 n) ≡ 4
  pub length64 : (n : ℕ) → length (s.put_fixed64 n) ≡ 8
  pub get_put16 :
      (n : ℕ) (rest : List ℕ) → n < 2 ^ 16 → s.get_fixed16 (s.put_fixed16 n ++ rest) ≡ (n, rest)
  pub get_put32 :
      (n : ℕ) (rest : List ℕ) → n < 2 ^ 32 → s.get_fixed32 (s.put_fixed32 n ++ rest) ≡ (n, rest)
  pub get_put64 :
      (n : ℕ) (rest : List ℕ) → n < 2 ^ 64 → s.get_fixed64 (s.put_fixed64 n ++ rest) ≡ (n, rest)
  pub digit : (n : ℕ) → n < 10 → s.ll2string n ≡ (n + 48) ∷ []
