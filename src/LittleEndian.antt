-- ===== src/LittleEndian.antt =====
-- Numbers in memory on the machines that the program is built for: `memcpy` of an integer moves its
-- bytes, the lowest first.
use pika.Prelude.{
  ℕ, zero, suc, ◌+◌, ◌*◌, ◌/◌, ◌%◌, ◌^◌, ◌<◌, ◌≡◌, refl, List, [], ◌∷◌, ◌++◌, arith, length,
}
use native.Mathlib.Nat.{pow-suc}

unfoldable pub to_bytes : ℕ → ℕ → List ℕ
to_bytes zero n = []
to_bytes (suc k) n = (n % 256) ∷ to_bytes k (n / 256)

-- Reads a number of `k` bytes and returns what follows it; missing bytes read as 0.
unfoldable pub from_bytes : ℕ → List ℕ → ℕ × List ℕ
from_bytes zero bs = (0, bs)
from_bytes (suc k) [] = (0, [])
from_bytes (suc k) (b ∷ bs) = let (n, rest) = from_bytes k bs in (b + 256 * n, rest)

pub length-to_bytes : (k n : ℕ) → length (to_bytes k n) ≡ k
unfolding to_bytes
length-to_bytes zero n = refl
length-to_bytes (suc k) n = omega (arith, length-to_bytes k (n / 256))

pub from_bytes-to_bytes :
    (k n : ℕ) (rest : List ℕ) → n < 256 ^ k → from_bytes k (to_bytes k n ++ rest) ≡ (n, rest)
unfolding to_bytes from_bytes
from_bytes-to_bytes zero n rest h = ground arith
from_bytes-to_bytes (suc k) n rest h =
    ground (arith, from_bytes-to_bytes k (n / 256) rest, pow-suc 256 k)
