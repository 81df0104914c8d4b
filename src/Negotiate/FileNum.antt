-- ===== src/Negotiate/FileNum.antt =====
-- `FindBinlogFileNum`: that it ends, and which file it finds.
use pika.Prelude.{ℕ, ◌+◌, ◌≤◌, ◌<◌, ◌≡◌, ◌⊎◌, Option, some}
use pika.Status.{Status, ok, not_found}
use pika.LogOffset.{LogOffset}

-- `first_of` is the first offset of each file.
module _ (first : ℕ → Option (Status × LogOffset)) (first_of : ℕ → LogOffset) (lb hb : ℕ)
    (target : ℕ) where
  abbrev pub index_of : ℕ → ℕ
  index_of n = (first_of n).l_offset.index

  -- The file in which the index must be: its first index is not above it, that of the next one is,
  -- unless it is the first of this one or there is no next one.
  abbrev pub IsFile : ℕ → Type 0
  IsFile n =
      (lb ≤ n)
      × (n ≤ hb)
      × (index_of n ≤ target)
      × ((n ≡ hb) ⊎ (index_of n ≡ target) ⊎ (target < index_of (n + 1)))

  abbrev pub Finds : Option (Status × ℕ) → Type 0
  Finds r =
      ((target < index_of lb) × (r ≡ some (not_found, 0)))
      ⊎ ((n : ℕ) × (r ≡ some (ok, n)) × IsFile n)
