-- ===== src/SyncProgress/Quorum.antt =====
-- `InternalCalCommittedIndex`: the committed index against the offsets that the slaves have reached.
use pika.Prelude.{
  ℕ, suc, ◌-◌, ◌≤◌, ◌<◌, ◌≡◌, refl, ap, ◌⊎◌, inl, inr, true, List, [], ◌∷◌, arith, length, get_or,
  Bool-cases,
}
use pika.Prelude.Table.{values}
use pika.LogOffset.{LogOffset, log_origin}
use pika.LogOffset
use pika.LogOffset.Order
use pika.SyncProgress.{sort, cal_committed_index}
use pika.SyncProgress.Sort.{
  count_reached, sort-IsSorted, count_reached-sort, length-sort, count_reached_from,
  count_reached_above,
}

length-values : (m : List (List ℕ × LogOffset)) → length (values m) ≡ length m
length-values [] = refl
length-values ((k, v) ∷ m) = ap suc (length-values m)

-- The value at a consensus level that the slaves can meet.
cal_committed_index-get_or :
    (level : ℕ) (m : List (List ℕ × LogOffset))
    → 0 < level
    → level ≤ length m
    → cal_committed_index level m ≡ get_or (sort (values m)) (length m - level) log_origin
unfolding cal_committed_index
cal_committed_index-get_or level m h k = ground (arith, length-sort (values m), length-values m)

-- At a consensus level above 0 that the number of slaves meets, at least that many slaves have
-- acknowledged the log up to the committed index.
pub committed_reached :
    (level : ℕ) (m : List (List ℕ × LogOffset))
    → 0 < level
    → level ≤ length m
    → level ≤ count_reached (cal_committed_index level m) (values m)
committed_reached level m h k = rw (cal_committed_index-get_or level m h k) (
    omega (
      arith,
      count_reached_from (sort (values m)) (length m - level) (sort-IsSorted (values m))
          (omega (arith, length-sort (values m), length-values m)),
      count_reached-sort (get_or (sort (values m)) (length m - level) log_origin) (values m),
      length-sort (values m),
      length-values m,
    ))

-- At a consensus level above 0 that the number of slaves meets, no offset above the committed
-- index has been acknowledged by as many slaves as the level asks for.
pub committed_greatest :
    (level : ℕ) (m : List (List ℕ × LogOffset)) (c : LogOffset)
    → 0 < level
    → level ≤ length m
    → level ≤ count_reached c (values m)
    → LogOffset.le c (cal_committed_index level m) ≡ true
committed_greatest level m c h k reached = rw (cal_committed_index-get_or level m h k) (
    let at = get_or (sort (values m)) (length m - level) log_origin in
    elim (Bool-cases (LogOffset.lt at c)) [
      | inr not_above ↦ Order.le-of-not-lt at c not_above
      | inl above ↦ absurd (
          omega (
            arith,
            count_reached_above (sort (values m)) (length m - level) c (sort-IsSorted (values m))
                (omega (arith, length-sort (values m), length-values m)) above,
            count_reached-sort c (values m),
            length-sort (values m),
            length-values m,
          ))
    ])

-- With consensus off, or fewer slaves than the level asks for, nothing is committed.
pub committed_none :
    (level : ℕ) (m : List (List ℕ × LogOffset))
    → (level ≡ 0) ⊎ (length m < level)
    → cal_committed_index level m ≡ log_origin
unfolding cal_committed_index
committed_none level m h = ground arith
