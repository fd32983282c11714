-- ===== src/Time/Window.antt =====
-- Lists of instants under a window that moves forward: what one pruning drops, no later window
-- would have seen.
use at_pc.Common.{◌+◌, ◌≤◌, ◌≡◌, refl, List, [], ◌∷◌, arith, keep, count, All}
use at_pc.Time.{Instant, Duration, within}

-- A later look at a pruned list counts what it would count in the whole list.
pub count-prune :
    (w v : Duration) (now later : Instant) (xs : List Instant)
    → v ≤ w
    → now ≤ later
    → count (within v later) (keep (within w now) xs) ≡ count (within v later) xs
unfolding keep count
count-prune w v now later [] h k = refl
count-prune w v now later (x ∷ xs) h k = ground (arith, count-prune w v now later xs h k)

-- A window that ends later, or is shorter, holds no more.
pub count-within_mono :
    (w v : Duration) (now later : Instant) (xs : List Instant)
    → v ≤ w
    → now ≤ later
    → count (within v later) xs ≤ count (within w now) xs
unfolding count
count-within_mono w v now later [] h k = omega arith
count-within_mono w v now later (x ∷ xs) h k =
    ground (arith, count-within_mono w v now later xs h k)

-- Everything in the past is out of a window that starts after it.
pub count-within-past :
    (w : Duration) (past now : Instant) (xs : List Instant)
    → All (λ x. x ≤ past) xs
    → past + w + 1 ≤ now
    → keep (within w now) xs ≡ []
unfolding keep
count-within-past w past now [] a h = refl
count-within-past w past now (x ∷ xs) a h = ground (arith, count-within-past w past now xs a.1 h)
