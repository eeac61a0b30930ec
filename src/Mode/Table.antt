-- ===== src/Mode/Table.antt =====
-- Every mode, owner and right at once: the facts about bits are read off a table.
use libinv.Prelude.{ℕ, zero, suc, ◌<◌, ◌≡◌, Bool, true, false, if◌then◌else◌, arith}

-- The test holds of every number under the limit.
unfoldable pub all_below : ℕ → (ℕ → Bool) → Bool
all_below zero test = true
all_below (suc limit) test = let rest = all_below limit test in if test limit then rest else false

pub all_below_sound :
    (limit : ℕ) (test : ℕ → Bool) (m : ℕ) → all_below limit test ≡ true → m < limit → test m ≡ true
unfolding all_below
all_below_sound zero test m table under = absurd (omega arith)
all_below_sound (suc limit) test m table under = ground (arith, all_below_sound limit test m)
