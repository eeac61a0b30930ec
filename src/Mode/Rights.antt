-- ===== src/Mode/Rights.antt =====
-- What `set` and `clear` do to the rights of each owner, and the text form of a mode.
use libinv.Prelude.{
  ℕ, ◌-◌, ◌<◌, ◌≡◌, refl, bit_and, bit_or, Bool, true, false, not, ◌&&◌, ◌||◌, ltb, ◌==◌, ==_iff,
  arith, if◌then◌else◌,
}
use libinv.Mode.{Ownership, user, group, other, from_string, string, field, access, set, clear}
use libinv.Mode.Table.{all_below, all_below_sound}

abbrev pub same : Ownership → Ownership → Bool
same user user = true
same group group = true
same other other = true
same _ _ = false

-- The field of every owner after `set` and after `clear`.
set_row : Ownership → Ownership → ℕ → ℕ → Bool
set_row o p m r = field (set m o r) p == (if same o p then bit_or (field m p) r else field m p)

clear_row : Ownership → Ownership → ℕ → ℕ → Bool
clear_row o p m r =
    field (clear m o r) p == (if same o p then bit_and (field m p) (7 - r) else field m p)

table : (ℕ → ℕ → Bool) → Bool
table row = all_below 512 (λ m. all_below 8 (λ r. row m r))

table_sound : (row : ℕ → ℕ → Bool) (m r : ℕ) → table row ≡ true → m < 512 → r < 8 → row m r ≡ true
unfolding table
table_sound row m r t hm hr =
    all_below_sound 8 (row m) r (all_below_sound 512 (λ k. all_below 8 (row k)) m t hm) hr

set_table : (o p : Ownership) → table (set_row o p) ≡ true
unfolding table all_below set_row set field
set_table user user = refl
set_table user group = refl
set_table user other = refl
set_table group user = refl
set_table group group = refl
set_table group other = refl
set_table other user = refl
set_table other group = refl
set_table other other = refl

clear_table : (o p : Ownership) → table (clear_row o p) ≡ true
unfolding table all_below clear_row clear field
clear_table user user = refl
clear_table user group = refl
clear_table user other = refl
clear_table group user = refl
clear_table group group = refl
clear_table group other = refl
clear_table other user = refl
clear_table other group = refl
clear_table other other = refl

pub field-set :
    (m r : ℕ) (o p : Ownership)
    → m < 512
    → r < 8
    → field (set m o r) p ≡ (if same o p then bit_or (field m p) r else field m p)
unfolding set_row
field-set m r o p hm hr = (==_iff _ _).0 (table_sound (set_row o p) m r (set_table o p) hm hr)

pub field-clear :
    (m r : ℕ) (o p : Ownership)
    → m < 512
    → r < 8
    → field (clear m o r) p ≡ (if same o p then bit_and (field m p) (7 - r) else field m p)
unfolding clear_row
field-clear m r o p hm hr = (==_iff _ _).0 (table_sound (clear_row o p) m r (clear_table o p) hm hr)

-- Three fields of three bits: a mask over a union, and a mask over what a clear leaves.
cube : (ℕ → ℕ → ℕ → Bool) → Bool
cube row = all_below 8 (λ f. all_below 8 (λ r. all_below 8 (row f r)))

cube_sound :
    (row : ℕ → ℕ → ℕ → Bool) (f r q : ℕ)
    → cube row ≡ true
    → f < 8
    → r < 8
    → q < 8
    → row f r q ≡ true
unfolding cube
cube_sound row f r q t hf hr hq =
    all_below_sound 8 (row f r) q
      (all_below_sound 8 (λ r. all_below 8 (row f r)) r
        (all_below_sound 8 (λ f. all_below 8 (λ r. all_below 8 (row f r))) f t hf) hr)
      hq

union_row : ℕ → ℕ → ℕ → Bool
union_row f r q =
    let both = not (bit_and (bit_or f r) q == 0) in
    let either = not (bit_and f q == 0) || not (bit_and r q == 0) in
    both && either || not both && not either

clear_mask_row : ℕ → ℕ → ℕ → Bool
clear_mask_row f r q = bit_and (bit_and f (7 - r)) q == bit_and f (bit_and q (7 - r))

union_cube : cube union_row ≡ true
unfolding cube all_below union_row
union_cube = refl

clear_mask_cube : cube clear_mask_row ≡ true
unfolding cube all_below clear_mask_row
clear_mask_cube = refl

bounded_row : Ownership → ℕ → Bool
bounded_row o m = ltb (field m o) 8

field_bounded_table : (o : Ownership) → all_below 512 (bounded_row o) ≡ true
unfolding all_below bounded_row field
field_bounded_table user = refl
field_bounded_table group = refl
field_bounded_table other = refl

field-lt : (m : ℕ) (o : Ownership) → m < 512 → field m o < 8
unfolding bounded_row
field-lt m o h =
    let row = all_below_sound 512 (bounded_row o) m (field_bounded_table o) h in ground arith

union_lem :
    (f r q : ℕ)
    → f < 8
    → r < 8
    → q < 8
    → not (bit_and (bit_or f r) q == 0) ≡ (not (bit_and f q == 0) || not (bit_and r q == 0))
unfolding union_row
union_lem f r q hf hr hq = let row = cube_sound union_row f r q union_cube hf hr hq in ground arith

clear_mask_lem :
    (f r q : ℕ)
    → f < 8
    → r < 8
    → q < 8
    → bit_and (bit_and f (7 - r)) q ≡ bit_and f (bit_and q (7 - r))
unfolding clear_mask_row
clear_mask_lem f r q hf hr hq =
    (==_iff _ _).0 (cube_sound clear_mask_row f r q clear_mask_cube hf hr hq)

-- After set(o, r) the owner o has what it had and what r grants; every other owner has what it had.
-- For a mode below 512 and rights below 8.
pub access-set :
    (m r q : ℕ) (o p : Ownership)
    → m < 512
    → r < 8
    → q < 8
    → access (set m o r) p q
      ≡ (if same o p then (access m p q || not (bit_and r q == 0)) else access m p q)
unfolding access
access-set m r q o p hm hr hq =
    ground (arith, field-set m r o p, union_lem (field m p) r q, field-lt m p)

-- After clear(o, r) the owner o has, of the rights asked for, what it had outside r; every other
-- owner has what it had. For a mode below 512 and rights below 8.
pub access-clear :
    (m r q : ℕ) (o p : Ownership)
    → m < 512
    → r < 8
    → q < 8
    → access (clear m o r) p q ≡ (if same o p then access m p (bit_and q (7 - r)) else access m p q)
unfolding access
access-clear m r q o p hm hr hq =
    ground (arith, field-clear m r o p, clear_mask_lem (field m p) r q, field-lt m p)

string_row : ℕ → Bool
string_row m = from_string (string m) 0 == m

string_table : all_below 512 string_row ≡ true
unfolding all_below string_row from_string string
string_table = refl

-- The text of a mode below 512, read into a fresh mode, gives the mode back.
pub from_string-string : (m : ℕ) → m < 512 → from_string (string m) 0 ≡ m
unfolding string_row
from_string-string m h = (==_iff _ _).0 (all_below_sound 512 string_row m string_table h)
