-- ===== src/Mode.antt =====
-- source/include/mode.hh: the access mode of an object, three bits for each of three owners.
-- `m_mode` is a short that never leaves 0 .. 511; `~` is taken on its 16 bits.
pub mod Table
pub mod Rights
use libinv.Prelude.{
  ℕ, ◌+◌, ◌-◌, ◌*◌, ◌/◌, ◌^◌, bit_and, bit_or, Bool, false, not, List, [], ◌∷◌, Bytes, ◌==◌, ◌||◌,
  if◌then◌else◌,
}

pub data Ownership : Type 0 where
  user group other : Ownership

abbrev pub owner_index : Ownership → ℕ
owner_index user = 0
owner_index group = 1
owner_index other = 2

-- LIST, WRITE and READ are the bits 1, 2 and 4 of a right.
abbrev pub list_right : ℕ
list_right = 1

abbrev pub write_right : ℕ
write_right = 2

abbrev pub read_right : ℕ
read_right = 4

-- (right & 7) << (owner * 3)
unfoldable pub shifted : Ownership → ℕ → ℕ
shifted owner right = bit_and right 7 * 2 ^ (owner_index owner * 3)

-- ctoi(c) & 7, where ctoi(c) = c - '0' as an int of 32 bits
unfoldable pub digit : ℕ → ℕ
digit c = bit_and (c + 2 ^ 32 - 48) 7

-- A text of fewer than three characters, up to its first NUL, leaves the mode as it is.
unfoldable pub from_string : Bytes → ℕ → ℕ
unfolding digit
from_string (a ∷ b ∷ c ∷ rest) m =
    if a == 0 || b == 0 || c == 0
    then m
    else bit_or (bit_or (bit_or m (digit a)) (digit b * 2 ^ 3)) (digit c * 2 ^ 6)
from_string _ m = m

unfoldable pub string : ℕ → Bytes
string m = (48 + bit_and m 7) ∷ (48 + bit_and (m / 2 ^ 3) 7) ∷ (48 + bit_and (m / 2 ^ 6) 7) ∷ []

-- (m_mode >> (owner * 3)) & 7
unfoldable pub field : ℕ → Ownership → ℕ
field m owner = bit_and (m / 2 ^ (owner_index owner * 3)) 7

unfoldable pub access : ℕ → Ownership → ℕ → Bool
access m owner right = not (bit_and (field m owner) right == 0)

unfoldable pub set : ℕ → Ownership → ℕ → ℕ
unfolding shifted
set m owner right = bit_or m (shifted owner right)

unfoldable pub clear : ℕ → Ownership → ℕ → ℕ
unfolding shifted
clear m owner right = bit_and m (2 ^ 16 - 1 - shifted owner right)

-- `return m_mode;`
unfoldable pub zero : ℕ → Bool
zero m = not (m == 0)
