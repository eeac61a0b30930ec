-- ===== src/Prelude/Sorted.antt =====
-- Maps and sets that are built in the order of their keys: each new key goes to the end.
use mathlib.Core.Path.{◌≡◌, refl}
use mathlib.Core.Bool.{true, false, ◌&&◌}
use mathlib.Core.List.{List, [], ◌∷◌, ◌++◌}
use native.Mathlib.Omega.{arith}
use libinv.Prelude.Order.{Ord}
use libinv.Prelude.Containers.{put, insert, erase, contains, Above, Strictly}

-- xs ++ y ∷ ys, as the loops that go through a list see it.
pub append_one {ℓ} :
    {A : Type ℓ} (xs : List A) (y : A) (ys : List A) → (xs ++ y ∷ []) ++ ys ≡ xs ++ y ∷ ys
append_one [] y ys = refl
append_one (x ∷ xs) y ys = rw (append_one xs y ys)

pub append_nil {ℓ} : {A : Type ℓ} (xs : List A) → xs ++ [] ≡ xs
append_nil [] = refl
append_nil (x ∷ xs) = rw (append_nil xs)

module _ {K V : Type 0} ⦃o : Ord K⦄ where
  Above-last :
      (j k : K) (v : V) (m n : List (K × V)) → Above j (m ++ (k, v) ∷ n) → o.lessb j k ≡ true
  Above-last j k v [] n a = a.0
  Above-last j k v ((i, w) ∷ m) n a = Above-last j k v m n a.1

  -- A key behind all others goes to the end of a map.
  pub put_last :
      (k : K) (v : V) (m n : List (K × V))
      → Strictly (m ++ (k, v) ∷ n)
      → put k v m ≡ m ++ (k, v) ∷ []
  unfolding put
  put_last k v [] n s = refl
  put_last k v ((j, w) ∷ m) n s = ground (
    arith,
    put_last k v m n s.1,
    Above-last j k v m n s.0,
    o.eqb_iff j k,
    o.lessb_irrefl j,
    o.lessb_trans j k j,
  )

module _ {K : Type 0} ⦃o : Ord K⦄ where
  -- k is below every key of the set; the keys rise strictly along the set.
  abbrev pub Below : K → List K → Type 0
  Below k [] = Unit
  Below k (j ∷ s) = (o.lessb k j ≡ true) × Below k s

  abbrev pub Rising : List K → Type 0
  Rising [] = Unit
  Rising (k ∷ s) = Below k s × Rising s

module _ {K : Type 0} ⦃o : Ord K⦄ where
  Below-last : (j k : K) (m n : List K) → Below j (m ++ k ∷ n) → o.lessb j k ≡ true
  Below-last j k [] n a = a.0
  Below-last j k (i ∷ m) n a = Below-last j k m n a.1

  -- A key behind all others goes to the end of a set.
  pub insert_last : (k : K) (m n : List K) → Rising (m ++ k ∷ n) → insert k m ≡ m ++ k ∷ []
  unfolding insert
  insert_last k [] n s = refl
  insert_last k (j ∷ m) n s = ground (
    arith,
    insert_last k m n s.1,
    Below-last j k m n s.0,
    o.eqb_iff j k,
    o.lessb_irrefl j,
    o.lessb_trans j k j,
  )

  Below-insert : (i k : K) (m : List K) → o.lessb i k ≡ true → Below i m → Below i (insert k m)
  unfolding insert
  Below-insert i k [] h a = (h, tt)
  Below-insert i k (j ∷ m) h a = ground (arith, Below-insert i k m, o.eqb_iff j k)

  Below-mono : (i k : K) (m : List K) → o.lessb i k ≡ true → Below k m → Below i m
  Below-mono i k [] h a = tt
  Below-mono i k (j ∷ m) h a = (o.lessb_trans i k j h a.0, Below-mono i k m h a.1)

  pub Rising-insert : (k : K) (m : List K) → Rising m → Rising (insert k m)
  unfolding insert
  Rising-insert k [] s = (tt, tt)
  Rising-insert k (j ∷ m) s = ground (
    arith,
    Rising-insert k m,
    Below-mono k j m,
    Below-insert j k m,
    o.lessb_total k j,
    o.eqb_iff j k,
    o.eqb_iff k j,
  )

  Below-erase : (i k : K) (m : List K) → Below i m → Below i (erase k m)
  unfolding erase
  Below-erase i k [] a = tt
  Below-erase i k (j ∷ m) a = ground (arith, Below-erase i k m a.1)

  pub Rising-erase : (k : K) (m : List K) → Rising m → Rising (erase k m)
  unfolding erase
  Rising-erase k [] s = tt
  Rising-erase k (j ∷ m) s = ground (arith, Rising-erase k m s.1, Below-erase j k m s.0)

  abbrev pub erase_all : List K → List K → List K
  erase_all [] s = s
  erase_all (k ∷ ks) s = erase_all ks (erase k s)

  -- No key of the first set is in the second.
  abbrev pub Apart : List K → List K → Type 0
  Apart ks s = (k : K) → (contains k ks && contains k s) ≡ false

module _ {K : Type 0} ⦃o : Ord K⦄ where
  pub erase-absent : (k : K) (s : List K) → contains k s ≡ false → erase k s ≡ s
  unfolding contains erase
  erase-absent k [] h = refl
  erase-absent k (x ∷ xs) h = ground (arith, erase-absent k xs)

  Apart-head : (k : K) (ks s : List K) → Apart (k ∷ ks) s → contains k s ≡ false
  unfolding contains
  Apart-head k ks s h = ground (arith, h k, o.eqb_iff k k)

  Apart-tail : (k : K) (ks s : List K) → Apart (k ∷ ks) s → Apart ks s
  unfolding contains
  Apart-tail k ks s h j = ground (arith, h j)

  pub erase_all-Apart : (ks s : List K) → Apart ks s → erase_all ks s ≡ s
  erase_all-Apart [] s h = refl
  erase_all-Apart (k ∷ ks) s h =
      rw (erase-absent k s (Apart-head k ks s h), erase_all-Apart ks s (Apart-tail k ks s h))
