-- ===== src/Prelude/Order.antt =====
-- Linear orders with Boolean tests, as std::set and std::map use them through operator<, and the
-- lexicographic order of std::string and std::vector.
use Prim.Native.Nat.{ℕ}
use mathlib.Core.Path.{◌≡◌, refl, sym}
use mathlib.Core.Logic.{◌↔◌, inl, inr}
use mathlib.Core.Bool.{Bool, true, false, false≢true}
use mathlib.Core.List.{List, [], ◌∷◌, ◌++◌}
use native.Mathlib.Omega.{arith}
use libinv.Prelude.Tests.{ltb, ◌==◌, ==_iff, Bool-cases, if◌then◌else◌}

pub record Ord {ℓ} (A : Type ℓ) : Type ℓ where
  pub eqb : A → A → Bool
  pub lessb : A → A → Bool
  pub eqb_iff : (a b : A) → (eqb a b ≡ true) ↔ (a ≡ b)
  pub lessb_irrefl : (a : A) → lessb a a ≡ false
  pub lessb_trans : (a b c : A) → lessb a b ≡ true → lessb b c ≡ true → lessb a c ≡ true
  pub lessb_total : (a b : A) → eqb a b ≡ false → lessb a b ≡ false → lessb b a ≡ true

pub nat_irrefl : (a : ℕ) → ltb a a ≡ false
nat_irrefl a = ground arith

pub nat_trans : (a b c : ℕ) → ltb a b ≡ true → ltb b c ≡ true → ltb a c ≡ true
nat_trans a b c p q = ground arith

pub nat_total : (a b : ℕ) → (a == b) ≡ false → ltb a b ≡ false → ltb b a ≡ true
nat_total a b p q = ground arith

instance abbrev pub nat_ord : Ord ℕ
nat_ord = record {
  eqb = ◌==◌;
  lessb = ltb;
  eqb_iff = ==_iff;
  lessb_irrefl = nat_irrefl;
  lessb_trans = nat_trans;
  lessb_total = nat_total;
}

module _ {ℓ} {A : Type ℓ} ⦃o : Ord A⦄ where
  unfoldable pub list_eqb : List A → List A → Bool
  list_eqb [] [] = true
  list_eqb [] (y ∷ ys) = false
  list_eqb (x ∷ xs) [] = false
  list_eqb (x ∷ xs) (y ∷ ys) = if o.eqb x y then list_eqb xs ys else false

  -- std::lexicographical_compare
  unfoldable pub list_lessb : List A → List A → Bool
  list_lessb [] [] = false
  list_lessb [] (y ∷ ys) = true
  list_lessb (x ∷ xs) [] = false
  list_lessb (x ∷ xs) (y ∷ ys) = if o.eqb x y then list_lessb xs ys else o.lessb x y

  pub list_eqb_iff : (xs ys : List A) → (list_eqb xs ys ≡ true) ↔ (xs ≡ ys)
  unfolding list_eqb
  list_eqb_iff [] [] = ((λ _. refl), (λ _. refl))
  list_eqb_iff [] (y ∷ ys) = ((λ p. cc), (λ p. cc))
  list_eqb_iff (x ∷ xs) [] = ((λ p. cc), (λ p. cc))
  list_eqb_iff (x ∷ xs) (y ∷ ys) = ground (arith, o.eqb_iff x y, list_eqb_iff xs ys)

  pub list_lessb_irrefl : (xs : List A) → list_lessb xs xs ≡ false
  unfolding list_lessb
  list_lessb_irrefl [] = refl
  list_lessb_irrefl (x ∷ xs) = ground (arith, o.lessb_irrefl x, list_lessb_irrefl xs)

  pub list_lessb_trans :
      (xs ys zs : List A)
      → list_lessb xs ys ≡ true
      → list_lessb ys zs ≡ true
      → list_lessb xs zs ≡ true
  unfolding list_lessb
  list_lessb_trans [] [] zs p q = cc
  list_lessb_trans [] (y ∷ ys) [] p q = cc
  list_lessb_trans [] (y ∷ ys) (z ∷ zs) p q = refl
  list_lessb_trans (x ∷ xs) [] zs p q = cc
  list_lessb_trans (x ∷ xs) (y ∷ ys) [] p q = cc
  list_lessb_trans (x ∷ xs) (y ∷ ys) (z ∷ zs) p q = ground (
    arith,
    o.eqb_iff x y,
    o.eqb_iff y z,
    o.eqb_iff x z,
    o.lessb_trans x y z,
    o.lessb_irrefl x,
    o.lessb_irrefl y,
    o.lessb_trans x y x,
    list_lessb_trans xs ys zs,
  )

  pub list_lessb-total :
      (xs ys : List A) → list_eqb xs ys ≡ false → list_lessb xs ys ≡ false → list_lessb ys xs ≡ true
  unfolding list_lessb list_eqb
  list_lessb-total [] [] p q = cc
  list_lessb-total [] (y ∷ ys) p q = cc
  list_lessb-total (x ∷ xs) [] p q = refl
  list_lessb-total (x ∷ xs) (y ∷ ys) p q =
      ground (arith, o.eqb_iff x y, o.eqb_iff y x, o.lessb_total x y, list_lessb-total xs ys)

instance abbrev pub list_ord {ℓ} : {A : Type ℓ} ⦃o : Ord A⦄ → Ord (List A)
list_ord = record {
  eqb = list_eqb;
  lessb = list_lessb;
  eqb_iff = list_eqb_iff;
  lessb_irrefl = list_lessb_irrefl;
  lessb_trans = list_lessb_trans;
  lessb_total = list_lessb-total;
}

module _ {ℓ} {A : Type ℓ} ⦃o : Ord A⦄ where
  between_step :
      (x y : A) (p k r : List A)
      → (list_lessb k p ≡ false → list_lessb k (p ++ r) ≡ true → (t : List A) × (k ≡ p ++ t))
      → list_lessb (y ∷ k) (x ∷ p) ≡ false
      → list_lessb (y ∷ k) (x ∷ (p ++ r)) ≡ true
      → (t : List A) × (y ∷ k ≡ x ∷ (p ++ t))
  unfolding list_lessb
  between_step x y p k r ih h l = elim (Bool-cases (o.eqb y x)) [
    | inl e ↦
        let (t, q) = ih (ground arith) (ground arith) in (t, ground (arith, (o.eqb_iff y x).0 e))
    | inr e ↦ absurd (false≢true (ground arith))
  ]

  -- What lies between a prefix and a text that has it, has it too.
  pub between-prefix :
      (p k r : List A)
      → list_lessb k p ≡ false
      → list_lessb k (p ++ r) ≡ true
      → (t : List A) × (k ≡ p ++ t)
  unfolding list_lessb
  between-prefix [] k r h l = (k, refl)
  between-prefix (x ∷ p) [] r h l = absurd (false≢true (sym h))
  between-prefix (x ∷ p) (y ∷ k) r h l = between_step x y p k r (between-prefix p k r) h l

  -- A text with a prefix is not below the prefix.
  pub extension_not_below : (p r : List A) → list_lessb (p ++ r) p ≡ false
  unfolding list_lessb
  extension_not_below [] [] = refl
  extension_not_below [] (y ∷ r) = refl
  extension_not_below (x ∷ p) r = ground (arith, extension_not_below p r, o.lessb_irrefl x)
