-- ===== src/Prelude/Containers.antt =====
-- std::set and std::map over an ordered key: sorted lists, iterated in order.
use Prim.Native.Nat.{ℕ, suc, ◌+◌}
use mathlib.Core.Path.{◌≡◌, refl, subst}
use mathlib.Core.Logic.{◌⊎◌, inl, inr}
use mathlib.Core.Bool.{Bool, true, false}
use mathlib.Core.Option.{Option, none, some}
use mathlib.Core.List.{List, [], ◌∷◌, ◌++◌}
use native.Mathlib.Omega.{arith}
use libinv.Prelude.Tests.{Bool-cases, if◌then◌else◌}
use libinv.Prelude.Order.{Ord}

module _ {ℓ} {K : Type ℓ} ⦃o : Ord K⦄ where
  -- std::set::find(k) != end()
  unfoldable pub contains : K → List K → Bool
  contains k [] = false
  contains k (x ∷ xs) = if o.eqb x k then true else contains k xs

  -- std::set::insert: nothing happens where the key is there
  unfoldable pub insert : K → List K → List K
  insert k [] = k ∷ []
  insert k (x ∷ xs) =
      if o.eqb x k then x ∷ xs else if o.lessb k x then k ∷ x ∷ xs else x ∷ insert k xs

  -- std::set::erase(k)
  unfoldable pub erase : K → List K → List K
  erase k [] = []
  erase k (x ∷ xs) = let rest = erase k xs in if o.eqb x k then rest else x ∷ rest

  pub contains-insert :
      (k j : K) (s : List K) → contains j (insert k s) ≡ (if o.eqb k j then true else contains j s)
  unfolding contains insert
  contains-insert k j [] = refl
  contains-insert k j (x ∷ xs) =
      ground (arith, contains-insert k j xs, o.eqb_iff x k, o.eqb_iff x j, o.eqb_iff k j)

  pub contains-erase :
      (k j : K) (s : List K) → contains j (erase k s) ≡ (if o.eqb k j then false else contains j s)
  unfolding contains erase
  contains-erase k j [] = ground arith
  contains-erase k j (x ∷ xs) =
      ground (arith, contains-erase k j xs, o.eqb_iff x k, o.eqb_iff x j, o.eqb_iff k j)

module _ {ℓ κ} {K : Type ℓ} {V : Type κ} ⦃o : Ord K⦄ where
  -- std::map::find
  unfoldable pub lookup : K → List (K × V) → Option V
  lookup k [] = none
  lookup k ((j, v) ∷ m) = if o.eqb j k then some v else lookup k m

  -- m[k] = v
  unfoldable pub put : K → V → List (K × V) → List (K × V)
  put k v [] = (k, v) ∷ []
  put k v ((j, w) ∷ m) =
      if o.eqb j k
      then (j, v) ∷ m
      else if o.lessb k j
      then (k, v) ∷ (j, w) ∷ m
      else (j, w) ∷ put k v m

  -- std::map::erase(k)
  unfoldable pub without : K → List (K × V) → List (K × V)
  without k [] = []
  without k ((j, v) ∷ m) = let rest = without k m in if o.eqb j k then rest else (j, v) ∷ rest

  pub lookup-put :
      (k j : K) (v : V) (m : List (K × V))
      → lookup j (put k v m) ≡ (if o.eqb k j then some v else lookup j m)
  unfolding lookup put
  lookup-put k j v [] = refl
  lookup-put k j v ((i, w) ∷ m) =
      ground (arith, lookup-put k j v m, o.eqb_iff i k, o.eqb_iff i j, o.eqb_iff k j)

  pub lookup-without :
      (k j : K) (m : List (K × V))
      → lookup j (without k m) ≡ (if o.eqb k j then none else lookup j m)
  unfolding lookup without
  lookup-without k j [] = ground arith
  lookup-without k j ((i, w) ∷ m) =
      ground (arith, lookup-without k j m, o.eqb_iff i k, o.eqb_iff i j, o.eqb_iff k j)

-- The entry k ↦ v is in the list.
abbrev pub Has : {K V : Type 0} → K → V → List (K × V) → Type 0
Has k v [] = ⊥
Has k v ((j, w) ∷ m) = ((j ≡ k) × (w ≡ v)) ⊎ Has k v m

module _ {K V : Type 0} ⦃o : Ord K⦄ where
  -- k is below every key of the list.
  abbrev pub Above : K → List (K × V) → Type 0
  Above k [] = Unit
  Above k ((j, v) ∷ m) = (o.lessb k j ≡ true) × Above k m

  -- The keys rise strictly along the list.
  abbrev pub Strictly : List (K × V) → Type 0
  Strictly [] = Unit
  Strictly ((k, v) ∷ m) = Above k m × Strictly m

module _ {K V : Type 0} ⦃o : Ord K⦄ where
  pub Above-mono : (i k : K) (m : List (K × V)) → o.lessb i k ≡ true → Above k m → Above i m
  Above-mono i k [] h a = tt
  Above-mono i k ((j, v) ∷ m) h a = (o.lessb_trans i k j h a.0, Above-mono i k m h a.1)

  pub Above-Has : (k j : K) (v : V) (m : List (K × V)) → Above k m → Has j v m → o.lessb k j ≡ true
  Above-Has k j v [] a h = absurd h
  Above-Has k j v ((i, w) ∷ m) a (inl e) = subst (λ t. o.lessb k t ≡ true) e.0 a.0
  Above-Has k j v ((i, w) ∷ m) a (inr h) = Above-Has k j v m a.1 h

  pub Above-lookup : (k : K) (m : List (K × V)) → Above k m → lookup k m ≡ none
  unfolding lookup
  Above-lookup k [] a = refl
  Above-lookup k ((j, v) ∷ m) a = ground (arith, Above-lookup k m, o.eqb_iff j k, o.lessb_irrefl k)

  Above-put :
      (i k : K) (v : V) (m : List (K × V)) → o.lessb i k ≡ true → Above i m → Above i (put k v m)
  unfolding put
  Above-put i k v [] h a = (h, tt)
  Above-put i k v ((j, w) ∷ m) h a = ground (arith, Above-put i k v m, o.eqb_iff j k)

  pub Strictly-put : (k : K) (v : V) (m : List (K × V)) → Strictly m → Strictly (put k v m)
  unfolding put
  Strictly-put k v [] s = (tt, tt)
  Strictly-put k v ((j, w) ∷ m) s = ground (
    arith,
    Strictly-put k v m,
    Above-mono k j m,
    Above-put j k v m,
    o.lessb_total k j,
    o.eqb_iff j k,
    o.eqb_iff k j,
  )

  -- In a strictly sorted list the entry that is found is the entry that is there.
  pub Has-of_lookup : (k : K) (v : V) (m : List (K × V)) → lookup k m ≡ some v → Has k v m
  unfolding lookup
  Has-of_lookup k v [] h = cc
  Has-of_lookup k v ((j, w) ∷ m) h = elim (Bool-cases (o.eqb j k)) [
    | inl e ↦ inl ((o.eqb_iff j k).0 e, ground arith)
    | inr e ↦ inr (Has-of_lookup k v m (ground arith))
  ]

  pub lookup_of_Has :
      (k : K) (v : V) (m : List (K × V)) → Strictly m → Has k v m → lookup k m ≡ some v
  unfolding lookup
  lookup_of_Has k v [] s h = absurd h
  lookup_of_Has k v ((j, w) ∷ m) s (inl e) = ground (arith, o.eqb_iff j k)
  lookup_of_Has k v ((j, w) ∷ m) s (inr h) =
      ground
        (arith, o.eqb_iff j k, lookup_of_Has k v m s.1 h, Above-Has j k v m s.0 h, o.lessb_irrefl k)

abbrev pub length {ℓ} : {A : Type ℓ} → List A → ℕ
length [] = 0
length (x ∷ xs) = suc (length xs)

pub length-append {ℓ} : {A : Type ℓ} (xs ys : List A) → length (xs ++ ys) ≡ length xs + length ys
length-append [] ys = omega arith
length-append (x ∷ xs) ys = omega (arith, length-append xs ys)
