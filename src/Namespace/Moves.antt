-- ===== src/Namespace/Moves.antt =====
-- pop, push and rewind move one cursor over the tokens of a method; path joins those ahead of it.
use mathlib.Core.List.{reverse_aux, append-nil}
use libinv.Prelude.{ℕ, suc, ◌≡◌, refl, ap, List, [], ◌∷◌, ◌++◌, Bytes, none, some, arith}
use libinv.Exec.{ok}
use libinv.Extern.Boost.{Boost}
use libinv.Namespace.{
  Namespace, dot, pop, push, push_from, pop_from, rewind, rewind_rounds, path, dotted, pop_back,
  position,
}

-- All tokens of the method: those popped, in their order, and those ahead.
abbrev pub whole : Namespace → List Bytes
whole n = reverse_aux n.stack n.tokenized

-- A pop that succeeds is undone by a push, and moves the cursor by one.
pub push-pop :
    (n : Namespace) (t : Bytes) (ts : List Bytes)
    → n.tokenized ≡ t ∷ ts
    → (push (pop n).1 ≡ (ok tt, n)) × (position (pop n).1 ≡ suc (position n))
unfolding push pop pop_from position
push-pop n t ts h = (ground arith, ground arith)

rewind_rounds-lem :
    (s ts : List Bytes)
    → rewind_rounds s (record { stack = s; tokenized = ts })
      ≡ (ok tt, record { stack = []; tokenized = reverse_aux s ts })
unfolding rewind_rounds push push_from
rewind_rounds-lem [] ts = refl
rewind_rounds-lem (t ∷ s) ts = rewind_rounds-lem s (t ∷ ts)

-- From wherever pops and pushes have led, rewind returns and puts all tokens ahead again.
pub rewind_lem : (n : Namespace) → rewind n ≡ (ok tt, record { stack = []; tokenized = whole n })
unfolding rewind
rewind_lem n = rewind_rounds-lem n.stack n.tokenized

pop_from-whole :
    (ts : List Bytes) (n : Namespace) → n.tokenized ≡ ts → whole (pop_from ts n).1 ≡ whole n
unfolding pop_from
pop_from-whole [] n e = refl
pop_from-whole (t ∷ ts) n e = rw e

push_from-whole :
    (ts : List Bytes) (n : Namespace) → n.stack ≡ ts → whole (push_from ts n).1 ≡ whole n
unfolding push_from
push_from-whole [] n e = refl
push_from-whole (t ∷ ts) n e = rw e

-- No move loses a token or changes their order: popped, pushed or rewound, also where it throws, a
-- namespace has the same tokens.
pub whole-moves :
    (n : Namespace)
    → (whole (pop n).1 ≡ whole n) × (whole (push n).1 ≡ whole n) × (whole (rewind n).1 ≡ whole n)
unfolding pop push
whole-moves n = (
  pop_from-whole n.tokenized n refl,
  push_from-whole n.stack n refl,
  ap (λ r. whole r.1) (rewind_lem n),
)

pop_back-append :
    (v w : Bytes) (x : ℕ)
    → pop_back (v ++ x ∷ w) ≡ elim (pop_back (x ∷ w)) [ none ↦ none | some u ↦ some (v ++ u) ]
unfolding pop_back
pop_back-append [] w x = ground arith
pop_back-append (y ∷ []) w x = refl
pop_back-append (y ∷ z ∷ v) w x = ground (arith, pop_back-append (z ∷ v) w x)

pop_back_cons : (x : ℕ) (w v : Bytes) → pop_back w ≡ some v → pop_back (x ∷ w) ≡ some (x ∷ v)
unfolding pop_back
pop_back_cons x [] v h = cc
pop_back_cons x (y ∷ w) v h = rw h

module _ ⦃B : Boost⦄ where
  dotted-join :
      (t : Bytes) (ts : List Bytes) → pop_back (dotted (t ∷ ts)) ≡ some (B.join (t ∷ ts) (dot ∷ []))
  unfolding dotted
  dotted-join t [] =
      rw (pop_back-append t [] dot, B.join_one) (unfold pop_back in ap some (append-nil t))
  dotted-join t (u ∷ ts) = ground (
    arith,
    pop_back-append t (dotted (u ∷ ts)) dot,
    pop_back_cons dot (dotted (u ∷ ts)) (B.join (u ∷ ts) (dot ∷ [])) (dotted-join u ts),
    B.join_more t u ts (dot ∷ []),
  )

  -- The path of a namespace with a token ahead joins the tokens ahead by dots.
  pub path-join :
      (n : Namespace) (t : Bytes) (ts : List Bytes)
      → n.tokenized ≡ t ∷ ts
      → path n ≡ some (B.join n.tokenized (dot ∷ []))
  unfolding path
  path-join n t ts h = rw h (dotted-join t ts)
