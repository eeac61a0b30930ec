-- ===== src/Key/Words.antt =====
-- Texts that survive as one token, and what comes back when the text of a key is read.
use libinv.Prelude.{
  ℕ, zero, suc, ◌≤◌, ◌≡◌, refl, ap, ◌∙◌, true, false, List, [], ◌∷◌, ◌++◌, Bytes, contains, arith,
  nat_ord, Bool-cases, inl, inr, ◌⊎◌, length, length-append, list_eqb, list_eqb_iff, list_lessb,
  list_ord, ◌==◌, ==_iff,
}
use mathlib.Core.List.{append_assoc}
use libinv.Extern.Boost.{Boost}
use libinv.Key.{Key, parse, string}

-- A text with no separator in it, and not empty.
abbrev pub IsWord : ℕ → Bytes → Type 0
IsWord c [] = ⊥
IsWord c (x ∷ w) = contains c (x ∷ w) ≡ false

pub word_free : (c : ℕ) (w : Bytes) → IsWord c w → contains c w ≡ false
word_free c [] h = absurd h
word_free c (x ∷ w) h = h

abbrev pub AllWords : ℕ → List Bytes → Type 0
AllWords c [] = Unit
AllWords c (w ∷ ws) = IsWord c w × AllWords c ws

-- Every key is of words.
abbrev pub Plain : ℕ → List Key → Type 0
Plain c [] = Unit
Plain c (k ∷ ks) = AllWords c k × Plain c ks

-- A text has no separator, or is cut at its first one.
abbrev Cut : ℕ → Bytes → Type 0
Cut c s =
    (contains c s ≡ false) ⊎ ((w : Bytes) × (r : Bytes) × (s ≡ w ++ c ∷ r) × (contains c w ≡ false))

Cut-later : (c x : ℕ) (s : Bytes) → (x == c) ≡ false → Cut c s → Cut c (x ∷ s)
unfolding contains
Cut-later c x s h (inl e) = inl (ground arith)
Cut-later c x s h (inr (w, r, e, f)) = inr (x ∷ w, r, ap (λ t. x ∷ t) e, ground arith)

pub cut : (c : ℕ) (s : Bytes) → Cut c s
unfolding contains
cut c [] = inl refl
cut c (x ∷ s) = elim (Bool-cases (x == c)) [
  | inl e ↦ inr ([], s, ap (λ t. t ∷ s) ((==_iff x c).0 e), refl)
  | inr e ↦ Cut-later c x s e (cut c s)
]

eqb_append : (p v w : Bytes) → list_eqb (p ++ v) (p ++ w) ≡ list_eqb v w
unfolding list_eqb
eqb_append [] v w = refl
eqb_append (x ∷ p) v w = ground (arith, eqb_append p v w)

pub contains-append :
    (c : ℕ) (v w : Bytes)
    → contains c v ≡ false
    → contains c w ≡ false
    → contains c (v ++ w) ≡ false
unfolding contains
contains-append c [] w p q = q
contains-append c (x ∷ v) w p q = ground (arith, contains-append c v w)

pub contains_tail :
    (c x : ℕ) (w : Bytes) → (x == c) ≡ false → contains c w ≡ false → contains c (x ∷ w) ≡ false
unfolding contains
contains_tail c x w e p = ground arith

pub below_extension : (v w : Bytes) (x : ℕ) → list_lessb v (v ++ x ∷ w) ≡ true
unfolding list_lessb
below_extension [] w x = refl
below_extension (y ∷ v) w x = ground (arith, below_extension v w x)

pub contains_middle : (c : ℕ) (v w : Bytes) → contains c (v ++ c ∷ w) ≡ true
unfolding contains
contains_middle c [] w = ground (arith, ==_iff c c)
contains_middle c (x ∷ v) w = ground (arith, contains_middle c v w)

pub differs :
    (c : ℕ) (v w : Bytes) → contains c v ≡ true → contains c w ≡ false → list_eqb v w ≡ false
differs c v w p q = ground (arith, list_eqb_iff v w)

pub word : (s c : ℕ) (v r : Bytes) → contains s (v ++ c ∷ r) ≡ false → IsWord s (v ++ c ∷ r)
word s c [] r h = h
word s c (x ∷ v) r h = h

pub nil_low : (c : ℕ) (v : Bytes) → list_lessb [] (v ++ c ∷ []) ≡ false → ⊥
unfolding list_lessb
nil_low c [] h = cc
nil_low c (x ∷ v) h = cc

module _ ⦃B : Boost⦄ where
  -- Of keys of two tokens with one first token, the texts are as different as the second ones.
  pub pair-eqb :
      (c : ℕ) (p h k : Bytes)
      → list_eqb (string c (p ∷ h ∷ [])) (string c (p ∷ k ∷ [])) ≡ list_eqb h k
  unfolding string list_eqb
  pair-eqb c p h k =
      rw
        (
          B.join_more p h [] (c ∷ []),
          B.join_more p k [] (c ∷ []),
          B.join_one h (c ∷ []),
          B.join_one k (c ∷ []),
          eqb_append p (c ∷ h) (c ∷ k),
        )
        (ground (arith, ==_iff c c))

  tokens-join : (c : ℕ) (ws : List Bytes) → AllWords c ws → B.tokens c (B.join ws (c ∷ [])) ≡ ws
  tokens-join c [] h = rw B.join-nil (B.tokens-nil c)
  tokens-join c ([] ∷ ws) h = absurd h.0
  tokens-join c ((x ∷ v) ∷ []) h = rw B.join_one (B.tokens_last c x v h.0)
  tokens-join c ((x ∷ v) ∷ w ∷ ws) h = rw B.join_more (
      B.tokens_word c x v (B.join (w ∷ ws) (c ∷ [])) h.0
      ∙ ap (λ t. (x ∷ v) ∷ t) (tokens-join c (w ∷ ws) h.1))

  -- The tokens after the first character of a word.
  tokens_from_word :
      (c x : ℕ) (s : Bytes)
      → ((r : Bytes) → length r ≤ length s → AllWords c (B.tokens c r))
      → Cut c (x ∷ s)
      → (x == c) ≡ false
      → AllWords c (B.tokens c (x ∷ s))
  tokens_from_word c x s ih (inl e) h = rw (B.tokens_last c x s e) (e, tt)
  tokens_from_word c x s ih (inr ([], r, e, f)) h = ground arith
  tokens_from_word c x s ih (inr (y ∷ w, r, e, f)) h =
      rw (e, B.tokens_word c y w r f)
        (f, ih r (omega (arith, ap length e, length-append (y ∷ w) (c ∷ r))))

  tokens-AllWords : (n c : ℕ) (s : Bytes) → length s ≤ n → AllWords c (B.tokens c s)
  tokens-AllWords n c [] h = rw B.tokens-nil tt
  tokens-AllWords zero c (x ∷ s) h = absurd (omega arith)
  tokens-AllWords (suc n) c (x ∷ s) h = elim (Bool-cases (x == c)) [
    | inl e ↦ rw ((==_iff x c).0 e, B.tokens_delimiter) (tokens-AllWords n c s (omega arith))
    | inr e ↦ tokens_from_word c x s (λ r k. tokens-AllWords n c r (omega arith)) (cut c (x ∷ s)) e
  ]

  -- A key of words, read back from its text, is the key.
  pub parse-string : (c : ℕ) (k : Key) → AllWords c k → parse c (string c k) ≡ k
  unfolding parse string
  parse-string c k h = tokens-join c k h

  -- The tokens of a parsed key are words.
  pub parse-AllWords : (c : ℕ) (s : Bytes) → AllWords c (parse c s)
  unfolding parse
  parse-AllWords c s = tokens-AllWords (length s) c s (omega arith)

  -- Whatever text a key is read from, its own text gives the same key again.
  pub parse-string-parse : (c : ℕ) (s : Bytes) → parse c (string c (parse c s)) ≡ parse c s
  parse-string-parse c s = parse-string c (parse c s) (parse-AllWords c s)

  -- A word before a separator is the first token.
  pub parse_word : (c : ℕ) (w s : Bytes) → IsWord c w → parse c (w ++ c ∷ s) ≡ w ∷ parse c s
  unfolding parse
  parse_word c [] s h = absurd h
  parse_word c (x ∷ w) s h = B.tokens_word c x w s h

  pub one_token : (c : ℕ) (w : Bytes) → IsWord c w → parse c w ≡ w ∷ []
  unfolding parse
  one_token c [] h = absurd h
  one_token c (x ∷ w) h = B.tokens_last c x w h

  -- A text with another character before its first separator: its first token holds the character.
  pub first_holds :
      (s c : ℕ) (v r : Bytes)
      → contains s v ≡ false
      → (c == s) ≡ false
      → (y : Bytes) × (ks : Key) × (parse s (v ++ c ∷ r) ≡ y ∷ ks) × (contains c y ≡ true)
  first_holds s c v r p n = elim (cut s r) [
    | inl e ↦ (
      v ++ c ∷ r,
      [],
      one_token s (v ++ c ∷ r)
          (word s c v r (contains-append s v (c ∷ r) p (contains_tail s c r n e))),
      contains_middle c v r,
    )
    | inr (w, t, e, f) ↦ (
      v ++ c ∷ w,
      parse s t,
      rw (e, ← append_assoc v (c ∷ w) (s ∷ t))
          (parse_word s (v ++ c ∷ w) t
            (word s c v w (contains-append s v (c ∷ w) p (contains_tail s c w n f)))),
      contains_middle c v w,
    )
  ]
