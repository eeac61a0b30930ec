-- ===== src/Extern/Concrete/Tokenizer.antt =====
-- A tokenizer for one separator character, and a join.
use libinv.Prelude.{
  ℕ, ◌≡◌, refl, false, List, [], ◌∷◌, ◌++◌, Bytes, contains, ◌==◌, if◌then◌else◌, arith, nat_ord,
}
use libinv.Extern.Boost.{Boost}

-- A token that is not empty goes in front.
pub emit : Bytes → List Bytes → List Bytes
emit [] ts = ts
emit (x ∷ w) ts = (x ∷ w) ∷ ts

-- The token that the text begins with, and the tokens after it.
pub split : ℕ → Bytes → Bytes × List Bytes
unfolding emit
split c [] = ([], [])
split c (x ∷ s) = let (w, ts) = split c s in if x == c then ([], emit w ts) else (x ∷ w, ts)

pub tokens : ℕ → Bytes → List Bytes
unfolding split
tokens c s = let (w, ts) = split c s in emit w ts

pub join : List Bytes → Bytes → Bytes
join [] sep = []
join (w ∷ []) sep = w
join (v ∷ w ∷ ws) sep = v ++ (sep ++ join (w ∷ ws) sep)

pub tokens-nil : (c : ℕ) → tokens c [] ≡ []
unfolding tokens
tokens-nil c = refl

pub tokens_delimiter : (c : ℕ) (s : Bytes) → tokens c (c ∷ s) ≡ tokens c s
unfolding tokens
tokens_delimiter c s = ground arith

split_last : (c : ℕ) (w : Bytes) → contains c w ≡ false → split c w ≡ (w, [])
unfolding split contains
split_last c [] h = refl
split_last c (x ∷ w) h = ground (arith, split_last c w)

split_word : (c : ℕ) (w s : Bytes) → contains c w ≡ false → split c (w ++ c ∷ s) ≡ (w, tokens c s)
unfolding split tokens contains
split_word c [] s h = ground arith
split_word c (x ∷ w) s h = ground (arith, split_word c w s)

pub tokens_last :
    (c x : ℕ) (w : Bytes) → contains c (x ∷ w) ≡ false → tokens c (x ∷ w) ≡ (x ∷ w) ∷ []
unfolding tokens
tokens_last c x w h = rw (split_last c (x ∷ w) h)

pub tokens_word :
    (c x : ℕ) (w s : Bytes)
    → contains c (x ∷ w) ≡ false
    → tokens c ((x ∷ w) ++ c ∷ s) ≡ (x ∷ w) ∷ tokens c s
unfolding tokens
tokens_word c x w s h = rw (split_word c (x ∷ w) s h)

pub join-nil : (sep : Bytes) → join [] sep ≡ []
unfolding join
join-nil sep = refl

pub join_one : (w sep : Bytes) → join (w ∷ []) sep ≡ w
unfolding join
join_one w sep = refl

pub join_more :
    (v w : Bytes) (ws : List Bytes) (sep : Bytes)
    → join (v ∷ w ∷ ws) sep ≡ v ++ (sep ++ join (w ∷ ws) sep)
unfolding join
join_more v w ws sep = refl

instance unfoldable pub tokenizer : Boost
unfolding tokens join
tokenizer = record {
  tokens = tokens;
  join = join;
  tokens-nil = tokens-nil;
  tokens_delimiter = tokens_delimiter;
  tokens_last = tokens_last;
  tokens_word = tokens_word;
  join-nil = join-nil;
  join_one = join_one;
  join_more = join_more;
}
