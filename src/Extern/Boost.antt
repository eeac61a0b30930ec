-- ===== src/Extern/Boost.antt =====
-- boost::tokenizer over char_separator, and boost::algorithm::join, as source/include/key.hh and
-- source/jsonrpc.cc use them: with one separator character.
use libinv.Prelude.{ℕ, ◌≡◌, false, List, [], ◌∷◌, ◌++◌, Bytes, contains, nat_ord}

pub record Boost : Type 0 where
  -- The tokens of a text. By default a char_separator drops the delimiters and empty tokens.
  pub tokens : ℕ → Bytes → List Bytes
  -- The segments, with the separator between each two.
  pub join : List Bytes → Bytes → Bytes
  pub tokens-nil : (c : ℕ) → tokens c [] ≡ []
  pub tokens_delimiter : (c : ℕ) (s : Bytes) → tokens c (c ∷ s) ≡ tokens c s
  pub tokens_last :
      (c x : ℕ) (w : Bytes) → contains c (x ∷ w) ≡ false → tokens c (x ∷ w) ≡ (x ∷ w) ∷ []
  pub tokens_word :
      (c x : ℕ) (w s : Bytes)
      → contains c (x ∷ w) ≡ false
      → tokens c ((x ∷ w) ++ c ∷ s) ≡ (x ∷ w) ∷ tokens c s
  pub join-nil : (sep : Bytes) → join [] sep ≡ []
  pub join_one : (w sep : Bytes) → join (w ∷ []) sep ≡ w
  pub join_more :
      (v w : Bytes) (ws : List Bytes) (sep : Bytes)
      → join (v ∷ w ∷ ws) sep ≡ v ++ (sep ++ join (w ∷ ws) sep)
