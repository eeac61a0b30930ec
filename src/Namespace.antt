-- ===== src/Namespace.antt =====
-- Namespace of source/jsonrpc.cc: the tokens of a method name and the stack of those popped, its
-- top first.
pub mod Moves
use libinv.Prelude.{ℕ, zero, suc, List, [], ◌∷◌, ◌++◌, Bytes, codes, Option, none, some, length}
use libinv.Exception.{Exception, out_of_range, runtime_error}
use libinv.Exec.{Result, ok, err, Exec, pure, raise, bind}
use libinv.Extern.Boost.{Boost}
use libinv.Key.{at}

pub record Namespace : Type 0 where
  pub stack : List Bytes
  pub tokenized : List Bytes

abbrev pub dot : ℕ
dot = b'.'

abbrev pub lookup_failed : Exception
lookup_failed = out_of_range (codes "JSONRPC namespace lookup failed")

abbrev pub invalid_use : Bytes → Exception
invalid_use desc = runtime_error (codes "Invalid use of Namespace class:" ++ desc)

-- Namespace(method)
unfoldable pub of_method : ⦃B : Boost⦄ → Bytes → Namespace
of_method ⦃B⦄ method = record { stack = []; tokenized = B.tokens dot method }

-- operator[]
unfoldable pub token : List Bytes → ℕ → Result Bytes
token [] n = err lookup_failed
token (t ∷ ts) zero = ok t
token (t ∷ ts) (suc n) = token ts n

unfoldable pub first : Namespace → Result Bytes
first n = elim n.tokenized [ [] ↦ err lookup_failed | t ∷ ts ↦ ok t ]

last_of : Bytes → List Bytes → Bytes
last_of t [] = t
last_of t (u ∷ ts) = last_of u ts

unfoldable pub last : Namespace → Result Bytes
unfolding last_of
last n = elim n.tokenized [ [] ↦ err lookup_failed | t ∷ ts ↦ ok (last_of t ts) ]

-- result += iter + "."
unfoldable pub dotted : List Bytes → Bytes
dotted [] = []
dotted (t ∷ ts) = t ++ dot ∷ dotted ts

-- std::string::pop_back; `none` is its undefined behaviour on an empty text
unfoldable pub pop_back : Bytes → Option Bytes
pop_back [] = none
pop_back (x ∷ []) = some []
pop_back (x ∷ y ∷ w) = elim (pop_back (y ∷ w)) [ none ↦ none | some v ↦ some (x ∷ v) ]

unfoldable pub path : Namespace → Option Bytes
unfolding dotted pop_back
path n = pop_back (dotted n.tokenized)

pop_from : List Bytes → Exec Namespace (Unit {0})
pop_from [] n = raise (invalid_use (codes "one pop() too many")) n
pop_from (t ∷ ts) n = pure tt (record { stack = t ∷ n.stack; tokenized = ts })

unfoldable pub pop : Exec Namespace (Unit {0})
unfolding pop_from
pop n = pop_from n.tokenized n

push_from : List Bytes → Exec Namespace (Unit {0})
push_from [] n = raise (invalid_use (codes "one push() too many")) n
push_from (t ∷ ts) n = pure tt (record { stack = ts; tokenized = t ∷ n.tokenized })

unfoldable pub push : Exec Namespace (Unit {0})
unfolding push_from
push n = push_from n.stack n

-- while (!m_stack.empty()) push(): as many rounds as the stack is high
rewind_rounds : List Bytes → Exec Namespace (Unit {0})
rewind_rounds [] = pure tt
rewind_rounds (t ∷ ts) = bind push λ _. rewind_rounds ts

unfoldable pub rewind : Exec Namespace (Unit {0})
unfolding rewind_rounds
rewind n = rewind_rounds n.stack n

unfoldable pub position : Namespace → ℕ
position n = length n.stack
