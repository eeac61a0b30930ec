-- ===== src/Examples/Moves.antt =====
-- The theorems on namespaces, at the method object.index.get.
use libinv.Prelude.{[], ◌∷◌, codes, nat_ord, list_ord}
use libinv.Extern.Concrete.Tokenizer.{tokenizer}
use libinv.Namespace.{Namespace}

abbrev method : Namespace
method = record { stack = []; tokenized = codes "object" ∷ codes "index" ∷ codes "get" ∷ [] }

abbrev moved : Namespace
moved = record { stack = codes "object" ∷ []; tokenized = codes "index" ∷ codes "get" ∷ [] }
