-- ===== src/Examples/Data.antt =====
-- Two objects, what they have to commit, and a database that holds a link between them.
use libinv.Prelude.{codes, nat_ord, list_ord}
use libinv.Extern.Concrete.Tokenizer.{tokenizer}
use libinv.Extern.Concrete.TreeDb.{tree_db, empty_db}
use libinv.Index.{Ident, path}
use libinv.Association.{Association, fresh, associate, commit}

abbrev pub left : Ident
left = record { type = codes "box"; id = codes "a" }

abbrev pub right : Ident
right = record { type = codes "box"; id = codes "b" }

abbrev pub to_right : Association
to_right = associate (path right) fresh

abbrev pub to_left : Association
to_left = associate (path left) fresh

abbrev pub linked : tree_db.Db
linked = (commit left to_right empty_db).1
