-- ===== src/Examples/Updates.antt =====
-- The theorems on the updates of clients, at the objects of Examples.Things.
use libinv.Prelude.{
  ◌≡◌, refl, false, [], codes, nat_ord, list_ord, lookup, list_eqb, erase, insert, contains, arith,
}
use libinv.Exec.{ok, ◌>>=◌}
use libinv.Extern.Concrete.Tokenizer.{tokenizer}
use libinv.Extern.Concrete.TreeDb.{tree_db, empty_db}
use libinv.Extern.Concrete.Document.{document}
use libinv.Index
use libinv.Index.{path}
use libinv.Association
use libinv.Association.Update
use libinv.Container
use libinv.Container.{Container, assign}
use libinv.Container.Update as ContainerUpdate
use libinv.Hierarchical
use libinv.Hierarchical.{Hierarchical, add_key, set_up_id}
use libinv.Hierarchical.Update as HierarchicalUpdate
use libinv.Object.Component.{acknowledged}
use libinv.Examples.Data.{left, right, to_right}
use libinv.Examples.Things.{
  blank, named, things, thing_links, thing_links-IsPart, thing_attributes, thing_attributes-IsPart,
  thing_place, thing_place-IsPart, left_there,
}
use libinv.Prelude.{put}
use libinv.Prelude.{lookup}
use libinv.Prelude.{list_lessb}
use libinv.Prelude.{list_eqb}
use libinv.Key.{prefix}

link_update-commit_example :
    ((Update.rpc_update things thing_links false
        (document.object (Update.update_params left to_right))
        (blank, left_there)).1.1
      ≡ (Association.commit left to_right left_there).1)
    × ((Update.rpc_update things thing_links false
          (document.object (Update.update_params left to_right))
          (blank, left_there)).0
        ≡ ((Association.commit left to_right left_there).0 >>= λ _. ok (acknowledged false)))
unfolding Index.exists tree_db lookup Index.commit list_eqb Index.path_string tokenizer
    Association.associate erase insert contains
link_update-commit_example =
    Update.link_update-commit things thing_links false to_right 97 [] blank
      (named (codes "a") blank) left_there thing_links-IsPart refl refl refl refl tt
      ((refl, (refl, tt)), tt) tt (tt, tt) (λ k. ground arith)

abbrev pub red : Container
red = assign (codes "colour") (codes "red") Container.fresh

repr_set-commit_example :
    ((ContainerUpdate.rpc_repr_set things thing_attributes [] false
        (document.object (ContainerUpdate.update_params left red))
        (blank, left_there)).1.1
      ≡ (Container.commit [] left red left_there).1)
    × ((ContainerUpdate.rpc_repr_set things thing_attributes [] false
          (document.object (ContainerUpdate.update_params left red))
          (blank, left_there)).0
        ≡ ((Container.commit [] left red left_there).0 >>= λ _. ok (acknowledged false)))
unfolding Index.exists tree_db lookup Index.commit list_eqb Index.path_string tokenizer
    Container.get put empty_db list_lessb prefix assign Container.names
repr_set-commit_example =
    ContainerUpdate.repr_set-commit things thing_attributes [] false red Container.fresh 97 [] blank
      (named (codes "a") blank) left_there thing_attributes-IsPart refl refl refl refl (tt, tt)

abbrev placed : Hierarchical
placed = add_key (path right) (set_up_id (path right) Hierarchical.fresh)

hierarchy_update-commit_example :
    ((HierarchicalUpdate.rpc_update things thing_place false
        (document.object (HierarchicalUpdate.update_params left placed))
        (blank, left_there)).1.1
      ≡ (Hierarchical.commit left placed left_there).1)
    × ((HierarchicalUpdate.rpc_update things thing_place false
          (document.object (HierarchicalUpdate.update_params left placed))
          (blank, left_there)).0
        ≡ ((Hierarchical.commit left placed left_there).0 >>= λ _. ok (acknowledged false)))
unfolding Index.exists tree_db lookup Index.commit list_eqb Index.path_string tokenizer add_key
    set_up_id erase insert contains
hierarchy_update-commit_example =
    HierarchicalUpdate.hierarchy_update-commit things thing_place false placed 97 [] blank
      (named (codes "a") blank) left_there thing_place-IsPart refl refl refl refl (refl, (refl, tt))
      tt tt ((refl, (refl, tt)), tt) tt tt (tt, tt) (λ k. ground arith)
