-- ===== src/Association/Get.antt =====
-- `get` loads exactly the links of the database, and so what a commit wrote.
use libinv.Prelude.{
  ◌≡◌, refl, false, ◌||◌, List, [], ◌∷◌, Bytes, is_some, contains, lookup, list_lessb, list_ord,
  nat_ord, arith, extension_not_below,
}
use libinv.Extern.Boost.{Boost}
use libinv.Extern.Kyoto.{Kyoto}
use libinv.Key.{link_separator, prefix}
use libinv.Index.{Ident, path, path_string}
use libinv.Index.Identity.{IsClean}
use libinv.Stored.{WellKeyed}
use libinv.Stored.Cursor.{lookup-records, records-Scanned}
use libinv.Association.{Association, scan_links, got, on_get, get}
use libinv.Association.Links.{link_record}
use libinv.Association.Scan.{link_record-prefix, scan_links-contains}

module _ ⦃B : Boost⦄ ⦃K : Kyoto⦄ where
  cursor : Ident → K.Db → List (Bytes × Bytes)
  cursor i d = K.records_from d (prefix link_separator (path_string i))

  lookup-cursor :
      (i j : Ident) (d : K.Db) → lookup (link_record i j) (cursor i d) ≡ K.find d (link_record i j)
  unfolding cursor
  lookup-cursor i j d =
      let pre = prefix link_separator (path_string i) in
      let low : list_lessb (link_record i j) pre ≡ false =
        rw link_record-prefix (extension_not_below pre (path_string j)) in
      lookup-records d pre (link_record i j) low

  got-assoc :
      (i : Ident) (rs : List (Bytes × Bytes)) (a : Association)
      → (got i rs a).assoc ≡ scan_links i rs a.assoc
  unfolding got scan_links on_get
  got-assoc i [] a = refl
  got-assoc i (r ∷ rs) a = refl

  -- On a database whose keys are of the known forms, get adds to the links of a clean object
  -- exactly the clean identities with a link record of the object, and keeps the links that were
  -- known.
  pub get-contains :
      (i j : Ident) (d : K.Db) (a : Association)
      → IsClean i
      → IsClean j
      → WellKeyed d
      → contains (path j) (get i d a).assoc
        ≡ (contains (path j) a.assoc || is_some (K.find d (link_record i j)))
  unfolding get cursor
  get-contains i j d a hi hj w = ground (
    arith,
    got-assoc i (cursor i d) a,
    scan_links-contains i j (cursor i d) a.assoc hi hj
        (K.records_sorted d (prefix link_separator (path_string i)))
        (records-Scanned d (prefix link_separator (path_string i)) w),
    lookup-cursor i j d,
  )
