-- ===== src/Types.antt =====
-- source/include/stdtypes.hh: the types of the standard data model. What they add to their mixins is
-- an item's name and the ids of stickers; printing and scanning run commands of the system and are
-- left out.
pub mod Coded
pub mod Stages
pub mod Indexed
pub mod RoundTrip
use libinv.Prelude.{
  ◌≡◌, true, false, List, [], ◌∷◌, ◌++◌, Bytes, codes, Option, map, contains, list_eqb_iff, nat_ord,
  list_ord, if◌then◌else◌, arith,
}
use libinv.Extern.Boost.{Boost}
use libinv.Extern.Kyoto.{Kyoto}
use libinv.Index.{Ident, generate_id}
use libinv.Index.Identity.{IsClean, is_clean, starts_with_letter, is_empty, all_plain, is_separator}
use libinv.Container.{Container, has_attribute, attribute_value}

-- Category::type(), and so on
abbrev pub category : Bytes
category = codes "Category"

abbrev pub sticker : Bytes
sticker = codes "Sticker"

abbrev pub picture : Bytes
picture = codes "Picture"

abbrev pub item : Bytes
item = codes "Item"

abbrev pub gtin : Bytes
gtin = codes "GTIN"

abbrev pub isbn : Bytes
isbn = codes "ISBN"

abbrev pub owner : Bytes
owner = codes "Owner"

-- StandardDataModel, by type_list()
unfoldable pub standard_data_model : List Bytes
standard_data_model = category ∷ sticker ∷ picture ∷ item ∷ gtin ∷ isbn ∷ owner ∷ []

-- Item::name, of an item with the id
unfoldable pub item_name : Bytes → Container → Bytes
item_name id c =
    if has_attribute (codes "name") c
    then attribute_value (codes "name") c
    else if has_attribute (codes "title") c
    then attribute_value (codes "title") c
    else id

-- Sticker(prefix), at the id that was drawn
unfoldable pub prefixed_id : Bytes → Bytes → Bytes
prefixed_id prefix drawn = prefix ++ drawn

module _ ⦃B : Boost⦄ ⦃K : Kyoto⦄ where
  -- Sticker(db, prefix): draws ids until one with the prefix has no index record; `none` where the
  -- draws end before
  unfoldable pub new_sticker : Bytes → List Bytes → K.Db → Option (Ident × List Bytes)
  unfolding generate_id prefixed_id
  new_sticker prefix draws d = generate_id sticker (map (prefixed_id prefix) draws) d

-- An object of a standard type is clean where its id is not empty and holds no separator: this is all
-- that the theorems on keys ask of it.
pub standard-IsClean :
    (i : Ident)
    → contains i.type standard_data_model ≡ true
    → is_empty i.id ≡ false
    → all_plain i.id ≡ true
    → IsClean i
unfolding contains standard_data_model is_clean starts_with_letter all_plain is_separator
standard-IsClean i t e p = ground (
  arith,
  list_eqb_iff category i.type,
  list_eqb_iff sticker i.type,
  list_eqb_iff picture i.type,
  list_eqb_iff item i.type,
  list_eqb_iff gtin i.type,
  list_eqb_iff isbn i.type,
  list_eqb_iff owner i.type,
)
