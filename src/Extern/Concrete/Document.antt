-- ===== src/Extern/Concrete/Document.antt =====
-- JSON values as trees. The text of a value and its parser stand for null and for arrays of texts,
-- each ended by a NUL: the program prints no other value into the database.
use libinv.Prelude.{
  ◌≡◌, refl, ap, Bool, true, false, List, [], ◌∷◌, Option, none, some, Bytes, codes, ℤ, pos, lookup,
  list_eqb, if◌then◌else◌, nat_ord, list_ord, contains, append_nil, append_one, ◌++◌, ◌==◌, ◌∙◌,
  arith,
}
use libinv.Extern.Json.{Json, IsPrinted, Unended, texts}

mutual
  pub data Value : Type 0 where
    null : Value
    text : Bytes → Value
    int : ℤ → Value
    array : Values → Value
    object : Members → Value

  pub data Values : Type 0 where
    no_values : Values
    value : Value → Values → Values

  pub data Members : Type 0 where
    no_members : Members
    member : Bytes → Value → Members → Members

pub values : List Value → Values
values [] = no_values
values (v ∷ vs) = value v (values vs)

pub value_list : Values → List Value
value_list no_values = []
value_list (value v vs) = v ∷ value_list vs

pub value_list-values : (vs : List Value) → value_list (values vs) ≡ vs
unfolding value_list values
value_list-values [] = refl
value_list-values (v ∷ vs) = rw (value_list-values vs)

pub named : List (Bytes × Value) → Members
named [] = no_members
named ((k, v) ∷ ms) = member k v (named ms)

pub member_list : Members → List (Bytes × Value)
member_list no_members = []
member_list (member k v ms) = (k, v) ∷ member_list ms

pub member_list-named : (ms : List (Bytes × Value)) → member_list (named ms) ≡ ms
unfolding member_list named
member_list-named [] = refl
member_list-named ((k, v) ∷ ms) = rw (member_list-named ms)

pub is_null : Value → Bool
is_null null = true
is_null _ = false

pub is_text : Value → Bool
is_text (text s) = true
is_text _ = false

pub is_int : Value → Bool
is_int (int n) = true
is_int _ = false

pub is_array : Value → Bool
is_array (array vs) = true
is_array _ = false

pub is_object : Value → Bool
is_object (object ms) = true
is_object _ = false

pub get_text : Value → Bytes
get_text (text s) = s
get_text _ = []

pub get_int : Value → ℤ
get_int (int n) = n
get_int _ = pos 0

pub elements : Value → List Value
elements (array vs) = value_list vs
elements _ = []

pub members : Value → List (Bytes × Value)
members (object ms) = member_list ms
members _ = []

pub ended : Values → Bytes
unfolding get_text
ended no_values = []
ended (value v vs) = get_text v ++ 0 ∷ ended vs

pub print : Value → Bytes
unfolding ended
print (array vs) = b'[' ∷ ended vs
print _ = codes "null"

-- The texts that a NUL ends, the first of which began with `started`.
pub split : Bytes → Bytes → Values
split [] started = no_values
split (x ∷ s) started =
    let ends = split s [] in
    let goes_on = split s (started ++ x ∷ []) in
    if x == 0 then value (text started) ends else goes_on

pub parse_array : Bytes → Option Value
unfolding split
parse_array [] = none
parse_array (x ∷ s) = if x == b'[' then some (array (split s [])) else none

pub parse : Bytes → Option Value
unfolding parse_array
parse s = if list_eqb s (codes "null") then some null else parse_array s

pub one_kind : (v : Value) → is_object v ≡ true → is_array v ≡ false
unfolding is_array is_object
one_kind null h = refl
one_kind (text s) h = refl
one_kind (int n) h = refl
one_kind (array vs) h = cc
one_kind (object ms) h = refl

instance unfoldable pub document : Json
unfolding values value_list named member_list is_null is_text is_int is_array is_object get_text
    get_int elements members print parse
document = record {
  Value = Value;
  null = null;
  text = text;
  int = int;
  array = λ vs. array (values vs);
  object = λ ms. object (named ms);
  is_null = is_null;
  is_text = is_text;
  is_int = is_int;
  is_array = is_array;
  is_object = is_object;
  get_text = get_text;
  get_int = get_int;
  elements = elements;
  members = members;
  find_member = λ v k. lookup k (members v);
  print = print;
  parse = parse;
  is_null-null = refl;
  is_null-object = λ ms. refl;
  is_null-array = λ vs. refl;
  is_null-text = λ s. refl;
  is_text-text = λ s. refl;
  is_int-int = λ n. refl;
  is_array-array = λ vs. refl;
  is_array-object = λ ms. refl;
  is_object-object = λ ms. refl;
  is_object-null = refl;
  is_object-array = λ vs. refl;
  one_kind = one_kind;
  get_text-text = λ s. refl;
  get_int-int = λ n. refl;
  elements-array = λ vs. value_list-values vs;
  members-object = λ ms. member_list-named ms;
  find_member-object = λ ms k. ap (lookup k) (member_list-named ms);
}

split-ended :
    (t s started : Bytes)
    → contains 0 t ≡ false
    → split (t ++ 0 ∷ s) started ≡ value (text (started ++ t)) (split s [])
unfolding split contains
split-ended [] s started h = rw (append_nil started)
split-ended (x ∷ t) s started h =
    ground (arith, split-ended t s (started ++ x ∷ []), append_one started x t)

split-texts :
    (ts : List Bytes)
    → Unended ts
    → unfold document in (split (ended (values (texts ts))) [] ≡ values (texts ts))
unfolding ended values get_text document split
split-texts [] h = refl
split-texts (t ∷ ts) h =
    split-ended t (ended (values (texts ts))) [] h.0 ∙ ap (value (text t)) (split-texts ts h.1)

pub document-IsPrinted : IsPrinted document
unfolding document parse print parse_array list_eqb
document-IsPrinted = record { parse-print = λ ts h. ap (λ vs. some (array vs)) (split-texts ts h) }
