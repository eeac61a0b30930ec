-- ===== src/Extern/Json.antt =====
-- rapidjson::Value and Document, as the program uses them: values are built, tested for their
-- kind, read, searched for members, printed and parsed.
use libinv.Prelude.{
  ◌≡◌, Bool, true, false, List, Option, Bytes, ℤ, lookup, contains, nat_ord, list_ord, [], ◌∷◌,
  some,
}

pub record Json : Type 1 where
  pub Value : Type 0
  pub null : Value
  pub text : Bytes → Value
  pub int : ℤ → Value
  pub array : List Value → Value
  pub object : List (Bytes × Value) → Value
  -- IsNull, IsString, IsInt, IsArray, IsObject
  pub is_null : Value → Bool
  pub is_text : Value → Bool
  pub is_int : Value → Bool
  pub is_array : Value → Bool
  pub is_object : Value → Bool
  -- GetString, GetInt, Begin() to End(), MemberBegin() to MemberEnd()
  pub get_text : Value → Bytes
  pub get_int : Value → ℤ
  pub elements : Value → List Value
  pub members : Value → List (Bytes × Value)
  -- FindMember; the first member of the name
  pub find_member : Value → Bytes → Option Value
  -- The text of a PrettyWriter, and Parse with its error as `none`
  pub print : Value → Bytes
  pub parse : Bytes → Option Value
  pub is_null-null : is_null null ≡ true
  pub is_null-object : (ms : List (Bytes × Value)) → is_null (object ms) ≡ false
  pub is_null-array : (vs : List Value) → is_null (array vs) ≡ false
  pub is_null-text : (s : Bytes) → is_null (text s) ≡ false
  pub is_text-text : (s : Bytes) → is_text (text s) ≡ true
  pub is_int-int : (n : ℤ) → is_int (int n) ≡ true
  pub is_array-array : (vs : List Value) → is_array (array vs) ≡ true
  pub is_array-object : (ms : List (Bytes × Value)) → is_array (object ms) ≡ false
  pub is_object-object : (ms : List (Bytes × Value)) → is_object (object ms) ≡ true
  pub is_object-null : is_object null ≡ false
  pub is_object-array : (vs : List Value) → is_object (array vs) ≡ false
  pub one_kind : (v : Value) → is_object v ≡ true → is_array v ≡ false
  pub get_text-text : (s : Bytes) → get_text (text s) ≡ s
  pub get_int-int : (n : ℤ) → get_int (int n) ≡ n
  pub elements-array : (vs : List Value) → elements (array vs) ≡ vs
  pub members-object : (ms : List (Bytes × Value)) → members (object ms) ≡ ms
  pub find_member-object :
      (ms : List (Bytes × Value)) (k : Bytes) → find_member (object ms) k ≡ lookup k ms

-- The value of an array of texts.
abbrev pub texts : ⦃J : Json⦄ → List Bytes → List J.Value
texts ⦃J⦄ [] = []
texts ⦃J⦄ (t ∷ ts) = J.text t ∷ texts ts

-- No text of the list holds a NUL, where c_str() would end.
abbrev pub Unended : List Bytes → Type 0
Unended [] = Unit
Unended (t ∷ ts) = (contains 0 t ≡ false) × Unended ts

-- The writer's text of an array of texts is parsed to the same array.
pub record IsPrinted (J : Json) : Type 0 where
  pub parse-print :
      (ts : List Bytes)
      → Unended ts
      → J.parse (J.print (J.array (texts ⦃J = J⦄ ts))) ≡ some (J.array (texts ⦃J = J⦄ ts))
