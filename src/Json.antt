-- ===== src/Json.antt =====
-- The crates that the program calls to handle JSON and tokens, as an interface: `serde_json`
-- (`Value`, `Map`, reading, writing), `json_patch::merge` and `near_token::NearToken`, which is
-- the number of its yoctoNEAR. `IsLawful` states what the code relies on of their documentation.
pub mod Laws
pub mod Tree
use near_sandbox_rs.Base.{
  ℕ, ◌<◌, ◌^◌, ◌≡◌, ◌≢◌, String, Bool, Option, none, some, List, [], ◌∷◌, foldl, if◌then◌else◌,
  str_eq, unwrap_or,
}

pub record Json : Type 1 where
  pub Value : Type 0
  -- `serde_json::Map<String, Value>`
  pub Map : Type 0
  pub null : Value
  pub boolean : Bool → Value
  pub number : ℕ → Value
  pub string : String → Value
  pub array : List Value → Value
  pub object : Map → Value
  pub as_u64 : Value → Option ℕ
  pub as_str : Value → Option String
  pub as_array : Value → Option (List Value)
  pub as_object : Value → Option Map
  pub map_new : Map
  pub map_get : Map → String → Option Value
  pub map_insert : Map → String → Value → Map
  -- `Display` for `Value`
  pub to_string : Value → String
  -- the contents of a file, `serde_json::from_reader` and `to_writer`
  pub Bytes : Type 0
  pub empty : Bytes
  pub parse : Bytes → Option Value
  pub write : Value → Bytes
  -- `json_patch::merge(&mut target, &patch)`
  pub merge : Value → Value → Value
  -- `Serialize` and `Display` for `NearToken`
  pub token_to_value : ℕ → Value
  pub token_to_string : ℕ → String
  -- whether arithmetic overflow panics (a debug build) or wraps (a release build)
  pub overflow_checks : Bool

module _ ⦃J : Json⦄ where
  -- `Value::get` and `get_mut` with a text: the field of an object, `None` for anything else
  abbrev pub get : J.Value → String → Option J.Value
  get v k = elim (J.as_object v) [ none ↦ none | some m ↦ J.map_get m k ]

  -- A field of an object, overwritten through the reference that `get_mut` gave.
  abbrev pub put : J.Value → String → J.Value → J.Value
  put v k x = elim (J.as_object v) [ none ↦ v | some m ↦ J.object (J.map_insert m k x) ]

  abbrev pub insert_field : J.Map → String × J.Value → J.Map
  insert_field m (k, v) = J.map_insert m k v

  -- `json!({ … })`: a new map, and an insertion for each field
  abbrev pub obj : List (String × J.Value) → J.Value
  obj fields = J.object (foldl insert_field J.map_new fields)

pub record IsLawful ⦃J : Json⦄ : Type 0 where
  pub as_u64-number : (n : ℕ) → n < 2 ^ 64 → J.as_u64 (J.number n) ≡ some n
  pub as_str-string : (s : String) → J.as_str (J.string s) ≡ some s
  pub as_array-array : (vs : List J.Value) → J.as_array (J.array vs) ≡ some vs
  pub as_object-object : (m : J.Map) → J.as_object (J.object m) ≡ some m
  pub as_object-string : (s : String) → J.as_object (J.string s) ≡ none
  pub as_object-number : (n : ℕ) → J.as_object (J.number n) ≡ none
  pub as_object-null : J.as_object J.null ≡ none
  pub number-ne_null : (n : ℕ) → J.number n ≢ J.null
  pub map_get-map_new : (k : String) → J.map_get J.map_new k ≡ none
  pub map_get-map_insert :
      (m : J.Map) (k j : String) (v : J.Value)
      → J.map_get (J.map_insert m k v) j ≡ (if str_eq k j then some v else J.map_get m j)
  -- What is written parses back.
  pub parse-write : (v : J.Value) → J.parse (J.write v) ≡ some v
  -- RFC 7396: a patch that is an object goes into each field, and `null` there deletes.
  pub get-merge_absent :
      (t p : J.Value) (n : J.Map) (k : String)
      → J.as_object p ≡ some n
      → J.map_get n k ≡ none
      → get (J.merge t p) k ≡ get t k
  pub get-merge_present :
      (t p v : J.Value) (n : J.Map) (k : String)
      → J.as_object p ≡ some n
      → J.map_get n k ≡ some v
      → v ≢ J.null
      → get (J.merge t p) k ≡ some (J.merge (unwrap_or (get t k) J.null) v)
  -- A patch that is no object replaces the target.
  pub merge_replaces : (t p : J.Value) → J.as_object p ≡ none → J.merge t p ≡ p
