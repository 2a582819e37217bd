-- ===== src/Json/Laws.antt =====
-- Reading the objects that `json!` builds.
use near_sandbox_rs.Base.{
  ◌≡◌, ◌≢◌, unwrap_or, refl, ap, ◌∙◌, String, Option, none, some, List, [], ◌∷◌, foldl,
  if◌then◌else◌, str_eq,
}
use near_sandbox_rs.Json.{Json, IsLawful, get, obj, insert_field}

-- The value of a name in a list of fields: the last one, or what was there before.
abbrev pub field {ℓ} : {V : Type ℓ} → String → List (String × V) → Option V → Option V
field k [] found = found
field k ((j, v) ∷ rest) found = field k rest (if str_eq j k then some v else found)

module _ ⦃J : Json⦄ (L : IsLawful) where
  map_get-foldl :
      (k : String) (fields : List (String × J.Value)) (m : J.Map)
      → J.map_get (foldl insert_field m fields) k ≡ field k fields (J.map_get m k)
  map_get-foldl k [] m = refl
  map_get-foldl k ((j, v) ∷ rest) m =
      map_get-foldl k rest (J.map_insert m j v) ∙ ap (field k rest) (L.map_get-map_insert m j k v)

  map_get-obj :
      (k : String) (fields : List (String × J.Value))
      → J.map_get (foldl insert_field J.map_new fields) k ≡ field k fields none
  map_get-obj k fields =
      map_get-foldl k fields J.map_new ∙ ap (field k fields) (L.map_get-map_new k)

  -- A field of an object that `json!` built, at a text: this computes for given fields.
  pub get-obj :
      (k : String) (fields : List (String × J.Value)) → get (obj fields) k ≡ field k fields none
  get-obj k fields =
      rw (L.as_object-object, get)
        (map_get-foldl k fields J.map_new ∙ ap (field k fields) (L.map_get-map_new k))

  pub get-insert :
      (m : J.Map) (k j : String) (v : J.Value)
      → get (J.object (J.map_insert m k v)) j ≡ (if str_eq k j then some v else J.map_get m j)
  get-insert m k j v = rw (L.as_object-object, get) (L.map_get-map_insert m k j v)

  pub object-ne_null : (m : J.Map) → J.object m ≢ J.null
  object-ne_null m e = cc (L.as_object-object m, L.as_object-null, ap J.as_object e)

  -- Merging an object that `json!` built, at one of its fields that is no `null`, and at any other.
  pub get-merge_obj :
      (t v : J.Value) (k : String) (fields : List (String × J.Value))
      → field k fields none ≡ some v
      → v ≢ J.null
      → get (J.merge t (obj fields)) k ≡ some (J.merge (unwrap_or (get t k) J.null) v)
  get-merge_obj t v k fields e ne =
      L.get-merge_present t (obj fields) v (foldl insert_field J.map_new fields) k
        (L.as_object-object _) (map_get-obj k fields ∙ e) ne

  pub get-merge_obj_absent :
      (t : J.Value) (k : String) (fields : List (String × J.Value))
      → field k fields none ≡ none
      → get (J.merge t (obj fields)) k ≡ get t k
  get-merge_obj_absent t k fields e =
      L.get-merge_absent t (obj fields) (foldl insert_field J.map_new fields) k
        (L.as_object-object _) (map_get-obj k fields ∙ e)
