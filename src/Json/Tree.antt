-- ===== src/Json/Tree.antt =====
-- A value of the interface, over plain trees: it meets the laws, and the tests run on it.
use near_sandbox_rs.Base.{
  ℕ, ◌≡◌, ◌≢◌, refl, String, Bool, Option, none, some, List, [], ◌∷◌, if◌then◌else◌, str_eq, eq_iff,
  arith, ap, ◌∙◌, unwrap_or,
}
use near_sandbox_rs.Json.{Json, IsLawful, get}

mutual
  pub data Tree : Type 0 where
    null : Tree
    boolean : Bool → Tree
    number : ℕ → Tree
    string : String → Tree
    array : Items → Tree
    object : Fields → Tree

  pub data Items : Type 0 where
    nil : Items
    cons : Tree → Items → Items

  pub data Fields : Type 0 where
    end : Fields
    field : String → Tree → Fields → Fields

abbrev pub to_items : List Tree → Items
to_items [] = nil
to_items (t ∷ ts) = cons t (to_items ts)

abbrev pub of_items : Items → List Tree
of_items nil = []
of_items (cons t ts) = t ∷ of_items ts

abbrev pub find : Fields → String → Option Tree
find end k = none
find (field j t rest) k = if str_eq j k then some t else find rest k

abbrev pub insert : Fields → String → Tree → Fields
insert end k t = field k t end
insert (field j u rest) k t = if str_eq j k then field k t rest else field j u (insert rest k t)

abbrev pub delete : Fields → String → Fields
delete end k = end
delete (field j u rest) k = let more = delete rest k in if str_eq j k then more else field j u more

abbrev pub as_str : Tree → Option String
as_str (string s) = some s
as_str _ = none

abbrev pub as_u64 : Tree → Option ℕ
as_u64 (number n) = some n
as_u64 _ = none

abbrev pub as_array : Tree → Option (List Tree)
as_array (array ts) = some (of_items ts)
as_array _ = none

abbrev pub as_object : Tree → Option Fields
as_object (object m) = some m
as_object _ = none

abbrev pub fields_of : Tree → Fields
fields_of (object m) = m
fields_of _ = end

abbrev pub set_field : Fields → String → Tree → Tree → Fields
set_field m k null merged = delete m k
set_field m k _ merged = insert m k merged

unfoldable mutual
  pub merge : Tree → Tree → Tree
  merge t (object p) = object (merge_fields (fields_of t) p)
  merge t null = null
  merge t (boolean b) = boolean b
  merge t (number n) = number n
  merge t (string s) = string s
  merge t (array ts) = array ts

  pub merge_fields : Fields → Fields → Fields
  merge_fields m end = m
  merge_fields m (field k v rest) =
      set_field (merge_fields m rest) k v (merge (unwrap_or (find m k) null) v)

abbrev pub show : Tree → String
show (string s) = s
show _ = "?"

instance abbrev pub tree_json : Json
tree_json = record {
  Value = Tree;
  Map = Fields;
  null = null;
  boolean = boolean;
  number = number;
  string = string;
  array = λ ts. array (to_items ts);
  object = object;
  as_u64 = as_u64;
  as_str = as_str;
  as_array = as_array;
  as_object = as_object;
  map_new = end;
  map_get = find;
  map_insert = insert;
  to_string = show;
  Bytes = Tree;
  empty = null;
  parse = λ t. some t;
  write = λ t. t;
  merge = merge;
  token_to_value = λ n. number n;
  token_to_string = λ n. "some NEAR";
  overflow_checks = Bool.true;
}

of_items-to_items : (ts : List Tree) → of_items (to_items ts) ≡ ts
of_items-to_items [] = refl
of_items-to_items (t ∷ ts) = rw (of_items-to_items ts)

find-insert :
    (m : Fields) (k j : String) (t : Tree)
    → find (insert m k t) j ≡ (if str_eq k j then some t else find m j)
find-insert end k j t = refl
find-insert (field i u m) k j t =
    ground (arith, eq_iff k j, eq_iff i k, eq_iff i j, find-insert m k j t)

find-delete :
    (m : Fields) (k j : String) → find (delete m k) j ≡ (if str_eq k j then none else find m j)
find-delete end k j = ground arith
find-delete (field i u m) k j =
    ground (arith, eq_iff k j, eq_iff i k, eq_iff i j, find-delete m k j)

abbrev set_value : Tree → Tree → Option Tree
set_value null merged = none
set_value _ merged = some merged

find-set_field :
    (m : Fields) (k j : String) (v u : Tree)
    → find (set_field m k v u) j ≡ (if str_eq k j then set_value v u else find m j)
find-set_field m k j null u = find-delete m k j
find-set_field m k j _ u = find-insert m k j u

set_value-ne_null : (v u : Tree) → v ≢ null → set_value v u ≡ some u
set_value-ne_null null u h = absurd (h refl)
set_value-ne_null _ u h = refl

find-merge_fields_absent :
    (m n : Fields) (k : String) → find n k ≡ none → find (merge_fields m n) k ≡ find m k
unfolding merge
find-merge_fields_absent m end k h = refl
find-merge_fields_absent m (field j v n) k h =
    rw find-set_field (ground (arith, find-merge_fields_absent m n k))

find-merge_fields_present :
    (m n : Fields) (k : String) (v : Tree)
    → find n k ≡ some v
    → v ≢ null
    → find (merge_fields m n) k ≡ some (merge (unwrap_or (find m k) null) v)
unfolding merge
find-merge_fields_present m end k v h ne = cc
find-merge_fields_present m (field j w n) k v h ne = rw find-set_field (
    ground (
      arith,
      eq_iff j k,
      find-merge_fields_present m n k v,
      set_value-ne_null v (merge (unwrap_or (find m k) null) v),
    ))

find-fields_of : (t : Tree) (k : String) → find (fields_of t) k ≡ get t k
find-fields_of (object m) k = refl
find-fields_of _ k = refl

get-merge_absent :
    (t p : Tree) (n : Fields) (k : String)
    → as_object p ≡ some n
    → find n k ≡ none
    → get (merge t p) k ≡ get t k
unfolding merge
get-merge_absent t (object b) n k f h =
    find-merge_fields_absent (fields_of t) b k (cc) ∙ find-fields_of t k
get-merge_absent t _ n k f h = cc

get-merge_present :
    (t p v : Tree) (n : Fields) (k : String)
    → as_object p ≡ some n
    → find n k ≡ some v
    → v ≢ null
    → get (merge t p) k ≡ some (merge (unwrap_or (get t k) null) v)
unfolding merge
get-merge_present t (object b) v n k f h ne =
    let q = find-merge_fields_present (fields_of t) b k v (cc) ne in
    q ∙ ap (λ x. some (merge (unwrap_or x null) v)) (find-fields_of t k)
get-merge_present t _ v n k f h ne = cc

merge_replaces : (t p : Tree) → as_object p ≡ none → merge t p ≡ p
unfolding merge
merge_replaces t (object p) h = cc
merge_replaces t null h = refl
merge_replaces t _ h = refl

pub tree_json-IsLawful : IsLawful
unfolding merge
tree_json-IsLawful = record {
  as_u64-number = λ n h. refl;
  as_str-string = λ s. refl;
  as_array-array = λ vs. ap some (of_items-to_items vs);
  as_object-object = λ m. refl;
  as_object-string = λ s. refl;
  as_object-number = λ n. refl;
  as_object-null = refl;
  number-ne_null = λ n h. cc;
  map_get-map_new = λ k. refl;
  map_get-map_insert = find-insert;
  parse-write = λ v. refl;
  get-merge_absent = get-merge_absent;
  get-merge_present = get-merge_present;
  merge_replaces = merge_replaces;
}
