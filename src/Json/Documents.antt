-- ===== src/Json/Documents.antt =====
-- A concrete library of documents, on which the laws of `Json` hold: for the tests.
use iv_cloud_gateway.Base.{
  ℕ, ℤ, String, ◌≡◌, refl, Bool, true, false, List, [], ◌∷◌, Option, none, some, str_eq,
  if◌then◌else◌, arith,
}
use iv_cloud_gateway.Json.Defs.{Json, JsonLaws, find, or_null}

mutual
  pub data Tree : Type 0 where
    null : Tree
    str : String → Tree
    int : ℤ → Tree
    num : ℕ → Tree
    boolean : Bool → Tree
    obj : Fields → Tree

  pub data Fields : Type 0 where
    end : Fields
    field : String → Tree → Fields → Fields

abbrev to_fields : List (String × Tree) → Fields
to_fields [] = end
to_fields ((k, v) ∷ m) = field k v (to_fields m)

abbrev find_field : String → Fields → Option Tree
find_field k end = none
find_field k (field j v m) = if str_eq j k then some v else find_field k m

abbrev tree_at : Tree → String → Option Tree
tree_at (obj m) k = find_field k m
tree_at v k = none

abbrev tree_index : Tree → String → Option Tree
tree_index (obj m) k = some (or_null null (find_field k m))
tree_index v k = none

abbrev tree_string : Tree → Option String
tree_string (str s) = some s
tree_string v = none

abbrev tree_int : Tree → Option ℤ
tree_int (int n) = some n
tree_int v = none

abbrev tree_num : Tree → Option ℕ
tree_num (num n) = some n
tree_num v = none

abbrev bool_or : Bool → Option Tree → Option Bool
bool_or d none = some d
bool_or d (some (boolean b)) = some b
bool_or d (some v) = none

abbrev string_or : String → Option Tree → Option String
string_or d none = some d
string_or d (some v) = tree_string v

abbrev tree_value_bool : Tree → String → Bool → Option Bool
tree_value_bool (obj m) k d = bool_or d (find_field k m)
tree_value_bool v k d = none

abbrev tree_value_string : Tree → String → String → Option String
tree_value_string (obj m) k d = string_or d (find_field k m)
tree_value_string v k d = none

abbrev no_text : Option Tree → Bool
no_text none = true
no_text (some v) = false

-- The text `none` is empty, and is no document.
abbrev pub tree_json : Json
tree_json = record {
  Text = Option Tree;
  Value = Tree;
  Double = ℕ;
  zero = 0;
  empty = none;
  is_empty = no_text;
  parse = λ t. t;
  dump = λ v. some (some v);
  pretty = λ v. some (some v);
  at = tree_at;
  index = tree_index;
  null = null;
  get_string = tree_string;
  get_int64 = tree_int;
  get_double = tree_num;
  value_bool = tree_value_bool;
  value_string = tree_value_string;
  string = str;
  int64 = int;
  double = num;
  object = λ m. obj (to_fields m);
}

find_field-to_fields :
    (k : String) (m : List (String × Tree)) → find_field k (to_fields m) ≡ find k m
find_field-to_fields k [] = refl
find_field-to_fields k ((j, v) ∷ m) = ground (arith, find_field-to_fields k m)

value_of_found :
    (k d s : String) (m : List (String × Tree))
    → find k m ≡ some (str s)
    → tree_value_string (obj (to_fields m)) k d ≡ some s
value_of_found k d s m e = rw (find_field-to_fields k m, e)

pub tree_laws : JsonLaws tree_json
tree_laws = record {
  at-object = λ k m. rw (find_field-to_fields k m);
  index-object = λ k m. rw (find_field-to_fields k m) refl;
  get_string-string = λ s. refl;
  get_int64-int64 = λ n. refl;
  value_string-object = value_of_found;
  get_double-double = λ d. refl;
}
