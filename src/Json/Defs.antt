-- ===== src/Json/Defs.antt =====
-- The operations of nlohmann::json that the program calls, and the laws that proofs rely on.
use iv_cloud_gateway.Base.{
  ℤ, String, ◌≡◌, Bool, List, [], ◌∷◌, Option, none, some, Result, ok, err, json_exception, str_eq,
  if◌then◌else◌,
}

-- `Text` is a std::string that holds a serialised document: the program passes it on, and asks
-- only whether it is empty. `none` is a thrown nlohmann::json::exception. `Double` is what a JSON
-- number and a protobuf double hold, and `zero` such a double when it is not set.
pub record Json : Type 1 where
  pub Text : Type 0
  pub Value : Type 0
  pub Double : Type 0
  pub zero : Double
  pub empty : Text
  pub is_empty : Text → Bool
  -- Throws on a text that is no document.
  pub parse : Text → Option Value
  -- Throws on a string that is not UTF-8.
  pub dump : Value → Option Text
  -- `j.dump(2)`.
  pub pretty : Value → Option Text
  -- `j.at(key)`, which throws on a missing key.
  pub at : Value → String → Option Value
  -- `j[key]` of a value that is not const: a missing key reads as null.
  pub index : Value → String → Option Value
  pub get_string : Value → Option String
  pub get_int64 : Value → Option ℤ
  pub get_double : Value → Option Double
  -- `j.value(key, default)`.
  pub value_bool : Value → String → Bool → Option Bool
  pub value_string : Value → String → String → Option String
  pub null : Value
  pub string : String → Value
  pub int64 : ℤ → Value
  pub double : Double → Value
  pub object : List (String × Value) → Value

abbrev pub find {ℓ} : {V : Type ℓ} → String → List (String × V) → Option V
find k [] = none
find k ((j, v) ∷ m) = if str_eq j k then some v else find k m

abbrev pub or_throw : {V : Type 0} → Option V → Result V
or_throw none = err json_exception
or_throw (some v) = ok v

-- What `j[key]` reads of an object: null where the key is missing.
abbrev pub or_null : {V : Type 0} → V → Option V → V
or_null null none = null
or_null null (some v) = v

pub record JsonLaws (J : Json) : Type 1 where
  pub at-object :
      (k : String) (fields : List (String × J.Value)) → J.at (J.object fields) k ≡ find k fields
  pub index-object :
      (k : String) (fields : List (String × J.Value))
      → J.index (J.object fields) k ≡ some (or_null J.null (find k fields))
  pub get_string-string : (s : String) → J.get_string (J.string s) ≡ some s
  pub get_int64-int64 : (n : ℤ) → J.get_int64 (J.int64 n) ≡ some n
  pub value_string-object :
      (k d s : String) (fields : List (String × J.Value))
      → find k fields ≡ some (J.string s)
      → J.value_string (J.object fields) k d ≡ some s
  pub get_double-double : (d : J.Double) → J.get_double (J.double d) ≡ some d

-- `j.at(key).get<T>()`.
abbrev pub and_get : {A B : Type 0} → Option A → (A → Option B) → Result B
and_get none f = err json_exception
and_get (some a) f = or_throw (f a)

module _ (J : Json) where
  abbrev pub parsed : J.Text → Result J.Value
  parsed t = or_throw (J.parse t)

  abbrev pub at_string : J.Value → String → Result String
  at_string j k = and_get (J.at j k) J.get_string

  abbrev pub at_int64 : J.Value → String → Result ℤ
  at_int64 j k = and_get (J.at j k) J.get_int64

  abbrev pub at_double : J.Value → String → Result J.Double
  at_double j k = and_get (J.at j k) J.get_double
