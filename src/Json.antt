-- ===== src/Json.antt =====
-- The values that `json.loads` gives, and what Python's operators make of them.
use Prim.Native.String.{String}
use text.Mathlib.Text.{◌==◌}
use py_de.Base.{
  Bool, true, false, Option, none, some, List, [], ◌∷◌, Result, ok, err, key_error, type_error,
  and_then, if◌then◌else◌,
}
use py_de.PyNum.{Num, int}

-- `Items` and `Fields` are the list inside an array and the pairs inside an object.
mutual
  pub data Json : Type 0 where
    null : Json
    bool : Bool → Json
    num : Num → Json
    str : String → Json
    array : Items → Json
    object : Fields → Json

  pub data Items : Type 0 where
    no_items : Items
    item : Json → Items → Items

  pub data Fields : Type 0 where
    no_fields : Fields
    field : String → Json → Fields → Fields

-- `s == t` on texts
abbrev pub same_text : String → String → Bool
same_text s t = s == t

abbrev pub lookup : String → Fields → Option Json
lookup k no_fields = none
lookup k (field j v fs) = let rest = lookup k fs in if j == k then some v else rest

abbrev or_key_error : Option Json → Result Json
or_key_error none = err key_error
or_key_error (some v) = ok v

-- `v[k]`, with a key that is a text
unfoldable pub get : Json → String → Result Json
get (object fs) k = or_key_error (lookup k fs)
get _ k = err type_error

abbrev is_some : Option Json → Bool
is_some none = false
is_some (some v) = true

-- `k in v`, of an object
unfoldable pub contains : Json → String → Bool
contains (object fs) k = is_some (lookup k fs)
contains _ k = false

-- `v == k`, with a text
unfoldable pub is_text : Json → String → Bool
is_text (str s) k = s == k
is_text _ k = false

abbrev pub of_items : Items → List Json
of_items no_items = []
of_items (item v vs) = v ∷ of_items vs

abbrev of_keys : Fields → List Json
of_keys no_fields = []
of_keys (field k v fs) = str k ∷ of_keys fs

abbrev of_characters : String → List Json
of_characters String.[] = []
of_characters (String.◌∷◌ c s) = str (String.◌∷◌ c String.[]) ∷ of_characters s

-- `for x in v`
unfoldable pub iterate : Json → Result (List Json)
iterate (array vs) = ok (of_items vs)
iterate (object fs) = ok (of_keys fs)
iterate (str s) = ok (of_characters s)
iterate _ = err type_error

-- What Python's `float` and `str` make of a text and of a value.
pub record Conversions : Type 0 where
  pub parse : String → Result Num
  pub render : Json → String

-- `float(v)`
unfoldable pub float : Conversions → Json → Result Num
float c null = err type_error
float c (bool b) = ok (int (if b then 1 else 0))
float c (num v) = ok v
float c (str s) = c.parse s
float c _ = err type_error

-- `float(v[k])`
abbrev pub float_of : Conversions → Json → String → Result Num
float_of c v k = and_then (get v k) (float c)
