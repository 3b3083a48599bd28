-- ===== src/Dispatcher/Validate.antt =====
-- `validate_patch_return_targets` of src/pyDE1/dispatcher/validate.py. That a value is replaced by the
-- member of the internal type is left out: a member stands for its value.
use Prim.Native.String.{String}
use py_de.Base.{
  Bool, true, false, ◌&&◌, ◌||◌, not, Option, none, some, List, [], ◌∷◌, ◌++◌, Result,
  attribute_error, de1_api_attribute_error, de1_api_type_error, de1_api_value_error, Method, assign,
  raise, finish, ◌>>◌, ◌==◌, if◌then◌else◌,
}
use py_de.Json.{same_text, Json, Fields, null, num, str, array, object, no_fields, field}
use py_de.Dispatcher.Mapping.{
  PyType, int, float, none_type, dict, list, bytes, Content, parsed, raw, IsAt, Mapping, Entries,
  is_at, tree, other, no_entries, entry, Targets, no_targets, mark,
}

-- `isinstance(value, type)`; a `bool` is an `int` too.
abbrev is_instance : Content → PyType → Bool
is_instance (parsed null) none_type = true
is_instance (parsed (Json.bool b)) PyType.bool = true
is_instance (parsed (Json.bool b)) int = true
is_instance (parsed (num v)) int = v.den == 1
is_instance (parsed (num v)) float = not (v.den == 1)
is_instance (parsed (str s)) PyType.str = true
is_instance (parsed (array vs)) list = true
is_instance (parsed (object fs)) dict = true
is_instance (raw bs) bytes = true
is_instance _ _ = false

abbrev is_int : PyType → Bool
is_int int = true
is_int _ = false

abbrev is_float : PyType → Bool
is_float float = true
is_float _ = false

abbrev any {ℓ} : {A : Type ℓ} → (A → Bool) → List A → Bool
any p [] = false
any p (a ∷ l) = p a || any p l

-- An `int` is accepted for a `float`.
unfoldable pub type_tuple : List PyType → List PyType
type_tuple types =
    if any is_float types && not (any is_int types) then types ++ (int ∷ []) else types

unfoldable pub has_type : Content → List PyType → Bool
unfolding type_tuple
has_type v types = any (is_instance v) (type_tuple types)

abbrev pub convert : Option (Content → Bool) → Content → Method Targets
convert none v = assign (λ t. t)
convert (some is_member) v = if is_member v then assign (λ t. t) else raise de1_api_value_error

-- The checks on one value, with the devices that it needs.
unfoldable pub check_is_at : IsAt → Content → Method Targets
unfolding mark has_type
check_is_at a v =
    if a.read_only
    then raise de1_api_attribute_error
    else if has_type v a.v_type
    then assign (mark a) >> convert a.internal_type v
    else raise de1_api_type_error

abbrev pub lookup : String → Entries → Option Mapping
lookup k no_entries = none
lookup k (entry j m es) = let rest = lookup k es in if same_text j k then some m else rest

-- `_validate_patch_inner`
unfoldable mutual
  pub validate_fields : Fields → Entries → Method Targets
  validate_fields no_fields es = assign (λ t. t)
  validate_fields (field k v fs) es = validate_value v (lookup k es) >> validate_fields fs es

  -- `patch[key].items()` of what is no dict raises.
  pub validate_value : Json → Option Mapping → Method Targets
  validate_value v none = raise de1_api_attribute_error
  validate_value v (some (is_at a)) = check_is_at a (parsed v)
  validate_value (object fs) (some (tree es)) = validate_fields fs es
  validate_value v (some (tree es)) = raise attribute_error
  validate_value v (some other) = raise de1_api_type_error

-- A text or bytes for an `IsAt`, and a dict for a dict.
unfoldable pub validate_content : Mapping → Content → Method Targets
unfolding validate_fields check_is_at
validate_content (tree es) (parsed (object fs)) = validate_fields fs es
validate_content (is_at a) (parsed (str s)) = check_is_at a (parsed (str s))
validate_content (is_at a) (raw bs) = check_is_at a (raw bs)
validate_content _ _ = raise de1_api_type_error

unfoldable pub validate_patch_return_targets : Mapping → Content → Result Targets
unfolding validate_content
validate_patch_return_targets m c = finish (validate_content m c no_targets)
