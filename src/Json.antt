-- ===== src/Json.antt =====
-- Values of `json`, and the dict reads that the modelled code makes (`item.get(key)`, truth
-- tests). A number is kept as the text that JSON prints, since no modelled code computes with it.
use Prim.Native.Char.{code}
use zj_cyber_workbench.Prelude.{
  if◌then◌else◌, string_eq, nat_eq, ◌==◌, not, ◌&&◌, ◌||◌, String, Bool, true, false, Option, none,
  some,
}

mutual
  pub data Json : Type 0 where
    null : Json
    bool : Bool → Json
    number : String → Json
    text : String → Json
    array : Items → Json
    object : Fields → Json

  pub data Items : Type 0 where
    nil : Items
    cons : Json → Items → Items

  pub data Fields : Type 0 where
    end : Fields
    field : String → Json → Fields → Fields

abbrev pub fields_get : String → Fields → Option Json
fields_get k end = none
fields_get k (field j v fs) = if j == k then some v else fields_get k fs

-- `value[key] = v`
unfoldable pub fields_set : String → Json → Fields → Fields
fields_set k v end = field k v end
fields_set k v (field j w fs) =
    let rest = fields_set k v fs in if j == k then field j v fs else field j w rest

-- `value.get(key)`, where `value` is a dict; anything else has no keys.
unfoldable pub get : Json → String → Option Json
get (object fs) k = fields_get k fs
get _ k = none

unfoldable pub is_dict : Json → Bool
is_dict (object fs) = true
is_dict _ = false

-- A number whose digits before an exponent are zeros, as JSON prints it.
unfoldable pub is_zero_number : String → Bool
is_zero_number String.[] = true
is_zero_number (String.◌∷◌ c s) =
    let rest = is_zero_number s in
    code c == b'e'
    || code c == b'E'
    || ((code c == b'0' || code c == b'.' || code c == b'-') && rest)

-- Truth of `value.get(key)`: a missing key is `None`.
unfoldable pub is_true : Option Json → Bool
is_true none = false
is_true (some null) = false
is_true (some (bool b)) = b
is_true (some (number s)) = not (is_zero_number s)
is_true (some (text s)) = not (s == "")
is_true (some (array nil)) = false
is_true (some (object end)) = false
is_true (some v) = true

-- `value.get(key) == "literal"`
unfoldable pub is_text : String → Option Json → Bool
is_text s (some (text t)) = t == s
is_text s _ = false

-- `value if isinstance(value, str) else ""`
unfoldable pub text_or_empty : Option Json → String
text_or_empty (some (text t)) = t
text_or_empty _ = ""

-- `a or b` on two values that may be missing.
unfoldable pub or_else : Option Json → Option Json → Option Json
or_else a b = if is_true a then a else b
