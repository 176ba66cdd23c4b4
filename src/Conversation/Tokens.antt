-- ===== src/Conversation/Tokens.antt =====
-- core/conversation/compaction.py: what items count in tokens. `count` is the number of tokens of a
-- value that JSON prints, for the tokenizer of the model; these come from outside.
use zj_cyber_workbench.Prelude.{
  if◌then◌else◌, string_eq, ◌==◌, nat_eq, ℕ, zero, suc, ◌+◌, String, Bool, false, Option, none,
  some, List, [], ◌∷◌,
}
use zj_cyber_workbench.Json.{
  Json, null, bool, number, text, array, object, Items, nil, cons, Fields, end, field, fields_get,
  get, is_true, is_text, text_or_empty,
}
use Prim.Native.String.{◌++◌ as str_append}
use Prim.Native.Char.{code}
use package.text.Mathlib.Text.{starts_with}

-- `s.split(c, 1)[0]`
unfoldable pub before_char : ℕ → String → String
before_char c String.[] = ""
before_char c (String.◌∷◌ d s) =
    let rest = before_char c s in if code d == c then "" else String.◌∷◌ d rest

unfoldable pub drop_chars : ℕ → String → String
drop_chars zero s = s
drop_chars (suc n) String.[] = ""
drop_chars (suc n) (String.◌∷◌ d s) = drop_chars n s

abbrev pub text_or : String → String → String
text_or s default = if s == "" then default else s

abbrev pub is_data_url : Option Json → Bool
is_data_url (some (text t)) = starts_with t "data:"
is_data_url _ = false

-- `_image_media_type`: what stands between `data:` and the next semicolon of the header.
unfoldable pub image_media_type : Option Json → String
image_media_type image_url =
    if is_data_url image_url
    then text_or (before_char b';' (drop_chars 5 (before_char b',' (text_or_empty image_url))))
        "image/*"
    else "image/*"

abbrev pub json_or : Option Json → Json → Json
json_or none default = default
json_or (some v) default = if is_true (some v) then v else default

-- An image without its bytes.
unfoldable pub omitted_image : Json → Json
omitted_image value = object (
    field "type" (text "input_image") (
      field "image_url"
        (text (
          str_append "data:"
            (str_append (image_media_type (get value "image_url")) ";base64,[omitted]")))
        (field "detail" (json_or (get value "detail") (text "auto"))
          (field "note" (text "image bytes omitted from context compaction prompt") end))))

unfoldable mutual
  -- `_summary_safe_value`
  pub summary_safe_value : Json → Json
  summary_safe_value (array xs) = array (summary_safe_items xs)
  summary_safe_value (object fs) =
      if is_text "input_image" (fields_get "type" fs)
      then omitted_image (object fs)
      else object (summary_safe_fields fs)
  summary_safe_value null = null
  summary_safe_value (bool b) = bool b
  summary_safe_value (number n) = number n
  summary_safe_value (text t) = text t

  pub summary_safe_items : Items → Items
  summary_safe_items nil = nil
  summary_safe_items (cons x xs) = cons (summary_safe_value x) (summary_safe_items xs)

  pub summary_safe_fields : Fields → Fields
  summary_safe_fields end = end
  summary_safe_fields (field k v fs) = field k (summary_safe_value v) (summary_safe_fields fs)

module _ (count : Json → ℕ) where
  -- `estimate_items_tokens`
  unfoldable pub estimate_items_tokens : List Json → ℕ
  estimate_items_tokens [] = 0
  estimate_items_tokens (item ∷ items) =
      4 + count (summary_safe_value item) + estimate_items_tokens items
