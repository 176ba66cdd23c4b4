-- ===== src/Conversation/Formats.antt =====
-- core/conversation/formats.py: the texts and items of context that the application makes.
use zj_cyber_workbench.Prelude.{
  if◌then◌else◌, string_eq, ◌==◌, nat_eq, not, ◌&&◌, ◌||◌, String, Bool, Option, none, some, List,
  [], ◌∷◌,
}
use zj_cyber_workbench.Json.{Json, object, Fields, end, field, get, is_text}
use Prim.Native.String.{◌++◌ as str_append}
use Prim.Native.Char.{Char, code}
use text.Mathlib.Text.{starts_with}

-- What the module takes from Python: `str.strip`, `str.lstrip`, `str.casefold`, `str.splitlines`
-- and whether `unicodedata.category` of a character is Cc, Cf or Cs.
pub record TextLibrary : Type 0 where
  pub strip : String → String
  pub lstrip : String → String
  pub casefold : String → String
  pub splitlines : String → List String
  pub is_control : Char → Bool

abbrev pub context_summary_header : String
context_summary_header = "# Context Summary"

abbrev pub context_summary_item_id : String
context_summary_item_id = "context_summary"

abbrev pub task_resumption_context_item_id : String
task_resumption_context_item_id = "task_resumption_context"

abbrev pub context_summary_intro : String
context_summary_intro = "This is context, not a new user request. Continue from the summary below."

unfoldable pub is_user_item : Json → Bool
is_user_item item = is_text "message" (get item "type") && is_text "user" (get item "role")

unfoldable pub is_context_summary_item : Json → Bool
is_context_summary_item item = is_user_item item && is_text context_summary_item_id (get item "id")

unfoldable pub is_internal_context_item : Json → Bool
is_internal_context_item item =
    is_user_item item
    && (is_text context_summary_item_id (get item "id")
        || is_text task_resumption_context_item_id (get item "id"))

unfoldable pub fields_pop : String → Fields → Fields
fields_pop k end = end
fields_pop k (field j v fs) = let rest = fields_pop k fs in if j == k then rest else field j v rest

abbrev pub without_id : Json → Json
without_id (object fs) = object (fields_pop "id" fs)
without_id item = item

unfoldable pub strip_internal_context_item_id : Json → Json
strip_internal_context_item_id item =
    if is_internal_context_item item then without_id item else item

-- `text.replace("\r\n", "\n").replace("\r", "\n")`: a carriage return becomes a newline, and takes
-- a newline behind it along.
unfoldable pub normalize_newlines : String → String
normalize_newlines String.[] = ""
normalize_newlines (String.◌∷◌ c String.[]) = if code c == 13 then "\n" else String.◌∷◌ c String.[]
normalize_newlines (String.◌∷◌ c (String.◌∷◌ d s)) =
    let rest = normalize_newlines (String.◌∷◌ d s) in
    if code c == 13
    then (if code d == 10 then rest else str_append "\n" rest)
    else String.◌∷◌ c rest

module _ (lib : TextLibrary) where
  unfoldable pub keep_text : String → String
  keep_text String.[] = ""
  keep_text (String.◌∷◌ c s) =
      let rest = keep_text s in
      if (code c == 10 || code c == 9) || not (lib.is_control c) then String.◌∷◌ c rest else rest

  unfoldable pub sanitize_context_text : String → String
  sanitize_context_text t = keep_text (normalize_newlines t)

  unfoldable pub format_context_summary : String → String
  format_context_summary summary = str_append context_summary_header (
      str_append "\n\n" (
        str_append context_summary_intro
          (str_append "\n\n" (lib.strip (sanitize_context_text summary)))))

  unfoldable pub starts_with_header : (t header : String) → Bool
  starts_with_header t header =
      lib.lstrip t == header || starts_with (lib.lstrip t) (str_append header "\n")

  unfoldable pub is_context_summary_text : String → Bool
  is_context_summary_text t = starts_with_header t context_summary_header

  -- The lines behind the first one that reads `target`, if there is one.
  unfoldable pub after_heading : (target : String) → List String → Option (List String)
  after_heading target [] = none
  after_heading target (line ∷ lines) =
      let rest = after_heading target lines in
      if lib.casefold (lib.strip line) == target then some lines else rest

  -- The lines before the next heading of the second level.
  unfoldable pub until_heading : List String → List String
  until_heading [] = []
  until_heading (line ∷ lines) =
      let rest = until_heading lines in
      if starts_with (lib.casefold (lib.strip line)) "## " then [] else line ∷ rest

  unfoldable pub join_lines : List String → String
  join_lines [] = ""
  join_lines (line ∷ []) = line
  join_lines (line ∷ next ∷ lines) = str_append line (str_append "\n" (join_lines (next ∷ lines)))

  abbrev pub section_body : Option (List String) → String
  section_body none = ""
  section_body (some lines) = lib.strip (join_lines (until_heading lines))

  unfoldable pub context_summary_section : (t section : String) → String
  context_summary_section t section =
      if not (is_context_summary_text t)
      then ""
      else section_body (
          after_heading (lib.casefold (str_append "## " section))
            (lib.splitlines (sanitize_context_text t)))
