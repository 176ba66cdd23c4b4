-- ===== src/Conversation.antt =====
-- core/__init__.py and core/conversation: the items of a conversation, as the agents SDK stores
-- them. An item is a JSON value; what is no dict has none of the fields that are read.
pub mod Formats
pub mod Projection
pub mod Tokens
pub mod Budget
pub mod Compaction
pub mod Tests
use zj_cyber_workbench.Prelude.{if◌then◌else◌, string_eq, ◌||◌, String, Bool, Option, some}
use zj_cyber_workbench.Json.{
  Json, text, array, Items, nil, cons, get, is_text, text_or_empty, or_else,
}
use Prim.Native.String.{◌++◌ as str_append}

-- `tool_call_id`
unfoldable pub tool_call_id : Json → String
tool_call_id item = text_or_empty (or_else (get item "call_id") (get item "id"))

unfoldable pub is_text_type : Option Json → Bool
is_text_type value =
    is_text "input_text" value || is_text "output_text" value || is_text "text" value

-- The text of one part of a content list.
unfoldable pub part_text : Json → String
part_text piece = if is_text_type (get piece "type") then text_or_empty (get piece "text") else ""

unfoldable pub parts_text : Items → String
parts_text nil = ""
parts_text (cons piece pieces) = str_append (part_text piece) (parts_text pieces)

-- `extract_message_text`, of a field that may be missing.
unfoldable pub extract_message_text : Option Json → String
extract_message_text (some (text t)) = t
extract_message_text (some (array pieces)) = parts_text pieces
extract_message_text _ = ""

unfoldable pub is_call : Json → Bool
is_call item = is_text "function_call" (get item "type")

unfoldable pub is_output : Json → Bool
is_output item = is_text "function_call_output" (get item "type")
