-- ===== src/Notifications/Obligations.antt =====
-- Obligations: the scope that travels in their payloads, and their resolution.
use zj_cyber_workbench.Prelude.{
  string_eq, nat_eq, update_first, ℕ, String, ◌≡◌, refl, ap, Bool, true, Option, none, some, List,
  [], ◌∷◌, arith,
}
use zj_cyber_workbench.Json.{
  Json, text, array, object, Fields, end, field, fields_get, fields_set, is_true,
}
use zj_cyber_workbench.Notifications.{
  NotificationKind, RuntimeScope, AgentNotification, runtime_scope_key, items_of, strings_of,
  coerce_string_tuple, has_scope, scope_object, or_empty, payload_with_runtime_scope,
  object_or_empty, runtime_scope_payload, str_or_empty, snapshot_from_notification,
}
use zj_cyber_workbench.Notifications.Inbox.{
  Table, NewNotification, new_row, add_obligation_in_session, is_obligation, replace_payload,
  resolve_row, resolve_obligation_in_session,
}

fields_get-fields_set :
    (k : String) (v : Json) (fs : Fields) → fields_get k (fields_set k v fs) ≡ some v
unfolding fields_set
fields_get-fields_set k v end = ground (arith, string_eq.same_iff k k)
fields_get-fields_set k v (field j w fs) = ground (arith, fields_get-fields_set k v fs)

strings_of-items_of : (xs : List String) → strings_of (items_of xs) ≡ xs
unfolding strings_of items_of
strings_of-items_of [] = refl
strings_of-items_of (x ∷ xs) = ap (λ ys. x ∷ ys) (strings_of-items_of xs)

str_or_empty-text :
    (str : Json → String)
    → ((t : String) → str (text t) ≡ t)
    → (t : String) → str_or_empty str (some (text t)) ≡ t
unfolding is_true
str_or_empty-text str h t = ground (arith, h t, string_eq.same_iff t "")

runtime_scope_payload-set :
    (o payload : Fields)
    → runtime_scope_payload (fields_set runtime_scope_key (object o) payload) ≡ o
unfolding runtime_scope_payload
runtime_scope_payload-set o payload =
    ap object_or_empty (fields_get-fields_set runtime_scope_key (object o) payload)

abbrev scope_fields : RuntimeScope → Fields
scope_fields s = field "allowed_targets" (array (items_of s.allowed_targets)) (
    field "allowed_action_types" (array (items_of s.allowed_action_types))
      (field "scope_id" (text s.scope_id) end))

payload_with_runtime_scope-fields :
    (payload : Option Fields) (s : RuntimeScope)
    → has_scope s ≡ true
    → runtime_scope_payload (payload_with_runtime_scope payload s) ≡ scope_fields s
unfolding payload_with_runtime_scope scope_object
payload_with_runtime_scope-fields payload s h =
    ground (arith, h, runtime_scope_payload-set (scope_fields s) (or_empty payload))

replace_payload-fields :
    (payload : Option Fields) (current : Fields) (s : RuntimeScope)
    → runtime_scope_payload current ≡ scope_fields s
    → runtime_scope_payload (replace_payload payload current) ≡ scope_fields s
unfolding replace_payload
replace_payload-fields none current s h = h
replace_payload-fields (some payload) current s h =
    rw h (runtime_scope_payload-set (scope_fields s) payload)

-- What a snapshot reads from the fields of a scope.
abbrev read_scope : (Json → String) → Fields → RuntimeScope
read_scope str runtime_scope = record {
  allowed_targets = coerce_string_tuple (fields_get "allowed_targets" runtime_scope);
  allowed_action_types = coerce_string_tuple (fields_get "allowed_action_types" runtime_scope);
  scope_id = str_or_empty str (fields_get "scope_id" runtime_scope);
}

read_scope-fields :
    (str : Json → String)
    → ((t : String) → str (text t) ≡ t)
    → (s : RuntimeScope) → read_scope str (scope_fields s) ≡ s
unfolding coerce_string_tuple
read_scope-fields str law s = ground (
  arith,
  strings_of-items_of s.allowed_targets,
  strings_of-items_of s.allowed_action_types,
  str_or_empty-text str law s.scope_id,
)

-- The scope of an agent's work survives the whole way of an obligation: whatever payloads it is
-- registered and resolved with, the snapshot gives back the scope that it was registered with, if
-- this restricts anything. Python's `str` gives back a string.
pub scope-resolve :
    (str : Json → String)
    → ((t : String) → str (text t) ≡ t)
    → (kind : NotificationKind) (n : NewNotification) (first then : Option Fields)
      (s : RuntimeScope) (ready : Bool) (error : String) (now later : ℕ) (table : Table)
    → has_scope s ≡ true
    → (snapshot_from_notification str (
        resolve_row ready then error later
          (add_obligation_in_session kind n first s now table).0)).scope
      ≡ s
unfolding snapshot_from_notification resolve_row add_obligation_in_session new_row
    payload_with_runtime_scope scope_object replace_payload
scope-resolve str law kind n first then s ready error now later table h = ground (
  arith,
  read_scope-fields str law s,
  replace_payload-fields then _ s (payload_with_runtime_scope-fields first s h),
  payload_with_runtime_scope-fields first s h,
)

update_first_twice :
    (p : AgentNotification → Bool) (f g : AgentNotification → AgentNotification) (table : Table)
    → ((row : AgentNotification) → p (f row) ≡ p row)
    → ((row : AgentNotification) → g (f row) ≡ f row)
    → update_first p g (update_first p f table) ≡ update_first p f table
unfolding update_first
update_first_twice p f g [] same fixed = refl
update_first_twice p f g (row ∷ table) same fixed =
    ground (arith, same row, fixed row, update_first_twice p f g table same fixed)

-- Resolving an obligation a second time, in whatever way, changes nothing.
resolve_twice :
    (kind : NotificationKind) (run_id : String) (ready again : Bool) (first then : Option Fields)
    (error next_error : String) (now later : ℕ) (table : Table)
    → let resolved = (resolve_obligation_in_session kind run_id ready first error now table).1 in
      (resolve_obligation_in_session kind run_id again then next_error later resolved).1 ≡ resolved
unfolding resolve_obligation_in_session resolve_row
resolve_twice kind run_id ready again first then error next_error now later table =
    update_first_twice (is_obligation kind run_id) (resolve_row ready first error now)
      (resolve_row again then next_error later) table (λ row. ground arith) (λ row. ground arith)
