-- ===== src/Registry/Lookup.antt =====
-- core/action_registry.py: what is registered is found.
use zj_cyber_workbench.Prelude.{
  if◌then◌else◌, Bool-cases, string_eq, any, first_where, String, ◌≡◌, refl, ap, ◌∙◌, inl, inr,
  false, none, some, List, [], ◌∷◌, ◌++◌, arith,
}
use zj_cyber_workbench.Registry.{ActionSpec, is_type, require, register, spec}

first_where_absent :
    (action_type : String) (specs : List ActionSpec)
    → any (is_type action_type) specs ≡ false
    → first_where (is_type action_type) specs ≡ none
unfolding first_where any
first_where_absent action_type [] h = refl
first_where_absent action_type (s ∷ specs) h =
    ground (arith, h, first_where_absent action_type specs)

some_inj : (a b : List ActionSpec) → some a ≡ some b → b ≡ a
some_inj a b h = cc

first_where-append :
    (action_type : String) (specs : List ActionSpec) (spec : ActionSpec)
    → any (is_type spec.action_type) specs ≡ false
    → first_where (is_type action_type) (specs ++ (spec ∷ []))
      ≡ (if is_type action_type spec then some spec else first_where (is_type action_type) specs)
unfolding first_where any
first_where-append action_type [] spec h = ground arith
first_where-append action_type (s ∷ specs) spec h = ground (
  arith,
  h,
  string_eq.same_iff s.action_type spec.action_type,
  string_eq.same_iff s.action_type action_type,
  string_eq.same_iff spec.action_type action_type,
  first_where-append action_type specs spec,
)

-- A registration changes what is found under the type of its specification, and under no other.
require-register :
    (spec : ActionSpec) (specs after : List ActionSpec) (action_type : String)
    → register spec specs ≡ some after
    → (require spec.action_type specs ≡ none)
      × (require action_type after
          ≡ (if is_type action_type spec then some spec else require action_type specs))
unfolding register require
require-register spec specs after action_type h =
    elim (Bool-cases (any (is_type spec.action_type) specs)) [
      | inl e ↦ ground (arith, e, h)
      | inr e ↦ (
        first_where_absent spec.action_type specs e,
        ap (λ l. first_where (is_type action_type) l)
              (some_inj (specs ++ (spec ∷ [])) after (ground (arith, e, h)))
            ∙ first_where-append action_type specs spec e,
      )
    ]
