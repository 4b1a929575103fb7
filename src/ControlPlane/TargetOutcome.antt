-- ===== src/ControlPlane/TargetOutcome.antt =====
-- apps/control-plane/src/target-outcome.ts. `none` where the source throws.
use testy_mc_testface.Prelude.{
  ◌>>=◌, ◌≡◌, ◌≢◌, refl, ◌∙◌, String, Bool, true, false, ◌&&◌, List, [], ◌∷◌, Option, none, some,
  Table, lookup, str_eq, is_empty, any, if◌then◌else◌, arith, eq_iff, eq_refl,
}
use testy_mc_testface.Scenario.Value.{
  Value, bool, str, arr, obj, Items, nil, cons, Members, end, member, get_member,
}

abbrev pub read_optional_record : Value → Option Members
read_optional_record (obj m) = some m
read_optional_record _ = none

abbrev pub read_record : Option Value → Option Members
read_record none = none
read_record (some v) = read_optional_record v

abbrev non_empty : Option Value → Option String
non_empty (some (str s)) = if is_empty s then none else some s
non_empty _ = none

abbrev pub read_string : Members → (key : String) → Option String
read_string m key = non_empty (get_member key m)

abbrev pub read_optional_string : Members → (key : String) → Option String
read_optional_string m key = non_empty (get_member key m)

abbrev texts : Items → Option (List String)
texts nil = some []
texts (cons (str s) rest) = elim (texts rest) [ none ↦ none | some ss ↦ some (s ∷ ss) ]
texts (cons _ rest) = none

abbrev text_array : Option Value → Option (List String)
text_array (some (arr items)) = texts items
text_array _ = none

abbrev pub read_string_array : Members → (key : String) → Option (List String)
read_string_array m key = text_array (get_member key m)

abbrev is_text : Option Value → Bool
is_text (some (str _)) = true
is_text _ = false

abbrev pub is_prepared : Members → Bool
is_prepared m =
    is_text (get_member "targetRunId" m)
    && is_text (get_member "tenantId" m)
    && is_text (get_member "trackingScriptUrl" m)

-- The first prepared record, if the value is none itself.
abbrev or_prepared : Value → Option Members → Option Members
or_prepared (obj m) later = if is_prepared m then some m else later
or_prepared _ later = later

unfoldable pub first_prepared : Table Value → Option Members
first_prepared [] = none
first_prepared ((key, v) ∷ rest) = or_prepared v (first_prepared rest)

unfoldable pub find_prepared_target : Table Value → Option Members
unfolding first_prepared lookup
find_prepared_target outputs = elim (lookup "prepare-target" outputs) [
  | none ↦ first_prepared outputs
  | some preferred ↦ or_prepared preferred (first_prepared outputs)
]

-- A member that is written over keeps its place.
unfoldable pub set_member : String → Value → Members → Members
set_member key v end = member key v end
set_member key v (member k w m) =
    let later = set_member key v m in if str_eq k key then member key v m else member k w later

abbrev pub is_given : Option String → Bool
is_given none = false
is_given (some _) = true

abbrev pub includes : List String → Option String → Bool
includes visible none = false
includes visible (some tenant) = any (str_eq tenant) visible

abbrev pub control_tenant : Table Value → Option String
control_tenant outputs = elim (find_prepared_target outputs) [
  | none ↦ none
  | some prepared ↦ read_optional_string prepared "controlTenantId"
]

abbrev with_flags : (primary configured control : Bool) → Members → Members
with_flags primary configured control m = set_member "controlTenantVisible" (bool control) (
    set_member "controlTenantConfigured" (bool configured)
      (set_member "primaryTenantVisible" (bool primary) m))

unfoldable pub derive_target_outcome : Option Value → Table Value → Option Value
unfolding get_member find_prepared_target set_member
derive_target_outcome value outputs = do
  m ← read_record value
  tenant ← read_string m "tenantId"
  visible ← read_string_array m "visibleTenantIds"
  some (
      obj (
        with_flags (any (str_eq tenant) visible) (is_given (control_tenant outputs))
          (includes visible (control_tenant outputs)) m))

get_member-set_member_self :
    (key : String) (v : Value) (m : Members) → get_member key (set_member key v m) ≡ some v
unfolding get_member set_member
get_member-set_member_self key v end = ground (arith, eq_refl key)
get_member-set_member_self key v (member k w m) =
    ground (arith, eq_refl key, get_member-set_member_self key v m)

get_member-set_member :
    (key other : String) (v : Value) (m : Members)
    → key ≢ other
    → get_member other (set_member key v m) ≡ get_member other m
unfolding get_member set_member
get_member-set_member key other v end h = ground (arith, eq_iff key other)
get_member-set_member key other v (member k w m) h =
    ground
      (arith, eq_iff key other, eq_iff k key, eq_iff k other, get_member-set_member key other v m h)

-- An outcome that names its tenant and the visible tenants is completed with three flags: whether
-- its own tenant is visible, whether a prepared target names a control tenant, and whether that one
-- is visible. The outcome's other members are as they were.
pub derive_target_outcome_flags :
    (m : Members) (outputs : Table Value) (tenant key : String) (visible : List String)
    → read_string m "tenantId" ≡ some tenant
    → read_string_array m "visibleTenantIds" ≡ some visible
    → "primaryTenantVisible" ≢ key
    → "controlTenantConfigured" ≢ key
    → "controlTenantVisible" ≢ key
    → (out : Members) × (derive_target_outcome (some (obj m)) outputs ≡ some (obj out))
      × (get_member "primaryTenantVisible" out ≡ some (bool (any (str_eq tenant) visible)))
      × (get_member "controlTenantConfigured" out ≡ some (bool (is_given (control_tenant outputs))))
      × (get_member "controlTenantVisible" out
          ≡ some (bool (includes visible (control_tenant outputs))))
      × (get_member key out ≡ get_member key m)
unfolding derive_target_outcome
derive_target_outcome_flags m outputs tenant key visible named listed a b c =
    let own = bool (any (str_eq tenant) visible) in
    let given = bool (is_given (control_tenant outputs)) in
    let seen = bool (includes visible (control_tenant outputs)) in
    let one = set_member "primaryTenantVisible" own m in
    let two = set_member "controlTenantConfigured" given one in
    (
      set_member "controlTenantVisible" seen two,
      rw (named, derive_target_outcome, listed) refl,
      get_member-set_member "controlTenantVisible" "primaryTenantVisible" seen two
            (λ p. cc ((eq_iff "controlTenantVisible" "primaryTenantVisible").1 p))
          ∙ get_member-set_member "controlTenantConfigured" "primaryTenantVisible" given one
              (λ p. cc ((eq_iff "controlTenantConfigured" "primaryTenantVisible").1 p))
          ∙ get_member-set_member_self "primaryTenantVisible" own m,
      get_member-set_member "controlTenantVisible" "controlTenantConfigured" seen two
            (λ p. cc ((eq_iff "controlTenantVisible" "controlTenantConfigured").1 p))
          ∙ get_member-set_member_self "controlTenantConfigured" given one,
      get_member-set_member_self "controlTenantVisible" seen two,
      get_member-set_member "controlTenantVisible" key seen two c
          ∙ get_member-set_member "controlTenantConfigured" key given one b
          ∙ get_member-set_member "primaryTenantVisible" key own m a,
    )
