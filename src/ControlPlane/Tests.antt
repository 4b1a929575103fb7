-- ===== src/ControlPlane/Tests.antt =====
-- An outcome whose control tenant is not visible.
use testy_mc_testface.Prelude.{◌≡◌, refl, ◌∷◌, [], some, any, str_eq}
use testy_mc_testface.Prelude.{true, false, Table, lookup, eq_iff}
use testy_mc_testface.Scenario.Value.{
  Value, bool, str, arr, obj, nil, cons, Members, end, member, get_member,
}
use testy_mc_testface.ControlPlane.TargetOutcome.{
  read_string, read_string_array, find_prepared_target, first_prepared, control_tenant,
  derive_target_outcome, derive_target_outcome_flags, set_member, is_given, includes,
}

abbrev outcome : Members
outcome = member "tenantId" (str "own") (member "visibleTenantIds" (arr (cons (str "own") nil)) end)

abbrev prepared : Members
prepared = member "targetRunId" (str "run") (
    member "tenantId" (str "own")
      (member "trackingScriptUrl" (str "script") (member "controlTenantId" (str "control") end)))

abbrev outputs : Table Value
outputs = ("prepare-target", obj prepared) ∷ []

names : read_string outcome "tenantId" ≡ some "own"
unfolding get_member
names = refl

lists : read_string_array outcome "visibleTenantIds" ≡ some ("own" ∷ [])
unfolding get_member
lists = refl

names_control : control_tenant outputs ≡ some "control"
unfolding find_prepared_target first_prepared lookup get_member
names_control = refl

abbrev flags : Members
flags = member "tenantId" (str "own") (
    member "visibleTenantIds" (arr (cons (str "own") nil)) (
      member "primaryTenantVisible" (bool true) (
        member "controlTenantConfigured" (bool true)
          (member "controlTenantVisible" (bool false) end))))

derives : derive_target_outcome (some (obj outcome)) outputs ≡ some (obj flags)
unfolding derive_target_outcome find_prepared_target first_prepared lookup get_member set_member
derives = refl

derive_target_outcome_flags_example :
    (out : Members) × (derive_target_outcome (some (obj outcome)) outputs ≡ some (obj out))
    × (get_member "primaryTenantVisible" out ≡ some (bool (any (str_eq "own") ("own" ∷ []))))
    × (get_member "controlTenantConfigured" out ≡ some (bool (is_given (control_tenant outputs))))
    × (get_member "controlTenantVisible" out
        ≡ some (bool (includes ("own" ∷ []) (control_tenant outputs))))
    × (get_member "tenantId" out ≡ get_member "tenantId" outcome)
derive_target_outcome_flags_example =
    derive_target_outcome_flags outcome outputs "own" "tenantId" ("own" ∷ []) names lists
      (λ e. cc ((eq_iff "primaryTenantVisible" "tenantId").1 e))
      (λ e. cc ((eq_iff "controlTenantConfigured" "tenantId").1 e))
      (λ e. cc ((eq_iff "controlTenantVisible" "tenantId").1 e))
