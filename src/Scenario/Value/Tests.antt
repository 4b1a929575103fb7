-- ===== src/Scenario/Value/Tests.antt =====
-- Paths and comparisons of values at concrete inputs.
use testy_mc_testface.Prelude.{◌≡◌, refl, true, false, some, none, pos, negsuc}
use testy_mc_testface.Scenario.Value.{
  Value, null, num, arr, obj, nil, cons, end, member, same_value, read_path, str, stringify,
}

abbrev sample : Value
sample = obj (member "outputs" (obj (member "work" (num (pos 3)) end)) end)

reads : read_path sample "$.outputs.work" ≡ some (num (pos 3))
unfolding read_path
reads = refl

misses : read_path sample "outputs.work.deeper" ≡ none
unfolding read_path
misses = refl

abbrev two_escapes : Value
two_escapes = obj (member "a\"b" (arr (cons (num (negsuc 11)) (cons (str "\\\n") nil))) end)

written : stringify two_escapes ≡ "{\"a\\\"b\":[-12,\"\\\\\\n\"]}"
unfolding stringify
written = refl

-- The order of the members counts.
compares :
    (same_value sample sample ≡ true)
    × (same_value
          (obj (member "a" null (member "b" null end)))
          (obj (member "b" null (member "a" null end)))
        ≡ false)
unfolding same_value
compares = (refl, refl)
