-- ===== src/VendorRuntime/Ledger/Tests.antt =====
-- A log with two calls and one state.
use testy_mc_testface.Prelude.{
  ◌≡◌, refl, ◌*◌, ◌≤◌, ℤ, pos, String, true, List, [], ◌∷◌, Option, some, none, map, lookup, insert,
}
use testy_mc_testface.Scenario.Value.{num, str, obj, member, end, get_member}
use testy_mc_testface.VendorRuntime.Ledger.{Platform, ProviderCallLedgerEntry}
use testy_mc_testface.VendorRuntime.Ledger.Text.{
  split_lines, split_spaces, trim_start, trim_end, from_part, cut,
}
use testy_mc_testface.VendorRuntime.Ledger.Parse.{
  parse_match_event, parse_state_event, parse_summary_event, summary_of,
}
use testy_mc_testface.VendorRuntime.Ledger.Correlate.{
  read_lines, taken_of, parse_provider_call_ledger, group_by, put, shift, pools_of, take_all,
}
use testy_mc_testface.VendorRuntime.Ledger.Conservation.{
  count, summaries_used, states_used, taken_of_bounds,
}

abbrev platform : Platform
platform = record {
  parse_json = λ _. some (
      obj (
        member "method" (str "GET")
          (member "statusCode" (num (pos 200)) (member "path" (str "/v1?x=1") end))));
  number = λ _. some (pos 1);
  sha256 = λ text. text;
}

abbrev logs : String
logs =
    "x TESTY_MATCH vendor=crm operation=get case=a correlation=c1\r\n{}\nTESTY_MATCH  vendor=crm operation=get case=a\nTESTY_STATE operation=get case=a correlation=c1 state=new nextState=old"

ledger : Unit {0}
unfolding parse_provider_call_ledger taken_of read_lines parse_match_event parse_state_event
    parse_summary_event summary_of split_lines split_spaces trim_start trim_end from_part cut lookup
    insert get_member group_by put shift pools_of take_all
ledger = tt

abbrev statuses : List (Option ℤ × Option String × Option String)
statuses =
    map (λ (e : ProviderCallLedgerEntry). (e.status_code, e.path_fingerprint, e.state_after))
      (parse_provider_call_ledger platform logs)

-- The one state is given to both calls: to the first by its correlation, and to the second by its
-- case.
state_twice : statuses ≡ (some (pos 200), some "/v1", some "old") ∷ (none, none, some "old") ∷ []
unfolding ledger
state_twice = refl

taken_of_bounds_example :
    let events = read_lines platform (split_lines logs) in
    (summaries_used (λ _. true) (taken_of platform logs) ≤ count (λ _. true) events.summaries)
    × (states_used (λ _. true) (taken_of platform logs) ≤ 2 * count (λ _. true) events.states)
taken_of_bounds_example = taken_of_bounds platform logs (λ _. true) (λ _. true)
