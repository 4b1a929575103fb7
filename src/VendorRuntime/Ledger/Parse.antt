-- ===== src/VendorRuntime/Ledger/Parse.antt =====
-- The events of one line: parseMatchEvent, parseStateEvent and parseSummaryEvent.
use testy_mc_testface.Prelude.{
  ℤ, String, Bool, true, false, not, ◌&&◌, List, [], ◌∷◌, Option, none, some, ◌>>=◌, is_empty,
  is_some, str_eq, Table, lookup, insert, if◌then◌else◌,
}
use text.Mathlib.Text.{starts_with}
use testy_mc_testface.Scenario.Value.{Value, num, str, obj, get_member}
use testy_mc_testface.VendorRuntime.Ledger.{MatchEvent, StateEvent, SummaryEvent, Platform}
use testy_mc_testface.VendorRuntime.Ledger.Text.{split_spaces, trim_start, trim_end, from_part, cut}

unfoldable pub marker_text : String → Option String
unfolding from_part trim_start trim_end
marker_text line = elim (from_part "TESTY_" line) [
  | none ↦ none
  | some rest ↦ some (trim_end (trim_start rest))
]

abbrev pub field_of : String → String × String
field_of part = elim (cut b'=' part) [ none ↦ (part, "") | some kv ↦ kv ]

unfoldable pub fields_of : List String → Table String → Table String
unfolding cut insert
fields_of [] fields = fields
fields_of (part ∷ rest) fields = fields_of rest (insert (field_of part).0 (field_of part).1 fields)

abbrev tail_of : List String → List String
tail_of [] = []
tail_of (_ ∷ rest) = rest

unfoldable pub parse_marker_fields : (marker : String) → Table String
unfolding split_spaces fields_of
parse_marker_fields marker = fields_of (tail_of (split_spaces marker)) []

-- A text that is there and not empty.
abbrev pub filled : Option String → Option String
filled none = none
filled (some s) = if is_empty s then none else some s

unfoldable pub is_useful_correlation : String → Bool
unfolding from_part
is_useful_correlation value =
    not (is_empty value)
    && not (is_some (from_part "${" value))
    && not (str_eq value "null")
    && not (str_eq value "undefined")
    && not (str_eq value "none")

abbrev pub useful : Option String → Option String
useful none = none
useful (some v) = if is_useful_correlation v then some v else none

abbrev kind_of : (marker : String) → Option Bool
kind_of marker =
    if starts_with marker "TESTY_MATCH"
    then some false
    else if starts_with marker "TESTY_UNMATCHED"
    then some true
    else none

unfoldable pub parse_match_event : (line : String) → Option MatchEvent
unfolding marker_text parse_marker_fields lookup is_useful_correlation
parse_match_event line = do
  marker ← marker_text line
  unmatched ← kind_of marker
  vendor ← filled (lookup "vendor" (parse_marker_fields marker))
  let fields = parse_marker_fields marker
  some (record {
    vendor_id = vendor;
    operation_id = filled (lookup "operation" fields);
    case_id = filled (lookup "case" fields);
    unmatched = unmatched;
    correlation_id = useful (lookup "correlation" fields);
  })

module _ (p : Platform) where
  unfoldable pub to_number : Option Value → Option ℤ
  to_number (some (num n)) = some n
  to_number (some (str s)) = p.number s
  to_number _ = none

  abbrev text_number : Option String → Option ℤ
  text_number none = none
  text_number (some s) = p.number s

  abbrev index_of : Option String → Option ℤ
  index_of none = none
  index_of (some s) = if str_eq s "none" then none else p.number s

  unfoldable pub parse_state_event : (line : String) → Option StateEvent
  unfolding marker_text parse_marker_fields lookup is_useful_correlation
  parse_state_event line = do
    marker ← marker_text line
    state ← if starts_with marker "TESTY_STATE" then some marker else none
    let fields = parse_marker_fields marker
    some (record {
      operation_id = filled (lookup "operation" fields);
      case_id = filled (lookup "case" fields);
      correlation_id = useful (lookup "correlation" fields);
      state_before = filled (lookup "state" fields);
      state_after = filled (lookup "nextState" fields);
      state_request_count = text_number (lookup "stateRequestCount" fields);
      sequence_index = index_of (lookup "sequenceIndex" fields);
    })

  abbrev text_of : Option Value → Option String
  text_of (some (str s)) = some s
  text_of _ = none

  abbrev strip_query : (path : String) → String
  strip_query path = elim (cut b'?' path) [ none ↦ path | some (before, _) ↦ before ]

  abbrev path_fingerprint_of : Option String → Option String
  path_fingerprint_of none = none
  path_fingerprint_of (some path) = some (p.sha256 (strip_query path))

  unfoldable pub summary_of : Value → Option SummaryEvent
  unfolding get_member to_number cut
  summary_of (obj m) = do
    method ← text_of (get_member "method" m)
    status ← get_member "statusCode" m
    some (record {
      timestamp = text_of (get_member "timestamp" m);
      method = some method;
      path_fingerprint = path_fingerprint_of (text_of (get_member "path" m));
      status_code = to_number (some status);
      duration_ms = to_number (get_member "duration" m);
      correlation_id = text_of (get_member "x-testy-correlation-id" m);
    })
  summary_of _ = none

  unfoldable pub parse_summary_event : (line : String) → Option SummaryEvent
  unfolding from_part summary_of
  parse_summary_event line = do
    text ← from_part "{" line
    value ← p.parse_json text
    summary_of value
