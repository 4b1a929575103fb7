-- ===== src/VendorRuntime/Ledger/Correlate.antt =====
-- `parseProviderCallLedger`: which summary and which state belong to a match.
use testy_mc_testface.Prelude.{
  String, Bool, true, false, List, [], ◌∷◌, ◌++◌, Option, none, some, ◌>>=◌, or_else, Table, lookup,
  insert, select, ◌+++◌,
}
use testy_mc_testface.VendorRuntime.Ledger.{
  MatchEvent, StateEvent, SummaryEvent, ProviderCallLedgerEntry, Platform,
}
use testy_mc_testface.VendorRuntime.Ledger.Text.{split_lines}
use testy_mc_testface.VendorRuntime.Ledger.Parse.{
  filled, parse_match_event, parse_state_event, parse_summary_event,
}

pub record Events : Type 0 where
  pub matches : List MatchEvent
  pub states : List StateEvent
  pub summaries : List SummaryEvent

-- The first kind of event that a line reads as.
unfoldable pub read_line : Platform → (line : String) → Events → Events
unfolding parse_match_event parse_state_event parse_summary_event
read_line p line later = elim (parse_match_event line) [
  | some m ↦ record later { matches = m ∷ later.matches }
  | none ↦ elim (parse_state_event p line) [
    | some s ↦ record later { states = s ∷ later.states }
    | none ↦ elim (parse_summary_event p line) [
      | some s ↦ record later { summaries = s ∷ later.summaries }
      | none ↦ later
    ]
  ]
]

unfoldable pub read_lines : Platform → List String → Events
unfolding read_line
read_lines p [] = record { matches = []; states = []; summaries = [] }
read_lines p (line ∷ rest) = read_line p line (read_lines p rest)

module _ {ℓ} {A : Type ℓ} where
  unfoldable pub put : (key : String) → A → Table (List A) → Table (List A)
  unfolding lookup insert
  put key x t = insert key (or_else (lookup key t) [] ++ (x ∷ [])) t

  -- The values in the groups of their keys; without a key, in none.
  unfoldable pub group_by : (A → Option String) → List A → Table (List A) → Table (List A)
  unfolding put
  group_by key [] t = t
  group_by key (x ∷ xs) t = group_by key xs (elim (key x) [ none ↦ t | some k ↦ put k x t ])

  -- `table.get(key)?.shift()`.
  unfoldable pub shift : (key : String) → Table (List A) → Option A × Table (List A)
  unfolding lookup insert
  shift key t = elim (lookup key t) [
    | some (x ∷ rest) ↦ (some x, insert key rest t)
    | _ ↦ (none, t)
  ]

  abbrev pub shift_optional : Option String → Table (List A) → Option A × Table (List A)
  shift_optional none t = (none, t)
  shift_optional (some key) t = shift key t

-- `\u0000` between the two.
abbrev pub case_key : (operation case : Option String) → Option String
case_key operation case = do o ← filled operation; c ← filled case; some (o +++ "\0" +++ c)

pub record Pools : Type 0 where
  pub summaries : Table (List SummaryEvent)
  pub states : Table (List StateEvent)
  pub by_case : Table (List StateEvent)
  pub uncorrelated : List SummaryEvent

abbrev pub without {ℓ} : {A : Type ℓ} → (A → Option String) → A → Bool
without key x = elim (key x) [ none ↦ true | some _ ↦ false ]

abbrev pub correlation : SummaryEvent → Option String
correlation s = filled s.correlation_id

unfoldable pub pools_of : Events → Pools
unfolding group_by
pools_of e = record {
  summaries = group_by correlation e.summaries [];
  states = group_by (λ (s : StateEvent). filled s.correlation_id) e.states [];
  by_case = group_by (λ (s : StateEvent). case_key s.operation_id s.case_id) e.states [];
  uncorrelated = select (without correlation) e.summaries;
}

-- `uncorrelated[uncorrelatedIndex]`, and the next index if there is one.
unfoldable pub take_next : List SummaryEvent → Pools → Option SummaryEvent × Pools
take_next [] pools = (none, pools)
take_next (s ∷ rest) pools = (some s, record pools { uncorrelated = rest })

unfoldable pub or_uncorrelated : Option SummaryEvent → Pools → Option SummaryEvent × Pools
unfolding take_next
or_uncorrelated (some s) pools = (some s, pools)
or_uncorrelated none pools = take_next pools.uncorrelated pools

-- The summary of a match: one of its correlation, or else the next without one.
unfoldable pub take_summary : MatchEvent → Pools → Option SummaryEvent × Pools
unfolding shift or_uncorrelated
take_summary m pools =
    let (found, left) = shift_optional (filled m.correlation_id) pools.summaries in
    or_uncorrelated found (record pools { summaries = left })

unfoldable pub or_by_case : MatchEvent → Option StateEvent → Pools → Option StateEvent × Pools
unfolding shift
or_by_case m (some s) pools = (some s, pools)
or_by_case m none pools =
    let (found, left) = shift_optional (case_key m.operation_id m.case_id) pools.by_case in
    (found, record pools { by_case = left })

-- The state of a match: one of its correlation, or else one of its case.
unfoldable pub take_state : MatchEvent → Pools → Option StateEvent × Pools
unfolding shift or_by_case
take_state m pools =
    let (found, left) = shift_optional (filled m.correlation_id) pools.states in
    or_by_case m found (record pools { states = left })

-- `{ ...a, ...b }` on one member.
abbrev pub over {ℓ} : {A : Type ℓ} → Option A → Option A → Option A
over none old = old
over (some new) old = some new

abbrev pub from {ℓ κ} : {A : Type ℓ} {B : Type κ} → Option A → (A → Option B) → Option B
from x f = x >>= f

unfoldable pub entry_of :
    MatchEvent → Option SummaryEvent → Option StateEvent → ProviderCallLedgerEntry
entry_of m summary state =
    let own = filled m.correlation_id in
    let of_summary = from summary (λ (s : SummaryEvent). s.correlation_id) in
    let of_state = from state (λ (s : StateEvent). s.correlation_id) in
    record {
      vendor_id = m.vendor_id;
      operation_id = over (from state (λ (s : StateEvent). s.operation_id)) m.operation_id;
      case_id = over (from state (λ (s : StateEvent). s.case_id)) m.case_id;
      unmatched = m.unmatched;
      correlation_id =
          over own (over (filled of_summary) (over of_state (over of_summary m.correlation_id)));
      timestamp = from summary (λ (s : SummaryEvent). s.timestamp);
      method = from summary (λ (s : SummaryEvent). s.method);
      path_fingerprint = from summary (λ (s : SummaryEvent). s.path_fingerprint);
      status_code = from summary (λ (s : SummaryEvent). s.status_code);
      duration_ms = from summary (λ (s : SummaryEvent). s.duration_ms);
      state_before = from state (λ (s : StateEvent). s.state_before);
      state_after = from state (λ (s : StateEvent). s.state_after);
      state_request_count = from state (λ (s : StateEvent). s.state_request_count);
      sequence_index = from state (λ (s : StateEvent). s.sequence_index);
    }

-- What one match takes.
pub record Taken : Type 0 where
  pub event : MatchEvent
  pub summary : Option SummaryEvent
  pub state : Option StateEvent

unfoldable pub take_all : List MatchEvent → Pools → List Taken
unfolding take_summary take_state
take_all [] pools = []
take_all (m ∷ rest) pools =
    let (summary, pools') = take_summary m pools in
    let (state, pools'') = take_state m pools' in
    record { event = m; summary = summary; state = state } ∷ take_all rest pools''

unfoldable pub taken_of : Platform → (logs : String) → List Taken
unfolding read_lines split_lines pools_of take_all
taken_of p logs =
    let events = read_lines p (split_lines logs) in take_all events.matches (pools_of events)

abbrev pub entries_of : List Taken → List ProviderCallLedgerEntry
entries_of [] = []
entries_of (t ∷ rest) = entry_of t.event t.summary t.state ∷ entries_of rest

unfoldable pub parse_provider_call_ledger :
    Platform → (logs : String) → List ProviderCallLedgerEntry
unfolding taken_of entry_of
parse_provider_call_ledger p logs = entries_of (taken_of p logs)
