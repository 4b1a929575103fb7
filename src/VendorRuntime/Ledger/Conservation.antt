-- ===== src/VendorRuntime/Ledger/Conservation.antt =====
-- How often an event of the log is used.
use testy_mc_testface.Prelude.{
  ℕ, ◌+◌, ◌*◌, ◌≤◌, ◌≡◌, refl, ap, String, Bool, true, false, List, [], ◌∷◌, ◌++◌, Option, none,
  some, or_else, Table, lookup, insert, select, str_eq, if◌then◌else◌, arith, Bool-cases,
  Option-cases, inl, inr,
}
use testy_mc_testface.VendorRuntime.Ledger.{MatchEvent, StateEvent, SummaryEvent, Platform}
use testy_mc_testface.VendorRuntime.Ledger.Text.{split_lines}
use testy_mc_testface.VendorRuntime.Ledger.Parse.{filled}
use testy_mc_testface.VendorRuntime.Ledger.Correlate.{
  read_lines, put, group_by, shift, shift_optional, case_key, Pools, without, correlation, pools_of,
  take_next, or_uncorrelated, or_by_case, take_summary, take_state, Taken, take_all, taken_of,
}

-- How many elements pass a test.
module _ {A : Type 0} (q : A → Bool) where
  abbrev pub one : A → ℕ
  one x = if q x then 1 else 0

  abbrev pub count : List A → ℕ
  count [] = 0
  count (x ∷ xs) = one x + count xs

  abbrev pub count_optional : Option A → ℕ
  count_optional none = 0
  count_optional (some x) = one x

  abbrev count_table : Table (List A) → ℕ
  count_table [] = 0
  count_table ((_, xs) ∷ rest) = count xs + count_table rest

  count-append : (xs ys : List A) → count (xs ++ ys) ≡ count xs + count ys
  count-append [] ys = omega arith
  count-append (x ∷ xs) ys = omega (arith, count-append xs ys)

  count_table-insert :
      (key : String) (new : List A) (t : Table (List A))
      → count_table (insert key new t) + count (or_else (lookup key t) [])
        ≡ count_table t + count new
  unfolding insert lookup
  count_table-insert key new [] = omega arith
  count_table-insert key new ((name, xs) ∷ rest) = elim (Bool-cases (str_eq name key)) [
    | inl same ↦ rw (same, insert, lookup) (omega arith)
    | inr away ↦ rw (away, insert, lookup) (omega (arith, count_table-insert key new rest))
  ]

  count_table-put :
      (key : String) (x : A) (t : Table (List A))
      → count_table (put key x t) ≡ count_table t + one x
  unfolding put
  count_table-put key x t =
      let old = or_else (lookup key t) [] in
      omega (arith, count_table-insert key (old ++ (x ∷ [])) t, count-append old (x ∷ []))

  count_table-group_by :
      (key : A → Option String) (xs : List A) (t : Table (List A))
      → count_table (group_by key xs t) + count (select (without key) xs) ≡ count_table t + count xs
  unfolding group_by
  count_table-group_by key [] t = omega arith
  count_table-group_by key (x ∷ xs) t = elim (Option-cases (key x)) [
    | inl missing ↦
        let apart : without key x ≡ true = rw (missing, without) refl in
        let chosen : select (without key) (x ∷ xs) ≡ x ∷ select (without key) xs =
          rw (apart, select) refl in
        rw (missing, group_by) (omega (arith, count_table-group_by key xs t, ap count chosen))
    | inr (k, there) ↦
        let grouped : without key x ≡ false = rw (there, without) refl in
        let chosen : select (without key) (x ∷ xs) ≡ select (without key) xs =
          rw (grouped, select) refl in
        rw (there, group_by)
          (omega (
            arith,
            count_table-group_by key xs (put k x t),
            count_table-put k x t,
            ap count chosen,
          ))
  ]

  count_table-shift :
      (key : String) (t : Table (List A))
      → count_table (shift key t).1 + count_optional (shift key t).0 ≡ count_table t
  unfolding shift
  count_table-shift key t = elim (Option-cases (lookup key t)) [
    | inl missing ↦ rw (missing, shift) (omega arith)
    | inr ([], there) ↦ rw (there, shift) (omega arith)
    | inr (x ∷ rest, there) ↦
        let h = rw there at (count_table-insert key rest t) in rw (there, shift) (omega (arith, h))
  ]

  count_table-shift_optional :
      (key : Option String) (t : Table (List A))
      → count_table (shift_optional key t).1 + count_optional (shift_optional key t).0
        ≡ count_table t
  count_table-shift_optional none t = omega arith
  count_table-shift_optional (some key) t = count_table-shift key t

-- The summaries that are not used yet.
abbrev summaries_left : (SummaryEvent → Bool) → Pools → ℕ
summaries_left q pools = count_table q pools.summaries + count q pools.uncorrelated

take_next-left :
    (q : SummaryEvent → Bool) (xs : List SummaryEvent) (pools : Pools)
    → pools.uncorrelated ≡ xs
    → summaries_left q (take_next xs pools).1 + count_optional q (take_next xs pools).0
      ≡ summaries_left q pools
unfolding take_next
take_next-left q [] pools e = omega arith
take_next-left q (x ∷ rest) pools e = omega (arith, ap (count q) e)

or_uncorrelated-left :
    (q : SummaryEvent → Bool) (found : Option SummaryEvent) (pools : Pools)
    → summaries_left q (or_uncorrelated found pools).1
        + count_optional q (or_uncorrelated found pools).0
      ≡ summaries_left q pools + count_optional q found
unfolding or_uncorrelated
or_uncorrelated-left q (some s) pools = refl
or_uncorrelated-left q none pools = omega (arith, take_next-left q pools.uncorrelated pools refl)

take_summary-left :
    (q : SummaryEvent → Bool) (m : MatchEvent) (pools : Pools)
    → summaries_left q (take_summary m pools).1 + count_optional q (take_summary m pools).0
      ≡ summaries_left q pools
unfolding take_summary
take_summary-left q m pools =
    let key = filled m.correlation_id in
    let (found, left) = shift_optional key pools.summaries in
    omega (
      arith,
      count_table-shift_optional q key pools.summaries,
      or_uncorrelated-left q found (record pools { summaries = left }),
    )

-- The states that are not used yet: each stands in one group of its correlation and in one of its
-- case.
abbrev states_left : (StateEvent → Bool) → Pools → ℕ
states_left q pools = count_table q pools.states + count_table q pools.by_case

or_by_case-left :
    (q : StateEvent → Bool) (m : MatchEvent) (found : Option StateEvent) (pools : Pools)
    → states_left q (or_by_case m found pools).1 + count_optional q (or_by_case m found pools).0
      ≡ states_left q pools + count_optional q found
unfolding or_by_case
or_by_case-left q m (some s) pools = refl
or_by_case-left q m none pools =
    omega (arith, count_table-shift_optional q (case_key m.operation_id m.case_id) pools.by_case)

take_state-left :
    (q : StateEvent → Bool) (m : MatchEvent) (pools : Pools)
    → states_left q (take_state m pools).1 + count_optional q (take_state m pools).0
      ≡ states_left q pools
unfolding take_state
take_state-left q m pools =
    let key = filled m.correlation_id in
    let (found, left) = shift_optional key pools.states in
    omega (
      arith,
      count_table-shift_optional q key pools.states,
      or_by_case-left q m found (record pools { states = left }),
    )

take_next-states :
    (q : StateEvent → Bool) (xs : List SummaryEvent) (pools : Pools)
    → states_left q (take_next xs pools).1 ≡ states_left q pools
unfolding take_next
take_next-states q [] pools = refl
take_next-states q (x ∷ rest) pools = refl

or_uncorrelated-states :
    (q : StateEvent → Bool) (found : Option SummaryEvent) (pools : Pools)
    → states_left q (or_uncorrelated found pools).1 ≡ states_left q pools
unfolding or_uncorrelated
or_uncorrelated-states q (some s) pools = refl
or_uncorrelated-states q none pools = take_next-states q pools.uncorrelated pools

or_by_case-summaries :
    (q : SummaryEvent → Bool) (m : MatchEvent) (found : Option StateEvent) (pools : Pools)
    → summaries_left q (or_by_case m found pools).1 ≡ summaries_left q pools
unfolding or_by_case
or_by_case-summaries q m (some s) pools = refl
or_by_case-summaries q m none pools = refl

take_state-summaries :
    (q : SummaryEvent → Bool) (m : MatchEvent) (pools : Pools)
    → summaries_left q (take_state m pools).1 ≡ summaries_left q pools
unfolding take_state
take_state-summaries q m pools =
    let (found, left) = shift_optional (filled m.correlation_id) pools.states in
    or_by_case-summaries q m found (record pools { states = left })

take_summary-states :
    (q : StateEvent → Bool) (m : MatchEvent) (pools : Pools)
    → states_left q (take_summary m pools).1 ≡ states_left q pools
unfolding take_summary
take_summary-states q m pools =
    let (found, left) = shift_optional (filled m.correlation_id) pools.summaries in
    or_uncorrelated-states q found (record pools { summaries = left })

-- What the matches have taken.
abbrev pub summaries_used : (SummaryEvent → Bool) → List Taken → ℕ
summaries_used q [] = 0
summaries_used q (t ∷ rest) = count_optional q t.summary + summaries_used q rest

abbrev pub states_used : (StateEvent → Bool) → List Taken → ℕ
states_used q [] = 0
states_used q (t ∷ rest) = count_optional q t.state + states_used q rest

take_all-summaries :
    (q : SummaryEvent → Bool) (ms : List MatchEvent) (pools : Pools)
    → summaries_used q (take_all ms pools) ≤ summaries_left q pools
unfolding take_all
take_all-summaries q [] pools = omega arith
take_all-summaries q (m ∷ rest) pools =
    let pools' = (take_summary m pools).1 in
    omega (
      arith,
      take_summary-left q m pools,
      take_state-summaries q m pools',
      take_all-summaries q rest (take_state m pools').1,
    )

take_all-states :
    (q : StateEvent → Bool) (ms : List MatchEvent) (pools : Pools)
    → states_used q (take_all ms pools) ≤ states_left q pools
unfolding take_all
take_all-states q [] pools = omega arith
take_all-states q (m ∷ rest) pools =
    let pools' = (take_summary m pools).1 in
    omega (
      arith,
      take_summary-states q m pools,
      take_state-left q m pools',
      take_all-states q rest (take_state m pools').1,
    )

-- Whatever the log holds and however a summary or a state is told from others: among the entries of
-- the ledger there are not more with such a summary than such summaries stand in the log, and not
-- more than twice as many with such a state as such states stand there.
pub taken_of_bounds :
    (p : Platform) (logs : String) (q : SummaryEvent → Bool) (r : StateEvent → Bool)
    → let events = read_lines p (split_lines logs) in
      (summaries_used q (taken_of p logs) ≤ count q events.summaries)
      × (states_used r (taken_of p logs) ≤ 2 * count r events.states)
unfolding taken_of pools_of
taken_of_bounds p logs q r =
    let events = read_lines p (split_lines logs) in
    (
      omega (
        arith,
        take_all-summaries q events.matches (pools_of events),
        count_table-group_by q correlation events.summaries [],
      ),
      omega (
        arith,
        take_all-states r events.matches (pools_of events),
        count_table-group_by r (λ (s : StateEvent). filled s.correlation_id) events.states [],
        count_table-group_by r (λ (s : StateEvent). case_key s.operation_id s.case_id) events.states
            [],
      ),
    )
