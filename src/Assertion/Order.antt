-- ===== src/Assertion/Order.antt =====
-- The search for a sequence of calls.
use testy_mc_testface.Prelude.{
  ℕ, suc, ◌+◌, ◌-◌, ◌≡◌, refl, sym, ap, ◌∙◌, ◌↔◌, ◌⊎◌, inl, inr, String, Bool, true, false, not,
  ◌&&◌, ◌||◌, List, [], ◌∷◌, Option, none, some, arith, leb, ◌==◌, length, drop, drop-cons,
  if◌then◌else◌, Bool-cases, Option-cases, drop-nil, and_parts,
}
use testy_mc_testface.Scenario.Repository.Records.{PersistedProviderCall}
use testy_mc_testface.Scenario.Repository.Reports.{AssertionSnapshot}
use testy_mc_testface.Assertion.{ProviderCallSelector, Platform}
use testy_mc_testface.Assertion.Matching.{matches_provider, find_index, follows_order, sort_by}
use testy_mc_testface.Assertion.Verdicts.{evaluate_provider_call_order, is_exact}

-- The selectors match calls in this order, with others between them.
pub data Embeds : List ProviderCallSelector → List PersistedProviderCall → Type 0 where
  all_found : {rs : List PersistedProviderCall} → Embeds [] rs
  found :
      {s : ProviderCallSelector} {ss : List ProviderCallSelector} {r : PersistedProviderCall}
      {rs : List PersistedProviderCall}
      → matches_provider r s ≡ true
      → Embeds ss rs
      → Embeds (s ∷ ss) (r ∷ rs)
  passed_over :
      {s : ProviderCallSelector} {ss : List ProviderCallSelector} {r : PersistedProviderCall}
      {rs : List PersistedProviderCall}
      → Embeds (s ∷ ss) rs
      → Embeds (s ∷ ss) (r ∷ rs)

-- Each selector takes the first call that matches.
greedy : List ProviderCallSelector → List PersistedProviderCall → Bool
greedy [] rs = true
greedy (s ∷ ss) [] = false
greedy (s ∷ ss) (r ∷ rs) =
    let with_this = greedy ss rs in
    let later = greedy (s ∷ ss) rs in if matches_provider r s then with_this else later

Embeds-tail :
    {s : ProviderCallSelector} {ss : List ProviderCallSelector} {rs : List PersistedProviderCall}
    → Embeds (s ∷ ss) rs
    → Embeds ss rs
Embeds-tail {ss = []} e = all_found
Embeds-tail {ss = t ∷ ts} (found m e) = passed_over e
Embeds-tail {ss = t ∷ ts} (passed_over e) = passed_over (Embeds-tail e)

-- The head is not needed where a later call matches as well.
Embeds-after :
    {s : ProviderCallSelector} {ss : List ProviderCallSelector} {r : PersistedProviderCall}
    {rs : List PersistedProviderCall}
    → Embeds (s ∷ ss) (r ∷ rs)
    → Embeds ss rs
Embeds-after (found m e) = e
Embeds-after (passed_over e) = Embeds-tail e

Embeds-skip :
    {s : ProviderCallSelector} {ss : List ProviderCallSelector} {r : PersistedProviderCall}
    {rs : List PersistedProviderCall}
    → matches_provider r s ≡ false
    → Embeds (s ∷ ss) (r ∷ rs)
    → Embeds (s ∷ ss) rs
Embeds-skip h (found m e) = cc (h, m)
Embeds-skip h (passed_over e) = e

greedy-Embeds :
    (ss : List ProviderCallSelector) (rs : List PersistedProviderCall)
    → greedy ss rs ≡ true
    → Embeds ss rs
unfolding greedy
greedy-Embeds [] rs h = all_found
greedy-Embeds (s ∷ ss) [] h = cc
greedy-Embeds (s ∷ ss) (r ∷ rs) h = elim (Bool-cases (matches_provider r s)) [
  | inl hit ↦ found hit (greedy-Embeds ss rs (rw (hit, greedy) at h))
  | inr miss ↦ passed_over (greedy-Embeds (s ∷ ss) rs (rw (miss, greedy) at h))
]

Embeds-greedy :
    (ss : List ProviderCallSelector) (rs : List PersistedProviderCall)
    → Embeds ss rs
    → greedy ss rs ≡ true
unfolding greedy
Embeds-greedy [] rs e = refl
Embeds-greedy (s ∷ ss) [] e = elim e [ ]
Embeds-greedy (s ∷ ss) (r ∷ rs) e = elim (Bool-cases (matches_provider r s)) [
  | inl hit ↦ rw (hit, greedy) (Embeds-greedy ss rs (Embeds-after e))
  | inr miss ↦ rw (miss, greedy) (Embeds-greedy (s ∷ ss) rs (Embeds-skip miss e))
]

exact_parts : (exact : Bool) (a b : ℕ) → (not exact || a == b) ≡ true → (exact ≡ false) ⊎ (a ≡ b)
exact_parts false a b h = inl refl
exact_parts true a b h = inr (ground (arith, h))

exact_whole : (exact : Bool) (a b : ℕ) → (exact ≡ false) ⊎ (a ≡ b) → (not exact || a == b) ≡ true
exact_whole false a b h = refl
exact_whole true a b (inl h) = cc
exact_whole true a b (inr h) = ground (arith, h)

-- The test of the search with a cursor.
abbrev from_cursor : ℕ → ProviderCallSelector → ℕ → PersistedProviderCall → Bool
from_cursor cursor s i r = leb cursor i && matches_provider r s

abbrev after_find : List ProviderCallSelector → List PersistedProviderCall → Option ℕ → Bool
after_find ss all none = false
after_find ss all (some index) = follows_order (index + 1) ss all

module _ (s : ProviderCallSelector) (ss : List ProviderCallSelector)
    (all : List PersistedProviderCall) (cursor : ℕ)
    (later : (j : ℕ) → follows_order j ss all ≡ greedy ss (drop j all)) where
  find_index-greedy :
      (index : ℕ) (rs : List PersistedProviderCall)
      → drop index all ≡ rs
      → after_find ss all (find_index (from_cursor cursor s) index rs)
        ≡ greedy (s ∷ ss) (drop (cursor - index) rs)
  unfolding find_index greedy
  find_index-greedy index [] e = rw (drop-nil {A = PersistedProviderCall} (cursor - index)) refl
  find_index-greedy index (r ∷ rs) e =
      let step : index + 1 ≡ suc index = omega arith in
      let next : drop (index + 1) all ≡ rs = rw step (drop-cons index all r rs e) in
      let ih = find_index-greedy (index + 1) rs next in
      elim (Bool-cases (leb cursor index)) [
        | inl reached ↦
            let here : cursor - index ≡ 0 = ground (arith, reached) in
            let there : cursor - (index + 1) ≡ 0 = ground (arith, reached) in
            elim (Bool-cases (matches_provider r s)) [
              | inl hit ↦
                  rw (reached, find_index, here, greedy, hit)
                    (later (index + 1) ∙ ap (greedy ss) next)
              | inr miss ↦ rw (reached, find_index, here, greedy, miss) (rw there at ih)
            ]
        | inr before ↦
            let here : cursor - index ≡ suc (cursor - (index + 1)) = ground (arith, before) in
            rw (before, find_index, here) ih
      ]

follows_order-greedy :
    (ss : List ProviderCallSelector) (all : List PersistedProviderCall) (cursor : ℕ)
    → follows_order cursor ss all ≡ greedy ss (drop cursor all)
unfolding follows_order greedy
follows_order-greedy [] all cursor = refl
follows_order-greedy (s ∷ ss) all cursor =
    let search = find_index (from_cursor cursor s) 0 all in
    let whole : cursor - 0 ≡ cursor = omega arith in
    let same : after_find ss all search ≡ greedy (s ∷ ss) (drop cursor all) =
      rw whole at (find_index-greedy s ss all cursor (follows_order-greedy ss all) 0 all refl) in
    elim (Option-cases search) [
      | inl missing ↦ rw (missing, follows_order) (rw missing at same)
      | inr (index, at_index) ↦ rw (at_index, follows_order) (rw at_index at same)
    ]

-- The assertion on an order passes exactly if its selectors match calls in this order, among the
-- calls sorted by their times, and if there are no other calls where it is exact.
pub evaluate_provider_call_order_iff :
    (p : Platform) (id : String) (sequence : List ProviderCallSelector) (exact : Option Bool)
    (snapshot : AssertionSnapshot)
    → let records =
        sort_by
          (λ (l r : PersistedProviderCall). p.collates l.occurred_at r.occurred_at)
          snapshot.provider_calls in
      ((evaluate_provider_call_order p id sequence exact snapshot).passed ≡ true)
      ↔ (Embeds sequence records × ((is_exact exact ≡ false) ⊎ (length records ≡ length sequence)))
unfolding evaluate_provider_call_order
evaluate_provider_call_order_iff p id sequence exact snapshot =
    let records =
      sort_by (λ (l r : PersistedProviderCall). p.collates l.occurred_at r.occurred_at)
        snapshot.provider_calls in
    let same = follows_order-greedy sequence records 0 in
    (
      λ h.
          let (a, b) = and_parts (follows_order 0 sequence records) _ h in
          (greedy-Embeds sequence records (sym same ∙ a), exact_parts (is_exact exact) _ _ b),
      λ (e, x). rw (same, Embeds-greedy sequence records e) (exact_whole (is_exact exact) _ _ x),
    )
