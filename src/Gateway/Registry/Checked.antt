-- ===== src/Gateway/Registry/Checked.antt =====
-- Where a stored route may lead.
use testy_mc_testface.Prelude.{
  ◌≡◌, refl, subst, some, any, true, false, split, ℕ, ◌+◌, String, List, [], ◌∷◌, ◌++◌, Option,
  arith, str_eq, All, Table, lookup, insert, delete, ◌+++◌, Bool-cases, Option-cases, inl, inr, leb,
}
use testy_mc_testface.Gateway.Address.{Platform, is_reserved_synthetic_ipv4}
use testy_mc_testface.Gateway.Registry.{
  Registry, RouteInput, Entry, LedgerEntry, stored_route, checked_origin, create_route, authorize,
  delete_route, record_entry, normalize_origin, token_matches, is_other_run, StoredRoute,
  hostname_of, is_blocked,
}
use testy_mc_testface.Gateway.Registry.Documentation.{IsReadAsDocumentation, four_octets-some}
use testy_mc_testface.Gateway.Registry.Routes.{IsChecked, Answer-cases, checked_origin-IsChecked}

module _ {ℓ} {V : Type ℓ} (P : V → Type 0) where
  abbrev Values : Table V → Type 0
  Values t = All (λ (e : String × V). P e.1) t

  Values-insert : (key : String) (v : V) (t : Table V) → Values t → P v → Values (insert key v t)
  unfolding insert
  Values-insert key v [] h p = (p, tt)
  Values-insert key v ((name, w) ∷ t) (q, h) p = elim (Bool-cases (str_eq name key)) [
    | inl hit ↦ rw (hit, insert) (p, h)
    | inr miss ↦ rw (miss, insert) (q, Values-insert key v t h p)
  ]

  Values-delete : (key : String) (t : Table V) → Values t → Values (delete key t)
  unfolding delete
  Values-delete key [] h = tt
  Values-delete key ((name, w) ∷ t) (q, h) = elim (Bool-cases (str_eq name key)) [
    | inl hit ↦ rw (hit, delete) (Values-delete key t h)
    | inr miss ↦ rw (miss, delete) (q, Values-delete key t h)
  ]

  Values-lookup : (key : String) (v : V) (t : Table V) → Values t → lookup key t ≡ some v → P v
  unfolding lookup
  Values-lookup key v [] h found = ground (arith, found)
  Values-lookup key v ((name, w) ∷ t) (q, h) found = elim (Bool-cases (str_eq name key)) [
    | inl hit ↦ subst P (cc (rw (hit, lookup) at found)) q
    | inr miss ↦ Values-lookup key v t h (rw (miss, lookup) at found)
  ]

-- Where a stored route leads, and as whom.
abbrev pub IsAllowed : Platform → Registry → StoredRoute → Type 0
IsAllowed p r st =
    (any (str_eq st.route.target_origin) r.allowed_origins ≡ true)
    × IsReadAsDocumentation p st.route.synthetic_ip
    × ((host : String) × (hostname_of p st.route.target_origin ≡ some host)
        × (is_blocked r.blocked_hosts host ≡ false))

IsAllowed-of_IsChecked :
    (p : Platform) (r : Registry) (st : StoredRoute) → IsChecked p r st → IsAllowed p r st
unfolding is_reserved_synthetic_ipv4
IsAllowed-of_IsChecked p r st (origin, reserved, host) = (
  origin,
  four_octets-some p st.route.synthetic_ip (split 46 st.route.synthetic_ip) refl reserved,
  host,
)

-- Every stored route is allowed.
abbrev pub AreChecked : Platform → Registry → Type 0
AreChecked p r = Values (IsAllowed p r) r.routes

create_route-AreChecked :
    (p : Platform) (now : ℕ) (uuid token proxy : String) (input : RouteInput) (r : Registry)
    → AreChecked p r
    → AreChecked p (create_route p now uuid token input proxy r).1
unfolding create_route
create_route-AreChecked p now uuid token proxy input r h =
    elim (Answer-cases (checked_origin p input r)) [
      | inl (o, q) ↦
          let id = "gw-" +++ uuid in
          let all =
            Values-insert (IsAllowed p r) id (stored_route p now id token o input) r.routes h (
              IsAllowed-of_IsChecked p r (stored_route p now id token o input)
                (checked_origin-IsChecked p now id token o input r q)) in
          elim (Answer-cases (normalize_origin p proxy)) [
            | inl (b, k) ↦ rw (q, create_route, k) all
            | inr (e, k) ↦ rw (q, create_route, k) all
          ]
      | inr (e, q) ↦ rw (q, create_route) h
    ]

authorize-AreChecked :
    (p : Platform) (now : ℕ) (id : String) (token run : Option String) (r : Registry)
    → AreChecked p r
    → AreChecked p (authorize p now id token run r).1
unfolding authorize
authorize-AreChecked p now id token run r h = elim (Option-cases (lookup id r.routes)) [
  | inl missing ↦ rw (missing, authorize) h
  | inr (st, found) ↦ elim (Bool-cases (leb st.expires_at_ms now)) [
    | inl late ↦ rw (found, authorize, late) (Values-delete (IsAllowed p r) id r.routes h)
    | inr live ↦ elim (Bool-cases (is_other_run run st.route.run_id)) [
      | inl other ↦ rw (found, authorize, live, other) h
      | inr own ↦ elim (Bool-cases (token_matches p st.token_hash token)) [
        | inl good ↦ rw (found, authorize, live, own, good) h
        | inr bad ↦ rw (found, authorize, live, own, bad) h
      ]
    ]
  ]
]

record_entry-AreChecked :
    (p : Platform) (now : ℕ) (e : Entry) (r : Registry)
    → AreChecked p r
    → AreChecked p (record_entry p now e r).1
unfolding record_entry
record_entry-AreChecked p now e r h = elim (Option-cases (lookup e.route_id r.routes)) [
  | inl missing ↦ rw (missing, record_entry) h
  | inr (st, found) ↦
      let recorded : LedgerEntry = record {
        sequence = r.sequence + 1;
        occurred_at = p.iso now;
        entry = e;
      } in
      rw (found, record_entry)
        (Values-insert (IsAllowed p r) e.route_id
          (record st { ledger = st.ledger ++ (recorded ∷ []) }) r.routes h
          (Values-lookup (IsAllowed p r) e.route_id st r.routes h found))
]

-- A call on the registry, with what the clock and the platform's randomness give it.
pub data Call : Type 0 where
  creating : (now : ℕ) (uuid token proxy : String) (input : RouteInput) → Call
  authorizing : (now : ℕ) (route_id : String) (token run : Option String) → Call
  deleting : (route_id : String) → Call
  recording : (now : ℕ) (entry : Entry) → Call

unfoldable pub serve : Platform → Call → Registry → Registry
unfolding create_route authorize delete_route record_entry
serve p (creating now uuid token proxy input) r = (create_route p now uuid token input proxy r).1
serve p (authorizing now id token run) r = (authorize p now id token run r).1
serve p (deleting id) r = delete_route id r
serve p (recording now e) r = (record_entry p now e r).1

unfoldable pub serve_all : Platform → List Call → Registry → Registry
unfolding serve
serve_all p [] r = r
serve_all p (c ∷ cs) r = serve_all p cs (serve p c r)

serve-AreChecked :
    (p : Platform) (c : Call) (r : Registry) → AreChecked p r → AreChecked p (serve p c r)
unfolding serve delete_route
serve-AreChecked p (creating now uuid token proxy input) r h =
    create_route-AreChecked p now uuid token proxy input r h
serve-AreChecked p (authorizing now id token run) r h = authorize-AreChecked p now id token run r h
serve-AreChecked p (deleting id) r h = Values-delete (IsAllowed p r) id r.routes h
serve-AreChecked p (recording now e) r h = record_entry-AreChecked p now e r h

-- Whatever calls come in whatever order: every route that is stored leads to an allowed origin that
-- is no blocked provider, and its visitor's address has four parts that `Number` reads as at most
-- 255, the first three of which are then written as the first three of a block of RFC 5737, if this
-- holds of the routes at the start.
pub serve_all-AreChecked :
    (p : Platform) (cs : List Call) (r : Registry)
    → AreChecked p r
    → AreChecked p (serve_all p cs r)
unfolding serve_all
serve_all-AreChecked p [] r h = h
serve_all-AreChecked p (c ∷ cs) r h =
    serve_all-AreChecked p cs (serve p c r) (serve-AreChecked p c r h)
