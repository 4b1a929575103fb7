-- ===== src/Gateway/Registry/Routes.antt =====
-- What a stored route promises to those that ask for it.
use testy_mc_testface.Prelude.{
  ◌≡◌, ◌⊎◌, refl, ap, ◌∙◌, ℕ, ◌+◌, ◌≤◌, ◌<◌, String, true, false, Option, none, some, arith, str_eq,
  any, lookup, insert, delete, lookup-insert_self, lookup-delete, eq_refl, ◌+++◌, Option-cases, inl,
  inr, is_empty, leb,
}
use testy_mc_testface.Gateway.Address.{
  Platform, GatewayError, Answer, ok, refused, gateway_error, is_reserved_synthetic_ipv4,
}
use testy_mc_testface.Gateway.Registry.{
  Registry, RouteInput, StoredRoute, RouteBinding, hostname_of, is_blocked, stored_route, millis,
  normalize_origin, checked_origin, create_route, authorize, token_matches,
}

authorize_missing :
    (p : Platform) (now : ℕ) (id : String) (token run : Option String) (r : Registry)
    → lookup id r.routes ≡ none
    → authorize p now id token run r ≡ (refused (gateway_error "route-not-found" 404), r)
unfolding authorize
authorize_missing p now id token run r h = rw (h, authorize) refl

authorize_late :
    (p : Platform) (now : ℕ) (id : String) (token run : Option String) (r : Registry)
    (st : StoredRoute)
    → lookup id r.routes ≡ some st
    → st.expires_at_ms ≤ now
    → authorize p now id token run r
      ≡ (refused (gateway_error "route-expired" 410), record r { routes = delete id r.routes })
unfolding authorize
authorize_late p now id token run r st found over =
    let late : leb st.expires_at_ms now ≡ true = ground (arith, over) in
    rw (found, authorize, late) refl

-- An expired route is refused as expired once, whatever is offered, and is gone afterwards.
pub authorize_expired :
    (p : Platform) (now later : ℕ) (id : String) (token run token' run' : Option String)
    (r : Registry) (st : StoredRoute)
    → lookup id r.routes ≡ some st
    → st.expires_at_ms ≤ now
    → let first = authorize p now id token run r in
      (first.0 ≡ refused (gateway_error "route-expired" 410))
      × (authorize p later id token' run' first.1
          ≡ (refused (gateway_error "route-not-found" 404), first.1))
authorize_expired p now later id token run token' run' r st found over =
    let gone : lookup id (delete id r.routes) ≡ none =
      rw (lookup-delete id id r.routes, eq_refl id) refl in
    rw (authorize_late p now id token run r st found over) (
      refl,
      authorize_missing p later id token' run' (record r { routes = delete id r.routes }) gone,
    )

-- What `createRoute` has checked of a stored route.
abbrev pub IsChecked : Platform → Registry → StoredRoute → Type 0
IsChecked p r st =
    (any (str_eq st.route.target_origin) r.allowed_origins ≡ true)
    × (is_reserved_synthetic_ipv4 p st.route.synthetic_ip ≡ true)
    × ((host : String) × (hostname_of p st.route.target_origin ≡ some host)
        × (is_blocked r.blocked_hosts host ≡ false))

pub checked_origin-IsChecked :
    (p : Platform) (now : ℕ) (id token origin : String) (input : RouteInput) (r : Registry)
    → checked_origin p input r ≡ ok origin
    → IsChecked p r (stored_route p now id token origin input)
unfolding checked_origin
checked_origin-IsChecked p now id token origin input r h =
    elim (Option-cases (hostname_of p origin)) [
      | inl missing ↦ ground (arith, h, missing)
      | inr (host, q) ↦
          (ground (arith, h, q), ground (arith, h, q), (host, q, ground (arith, h, q)))
    ]

pub Answer-cases {ℓ} :
    {A : Type ℓ} (x : Answer A) → ((a : A) × (x ≡ ok a)) ⊎ ((e : GatewayError) × (x ≡ refused e))
Answer-cases (ok a) = inl (a, refl)
Answer-cases (refused e) = inr (e, refl)

checked_origin-normalized :
    (p : Platform) (origin : String) (input : RouteInput) (r : Registry)
    → checked_origin p input r ≡ ok origin
    → normalize_origin p input.target_origin ≡ ok origin
unfolding checked_origin
checked_origin-normalized p origin input r h =
    elim (Answer-cases (normalize_origin p input.target_origin)) [
      | inl (o, q) ↦ ground (arith, h, q)
      | inr (e, q) ↦ ground (arith, h, q)
    ]

-- The registry after a route was made.
abbrev with_route : Platform → ℕ → (uuid token origin : String) → RouteInput → Registry → Registry
with_route p now uuid token origin input r =
    let id = "gw-" +++ uuid in
    record r { routes = insert id (stored_route p now id token origin input) r.routes }

create_route-Stored :
    (p : Platform) (now : ℕ) (uuid token proxy : String) (binding : RouteBinding)
    (input : RouteInput) (r s : Registry)
    → create_route p now uuid token input proxy r ≡ (ok binding, s)
    → (origin : String) × (checked_origin p input r ≡ ok origin)
      × (s ≡ with_route p now uuid token origin input r)
unfolding create_route
create_route-Stored p now uuid token proxy binding input r s h =
    elim (Answer-cases (checked_origin p input r)) [
      | inl (o, q) ↦ elim (Answer-cases (normalize_origin p proxy)) [
        | inl (b, k) ↦ (o, q, ground (arith, h, q, k))
        | inr (e, k) ↦ (o, q, ground (arith, h, q, k))
      ]
      | inr (e, q) ↦ ground (arith, h, q)
    ]

authorize_live :
    (p : Platform) (now : ℕ) (id token : String) (r : Registry) (st : StoredRoute)
    → lookup id r.routes ≡ some st
    → now < st.expires_at_ms
    → st.token_hash ≡ p.sha256 token
    → is_empty token ≡ false
    → authorize p now id (some token) (some st.route.run_id) r ≡ (ok st.route, r)
unfolding authorize token_matches
authorize_live p now id token r st found early same filled =
    let live : leb st.expires_at_ms now ≡ false = ground (arith, early) in
    rw (found, authorize, live, eq_refl st.route.run_id, same, eq_refl (p.sha256 token), filled)
      refl

-- Where `createRoute` succeeds, the target is an allowed origin that the proxy's checks accept, and
-- until the route expires the run it was made for is let through with its token, to that origin and
-- as that visitor.
pub create_route-authorize :
    (p : Platform) (now later : ℕ) (uuid token proxy : String) (binding : RouteBinding)
    (input : RouteInput) (r s : Registry)
    → create_route p now uuid token input proxy r ≡ (ok binding, s)
    → later < now + millis input.ttl_ms
    → is_empty token ≡ false
    → (origin : String) × (normalize_origin p input.target_origin ≡ ok origin)
      × (any (str_eq origin) r.allowed_origins ≡ true)
      × (authorize p later ("gw-" +++ uuid) (some token) (some input.run_id) s
          ≡ (ok (stored_route p now ("gw-" +++ uuid) token origin input).route, s))
create_route-authorize p now later uuid token proxy binding input r s made early some_token =
    let (origin, good, same) = create_route-Stored p now uuid token proxy binding input r s made in
    let id = "gw-" +++ uuid in
    let st = stored_route p now id token origin input in
    (
      origin,
      checked_origin-normalized p origin input r good,
      (checked_origin-IsChecked p now id token origin input r good).0,
      authorize_live p later id token s st
          (ap (λ (x : Registry). lookup id x.routes) same ∙ lookup-insert_self id st r.routes) early
          refl some_token,
    )
