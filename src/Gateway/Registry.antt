-- ===== src/Gateway/Registry.antt =====
-- packages/traffic-gateway/src/registry.ts, with types.ts and crypto.ts. A route identity and a token
-- come from the platform's randomness and are arguments, as is the time in milliseconds. A digest is
-- a text of lower-case digits, so comparing the bytes compares the texts.
pub mod Routes
pub mod Documentation
pub mod Checked
use Prim.Native.String
use testy_mc_testface.Prelude.{
  ℕ, ℤ, pos, negsuc, ◌+◌, String, Bool, true, false, not, ◌||◌, ◌&&◌, List, [], ◌∷◌, ◌++◌, Option,
  none, some, map, str_eq, leb, any, is_empty, Table, lookup, insert, delete, if◌then◌else◌, ◌+++◌,
}
use testy_mc_testface.Gateway.Address.{
  Platform, Url, GatewayError, Answer, ok, refused, gateway_error, is_reserved_synthetic_ipv4,
}

pub data Outcome : Type 0 where
  forwarded : Outcome
  rejected : Outcome
  failed : Outcome

pub record Entry : Type 0 where
  pub route_id : String
  pub run_id : String
  pub method : String
  pub path_fingerprint : String
  pub target_origin_fingerprint : String
  pub synthetic_ip_fingerprint : String
  pub request_body_fingerprint : Option String
  pub status_code : Option ℕ
  pub duration_ms : ℕ
  pub outcome : Outcome
  pub reason : Option String

pub record LedgerEntry : Type 0 where
  pub sequence : ℕ
  pub occurred_at : String
  pub entry : Entry

pub record AuthorizedRoute : Type 0 where
  pub route_id : String
  pub run_id : String
  pub target_origin : String
  pub synthetic_ip : String
  pub expires_at : String
  pub target_origin_fingerprint : String
  pub synthetic_ip_fingerprint : String

pub record StoredRoute : Type 0 where
  pub route : AuthorizedRoute
  pub token_hash : String
  pub expires_at_ms : ℕ
  pub ledger : List LedgerEntry

pub record RouteBinding : Type 0 where
  pub route_id : String
  pub run_id : String
  pub proxy_base_url : String
  pub route_token : String
  pub expires_at : String
  pub target_origin_fingerprint : String
  pub synthetic_ip_fingerprint : String

pub record RouteInput : Type 0 where
  pub run_id : String
  pub target_origin : String
  pub synthetic_ip : String
  pub ttl_ms : ℤ

pub record Registry : Type 0 where
  pub routes : Table StoredRoute
  pub allowed_origins : List String
  pub blocked_hosts : List String
  pub max_route_ttl_ms : ℕ
  pub sequence : ℕ

unfoldable pub token_matches : Platform → (expected_hash : String) → (token : Option String) → Bool
token_matches p expected none = false
token_matches p expected (some token) = not (is_empty token) && str_eq (p.sha256 token) expected

abbrev pub is_bare : Url → Bool
is_bare url =
    is_empty url.username
    && is_empty url.password
    && is_empty url.search
    && is_empty url.hash
    && (is_empty url.pathname || str_eq url.pathname "/")

unfoldable pub normalize_origin : Platform → String → Answer String
normalize_origin p value = elim (p.parse_url value) [
  | none ↦ refused (gateway_error "origin-invalid" 400)
  | some url ↦
      if not (str_eq url.protocol "http:" || str_eq url.protocol "https:")
      then refused (gateway_error "origin-protocol-invalid" 400)
      else if is_bare url
      then ok url.origin
      else refused (gateway_error "origin-invalid" 400)
]

-- `new URL(origin).hostname.toLowerCase()`; the constructor throws where the text is no URL.
unfoldable pub hostname_of : Platform → String → Option String
hostname_of p origin = elim (p.parse_url origin) [
  | none ↦ none
  | some url ↦ some (p.lower url.hostname)
]

abbrev pub ends_with : String → String → Bool
ends_with String.[] t = is_empty t
ends_with (String.◌∷◌ c s) t = str_eq (String.◌∷◌ c s) t || ends_with s t

unfoldable pub is_blocked : List String → String → Bool
is_blocked blocked hostname = any (λ b. str_eq hostname b || ends_with hostname ("." +++ b)) blocked

abbrev pub ttl_within : ℕ → ℤ → Bool
ttl_within max (pos n) = leb 1 n && leb n max
ttl_within max (negsuc _) = false

abbrev pub millis : ℤ → ℕ
millis (pos n) = n
millis (negsuc _) = 0

abbrev pub stored_route :
    Platform → (now : ℕ) → (route_id token target_origin : String) → RouteInput → StoredRoute
stored_route p now id token origin input = record {
  route = record {
    route_id = id;
    run_id = input.run_id;
    target_origin = origin;
    synthetic_ip = input.synthetic_ip;
    expires_at = p.iso (now + millis input.ttl_ms);
    target_origin_fingerprint = p.sha256 origin;
    synthetic_ip_fingerprint = p.sha256 input.synthetic_ip;
  };
  token_hash = p.sha256 token;
  expires_at_ms = now + millis input.ttl_ms;
  ledger = [];
}

-- The checks of `createRoute` (an origin that is no URL is a plain TypeError) up to the target origin, which they answer.
unfoldable pub checked_origin : Platform → RouteInput → Registry → Answer String
unfolding normalize_origin hostname_of is_blocked is_reserved_synthetic_ipv4
checked_origin p input r =
    if not (is_reserved_synthetic_ipv4 p input.synthetic_ip)
    then refused (gateway_error "synthetic-ip-not-reserved" 400)
    else if not (ttl_within r.max_route_ttl_ms input.ttl_ms)
    then refused (gateway_error "route-ttl-invalid" 400)
    else elim (normalize_origin p input.target_origin) [
      | refused e ↦ refused e
      | ok origin ↦ elim (hostname_of p origin) [
        | none ↦ refused (gateway_error "TypeError" 500)
        | some hostname ↦
            if is_blocked r.blocked_hosts hostname
            then refused (gateway_error "provider-destination-blocked" 403)
            else if any (str_eq origin) r.allowed_origins
            then ok origin
            else refused (gateway_error "target-origin-not-allowed" 403)
      ]
    ]

-- The route is stored before the proxy's own origin is checked.
unfoldable pub create_route :
    Platform
    → (now : ℕ) → (uuid token : String) → RouteInput
    → (proxy_origin : String) → Registry
    → Answer RouteBinding × Registry
unfolding checked_origin
create_route p now uuid token input proxy r = elim (checked_origin p input r) [
  | refused e ↦ (refused e, r)
  | ok origin ↦
      let id = "gw-" +++ uuid in
      let st = stored_route p now id token origin input in
      let s : Registry = record r { routes = insert id st r.routes } in
      elim (normalize_origin p proxy) [
        | refused e ↦ (refused e, s)
        | ok base ↦ (
          ok (record {
            route_id = id;
            run_id = input.run_id;
            proxy_base_url = base +++ "/v1/proxy/" +++ p.encode id;
            route_token = token;
            expires_at = st.route.expires_at;
            target_origin_fingerprint = st.route.target_origin_fingerprint;
            synthetic_ip_fingerprint = st.route.synthetic_ip_fingerprint;
          }),
          s,
        )
      ]
]

abbrev pub is_other_run : Option String → String → Bool
is_other_run none run = false
is_other_run (some r) run = not (str_eq r run)

unfoldable pub authorize :
    Platform
    → (now : ℕ) → (route_id : String) → (token run_id : Option String) → Registry
    → Answer AuthorizedRoute × Registry
unfolding lookup delete token_matches
authorize p now id token run r = elim (lookup id r.routes) [
  | none ↦ (refused (gateway_error "route-not-found" 404), r)
  | some st ↦
      if leb st.expires_at_ms now
      then (refused (gateway_error "route-expired" 410), record r { routes = delete id r.routes })
      else if is_other_run run st.route.run_id
      then (refused (gateway_error "route-run-mismatch" 409), r)
      else if not (token_matches p st.token_hash token)
      then (refused (gateway_error "route-token-invalid" 401), r)
      else (ok st.route, r)
]

unfoldable pub delete_route : (route_id : String) → Registry → Registry
unfolding delete
delete_route id r = record r { routes = delete id r.routes }

unfoldable pub list_ledger : (route_id : String) → Registry → List LedgerEntry
unfolding lookup
list_ledger id r = elim (lookup id r.routes) [ none ↦ [] | some st ↦ st.ledger ]

unfoldable pub record_entry : Platform → (now : ℕ) → Entry → Registry → LedgerEntry × Registry
unfolding lookup insert
record_entry p now e r =
    let next = r.sequence + 1 in
    let recorded : LedgerEntry = record { sequence = next; occurred_at = p.iso now; entry = e } in
    elim (lookup e.route_id r.routes) [
      | none ↦ (recorded, record r { sequence = next })
      | some st ↦ (
        recorded,
        record r {
          sequence = next;
          routes = insert e.route_id (record st { ledger = st.ledger ++ (recorded ∷ []) }) r.routes;
        },
      )
    ]
