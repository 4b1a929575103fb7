-- ===== src/Gateway/Tests.antt =====
-- A gateway with one allowed origin.
use testy_mc_testface.Prelude.{
  ◌≡◌, refl, All, ℕ, pos, String, true, [], ◌∷◌, none, some, str_eq, any, lookup, insert, delete,
  split, arith, ◌+++◌, Option, if◌then◌else◌, ◌==◌,
}
use testy_mc_testface.Gateway.Headers.{
  Headers, prepare_forward_headers, forwarded_only, set_header, values, is_dropped, has,
}
use testy_mc_testface.Gateway.Headers.Attribution.{
  origin_headers, prepare_forward_headers_attribution,
}
use testy_mc_testface.Gateway.Address.{
  Platform, ok, refused, gateway_error, is_reserved_synthetic_ipv4,
}
use testy_mc_testface.Gateway.Registry.{
  Registry, RouteInput, StoredRoute, RouteBinding, create_route, authorize, normalize_origin,
  stored_route, hostname_of, is_blocked, checked_origin, token_matches,
}
use testy_mc_testface.Gateway.Registry.Routes.{authorize_expired, create_route-authorize}
use testy_mc_testface.Gateway.Registry.Checked.{
  creating, authorizing, AreChecked, serve_all, serve_all-AreChecked,
}

abbrev octet_value : String → Option ℕ
octet_value text =
    if str_eq text "203"
    then some 203
    else if str_eq text "0"
    then some 0
    else if str_eq text "113"
    then some 113
    else if str_eq text "9"
    then some 9
    else none

abbrev digits : ℕ → String
digits n = if n == 203 then "203" else if n == 0 then "0" else if n == 113 then "113" else "9"

-- Every text is an origin of its own, without a path.
abbrev platform : Platform
platform = record {
  parse_url = λ text. some (record {
    protocol = "http:";
    username = "";
    password = "";
    search = "";
    hash = "";
    pathname = "/";
    hostname = "site.test";
    origin = text;
  });
  lower = λ text. text;
  sha256 = λ text. text;
  iso = λ _. "later";
  encode = λ text. text;
  number = octet_value;
  decimal = digits;
}

abbrev empty : Registry
empty = record {
  routes = [];
  allowed_origins = "http://site.test" ∷ [];
  blocked_hosts = "hunter.io" ∷ [];
  max_route_ttl_ms = 100;
  sequence = 0;
}

abbrev input : RouteInput
input = record {
  run_id = "run";
  target_origin = "http://site.test";
  synthetic_ip = "203.0.113.9";
  ttl_ms = pos 50;
}

abbrev stored : StoredRoute
stored = stored_route platform 7 "gw-1" "secret" "http://site.test" input

abbrev filled : Registry
filled = record empty { routes = ("gw-1", stored) ∷ [] }

abbrev bound : RouteBinding
bound = record {
  route_id = "gw-1";
  run_id = "run";
  proxy_base_url = "http://proxy/v1/proxy/gw-1";
  route_token = "secret";
  expires_at = "later";
  target_origin_fingerprint = "http://site.test";
  synthetic_ip_fingerprint = "203.0.113.9";
}

gateway : Unit {0}
unfolding create_route checked_origin normalize_origin hostname_of is_blocked
    is_reserved_synthetic_ipv4 split lookup insert delete authorize token_matches has
gateway = tt

makes : create_route platform 7 "1" "secret" input "http://proxy" empty ≡ (ok bound, filled)
unfolding gateway
makes = refl

create_route-authorize_example :
    (origin : String) × (normalize_origin platform "http://site.test" ≡ ok origin)
    × (any (str_eq origin) empty.allowed_origins ≡ true)
    × (authorize platform 9 "gw-1" (some "secret") (some "run") filled
        ≡ (ok (stored_route platform 7 "gw-1" "secret" origin input).route, filled))
create_route-authorize_example =
    create_route-authorize platform 7 9 "1" "secret" "http://proxy" bound input empty filled makes
      (omega arith) refl

finds : lookup "gw-1" filled.routes ≡ some stored
unfolding gateway
finds = refl

authorize_expired_example :
    let first = authorize platform 57 "gw-1" (some "secret") none filled in
    (first.0 ≡ refused (gateway_error "route-expired" 410))
    × (authorize platform 57 "gw-1" (some "secret") none first.1
        ≡ (refused (gateway_error "route-not-found" 404), first.1))
authorize_expired_example =
    authorize_expired platform 57 57 "gw-1" (some "secret") none (some "secret") none filled stored
      finds (omega arith)

serve_all-AreChecked_example : AreChecked platform (
    serve_all platform
      (creating 7 "1" "secret" "http://proxy" input
        ∷ authorizing 9 "gw-1" (some "secret") none
        ∷ [])
      empty)
serve_all-AreChecked_example =
    serve_all-AreChecked platform
      (creating 7 "1" "secret" "http://proxy" input
        ∷ authorizing 9 "gw-1" (some "secret") none
        ∷ [])
      empty tt

abbrev claimed : Headers
claimed = ("x-real-ip", "10.0.0.1") ∷ ("accept", "any") ∷ []

prepare_forward_headers_attribution_example :
    let out = prepare_forward_headers (λ t. t) claimed "203.0.113.9" "http" in
    (values "x-forwarded-for" out ≡ "203.0.113.9" ∷ [])
    × (values "x-forwarded-proto" out ≡ "http" ∷ [])
    × (values "forwarded" out ≡ ("for=" +++ "203.0.113.9" +++ ";proto=" +++ "http") ∷ [])
    × All (λ name. values name out ≡ []) origin_headers
prepare_forward_headers_attribution_example =
    prepare_forward_headers_attribution (λ t. t) claimed "203.0.113.9" "http"
      (refl, (refl, (refl, (refl, (refl, (refl, tt))))))

-- A header that the list of the code does not name goes through.
forwarded_server :
    values "x-forwarded-server"
      (prepare_forward_headers (λ t. t) (("x-forwarded-server", "a") ∷ []) "203.0.113.9" "http")
    ≡ "a" ∷ []
unfolding values prepare_forward_headers forwarded_only set_header is_dropped has
forwarded_server = refl
