-- ===== src/Gateway/Headers.antt =====
-- packages/traffic-gateway/src/headers.ts. `Headers` is the list of its entries; `lower` stands for
-- `toLowerCase`.
pub mod Attribution
use Prim.Native.String
use testy_mc_testface.Prelude.{
  String, Bool, true, false, ◌||◌, List, [], ◌∷◌, ◌++◌, str_eq, any, select, not, if◌then◌else◌,
  ◌+++◌,
}
use text.Mathlib.Text.{starts_with}

abbrev pub Headers : Type 0
Headers = List (String × String)

abbrev pub hop_by_hop_headers : List String
hop_by_hop_headers =
    "connection" ∷ "keep-alive" ∷ "proxy-authenticate" ∷ "proxy-authorization" ∷ "te" ∷ "trailer"
    ∷ "transfer-encoding" ∷ "upgrade" ∷ []

abbrev pub supplied_attribution_headers : List String
supplied_attribution_headers =
    "forwarded" ∷ "x-forwarded-for" ∷ "x-forwarded-host" ∷ "x-forwarded-port" ∷ "x-forwarded-proto"
    ∷ "x-real-ip" ∷ "x-client-ip" ∷ "true-client-ip" ∷ "cf-connecting-ip" ∷ []

unfoldable pub has : List String → String → Bool
has names name = any (str_eq name) names

-- `headers.set(name, value)`.
unfoldable pub set_header : String → String → Headers → Headers
set_header name value [] = (name, value) ∷ []
set_header name value ((n, v) ∷ rest) =
    let later = set_header name value rest in
    let others = select (λ (e : String × String). not (str_eq e.0 name)) rest in
    if str_eq n name then (name, value) ∷ others else (n, v) ∷ later

unfoldable pub is_dropped : String → Bool
unfolding has
is_dropped name =
    has hop_by_hop_headers name
    || has supplied_attribution_headers name
    || str_eq name "host"
    || str_eq name "content-length"
    || starts_with name "x-testy-"

unfoldable pub forwarded_only : (lower : String → String) → Headers → Headers
unfolding is_dropped
forwarded_only lower [] = []
forwarded_only lower ((name, value) ∷ rest) =
    let kept = forwarded_only lower rest in
    if is_dropped (lower name) then kept else (name, value) ∷ kept

unfoldable pub prepare_forward_headers :
    (lower : String → String) → Headers → (synthetic_ip source_protocol : String) → Headers
unfolding forwarded_only set_header
prepare_forward_headers lower incoming ip protocol =
    set_header "forwarded" ("for=" +++ ip +++ ";proto=" +++ protocol) (
      set_header "x-forwarded-proto" protocol
        (set_header "x-forwarded-for" ip (forwarded_only lower incoming)))

unfoldable pub prepare_response_headers : (lower : String → String) → Headers → Headers
unfolding has
prepare_response_headers lower [] = []
prepare_response_headers lower ((name, value) ∷ rest) =
    let kept = prepare_response_headers lower rest in
    if has hop_by_hop_headers (lower name) || str_eq (lower name) "content-length"
    then kept
    else (name, value) ∷ kept

-- All values of one name.
unfoldable pub values : String → Headers → List String
values name [] = []
values name ((n, v) ∷ rest) =
    let later = values name rest in if str_eq n name then v ∷ later else later
