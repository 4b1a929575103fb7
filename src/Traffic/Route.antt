-- ===== src/Traffic/Route.antt =====
-- `normalizeRoute` and `buildGatewayRequestUrl` of util.ts.
use testy_mc_testface.Prelude.{
  String, ◌&&◌, ◌||◌, none, some, ◌+++◌, is_empty, leb, ◌==◌, str_eq, text_length, if◌then◌else◌,
}
use Prim.Native.Char.{code}
use testy_mc_testface.Gateway.Address.{Url}
use testy_mc_testface.Traffic.{RouteBinding, Platform}
use testy_mc_testface.Traffic.Results.{Result, ok, ◌>>=◌, ◌>>◌, invalid, require}
use testy_mc_testface.Traffic.Normalize.{normalize_path}

-- `text.replace(/\/$/u, "")`.
unfoldable pub drop_slash : String → String
drop_slash String.[] = ""
drop_slash (String.◌∷◌ c s) =
    let rest = drop_slash s in if code c == b'/' && is_empty s then "" else String.◌∷◌ c rest

module _ (p : Platform) where
  unfoldable pub normalize_route : RouteBinding → Result Url
  unfolding drop_slash text_length
  normalize_route route = do
    url ← elim (p.parse_url route.proxy_base_url) [ none ↦ invalid | some url ↦ ok url ]
    require (str_eq url.protocol "http:" || str_eq url.protocol "https:")
    require
        (is_empty url.username && is_empty url.password && is_empty url.search && is_empty url.hash)
    require (str_eq (drop_slash url.pathname) ("/v1/proxy/" +++ p.encode_component route.route_id))
    require (leb 16 (text_length route.route_token))
    ok url

  unfoldable pub build_gateway_request_url : RouteBinding → (path : String) → Result Url
  unfolding normalize_route normalize_path drop_slash
  build_gateway_request_url route path = do
    base ← normalize_route route
    target ← normalize_path p path
    ok (record base {
      pathname = drop_slash base.pathname +++ target.pathname;
      search = target.search;
    })
