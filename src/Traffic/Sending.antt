-- ===== src/Traffic/Sending.antt =====
-- The headers of what is sent.
use testy_mc_testface.Prelude.{
  ◌≡◌, refl, ◌∙◌, ap, String, some, Table, lookup, insert, lookup-insert, lookup-insert_self,
  Bool-cases, inl, inr,
}
use testy_mc_testface.Traffic.{RequestDefinition, RouteBinding, Platform}
use testy_mc_testface.Traffic.Results.{
  ok, Returns, returns, fails, after-Returns, Returns-any, Returns-ok,
}
use testy_mc_testface.Traffic.Limits.{Limits}
use testy_mc_testface.Traffic.Normalize.{set_header}
use testy_mc_testface.Traffic.Request.{NormalizedRequest, normalize_request}
use testy_mc_testface.Traffic.Route.{build_gateway_request_url}
use testy_mc_testface.Traffic.Attempts.{Sent, sent_of}
use testy_mc_testface.Traffic.FreeNames.{IsFree, HasFreeNames, normalize_request-Returns}

module _ (p : Platform) where
  set_header-inserts :
      (name value : String) (headers : Table String)
      → p.lower name ≡ name
      → Returns
          (λ t. t ≡ insert name (p.header_value value) headers)
          (set_header p name value headers)
  unfolding set_header
  set_header-inserts name value headers small = elim (Bool-cases (p.is_header name value)) [
    | inl fits ↦ rw (fits, small) (returns refl)
    | inr odd ↦ rw odd fails
  ]

  -- What is sent for a request carries the token of the route and the identity of its run, with the
  -- request's method and body.
  pub record IsAttributed (route : RouteBinding) (q : NormalizedRequest) (sent : Sent)
      : Type 0 where
    pub token : lookup "x-testy-route-token" sent.headers ≡ some (p.header_value route.route_token)
    pub run : lookup "x-testy-run-id" sent.headers ≡ some (p.header_value route.run_id)
    pub same_method : sent.method ≡ q.method
    pub same_body : sent.body ≡ q.body

  sent_of-Returns :
      (limits : Limits) (route : RouteBinding) (q : NormalizedRequest)
      → p.lower "x-testy-route-token" ≡ "x-testy-route-token"
      → p.lower "x-testy-run-id" ≡ "x-testy-run-id"
      → Returns (IsAttributed route q) (sent_of p limits route q)
  unfolding sent_of
  sent_of-Returns limits route q token run =
      let target = build_gateway_request_url p route q.path in
      after-Returns target (Returns-any target) λ _ _.
        after-Returns (set_header p "x-testy-route-token" route.route_token q.headers)
          (set_header-inserts "x-testy-route-token" route.route_token q.headers token)
          λ t1 s1.
            after-Returns (set_header p "x-testy-run-id" route.run_id t1)
              (set_header-inserts "x-testy-run-id" route.run_id t1 run)
              λ t2 s2. returns (record {
                token =
                    ap (lookup "x-testy-route-token") s2
                    ∙ lookup-insert "x-testy-run-id" "x-testy-route-token"
                        (p.header_value route.run_id) t1
                    ∙ ap (lookup "x-testy-route-token") s1
                    ∙ lookup-insert_self "x-testy-route-token" (p.header_value route.route_token)
                        q.headers;
                run =
                    ap (lookup "x-testy-run-id") s2
                    ∙ lookup-insert_self "x-testy-run-id" (p.header_value route.run_id) t1;
                same_method = refl;
                same_body = refl;
              })

  -- Of a request that is accepted and sent: no header that it sets itself has the name of a secret or
  -- one that the platform keeps for itself, and what is sent carries the token of the route and the
  -- run, the method and the body. The names that the generator sets are taken to be in lower case already, and `content-type` and
  -- `idempotency-key` to be no secrets.
  pub sent_of-IsAttributed :
      (limits : Limits) (route : RouteBinding) (value : RequestDefinition) (q : NormalizedRequest)
      (sent : Sent)
      → IsFree (p.lower "content-type")
      → IsFree (p.lower "idempotency-key")
      → p.lower "x-testy-route-token" ≡ "x-testy-route-token"
      → p.lower "x-testy-run-id" ≡ "x-testy-run-id"
      → normalize_request p value limits ≡ ok q
      → sent_of p limits route q ≡ ok sent
      → HasFreeNames q.headers × IsAttributed route q sent
  sent_of-IsAttributed limits route value q sent content idempotency token run accepted made = (
    Returns-ok (normalize_request-Returns p content idempotency value limits) accepted,
    Returns-ok (sent_of-Returns limits route q token run) made,
  )
