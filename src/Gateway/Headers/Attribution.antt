-- ===== src/Gateway/Headers/Attribution.antt =====
-- Which attribution the headers of a forwarded request carry.
use testy_mc_testface.Prelude.{
  ◌≡◌, ◌≢◌, All, List, false, refl, ap, ◌∙◌, String, true, not, [], ◌∷◌, str_eq, select, eq_iff,
  eq_refl, arith, ◌+++◌, Bool-cases, inl, inr,
}
use testy_mc_testface.Gateway.Headers.{
  Headers, set_header, values, forwarded_only, is_dropped, prepare_forward_headers, has,
}

abbrev others : String → Headers → Headers
others name = select (λ e. not (str_eq e.0 name))

values-others_self : (name : String) (hs : Headers) → values name (others name hs) ≡ []
unfolding values
values-others_self name [] = refl
values-others_self name ((n, v) ∷ hs) = ground (arith, values-others_self name hs)

values-others :
    (name other : String) (hs : Headers)
    → other ≢ name
    → values other (others name hs) ≡ values other hs
unfolding values
values-others name other [] h = refl
values-others name other ((n, v) ∷ hs) h =
    ground (arith, values-others name other hs h, eq_iff n name, eq_iff n other)

values-set_header_self :
    (name value : String) (hs : Headers) → values name (set_header name value hs) ≡ value ∷ []
unfolding values set_header
values-set_header_self name value [] = ground (arith, eq_refl name)
values-set_header_self name value ((n, v) ∷ hs) =
    ground (arith, eq_refl name, values-others_self name hs, values-set_header_self name value hs)

values-set_header :
    (name other value : String) (hs : Headers)
    → other ≢ name
    → values other (set_header name value hs) ≡ values other hs
unfolding values set_header
values-set_header name other value [] h = ground (arith, eq_iff name other)
values-set_header name other value ((n, v) ∷ hs) h = ground (
  arith,
  eq_iff n name,
  eq_iff n other,
  eq_iff name other,
  values-others name other hs h,
  values-set_header name other value hs h,
)

-- A name that is dropped, and that lower case leaves as it is, does not come through.
values-forwarded_only :
    (lower : String → String) (name : String) (hs : Headers)
    → lower name ≡ name
    → is_dropped name ≡ true
    → values name (forwarded_only lower hs) ≡ []
unfolding values forwarded_only
values-forwarded_only lower name [] e d = refl
values-forwarded_only lower name ((n, v) ∷ hs) e d =
    let ih = values-forwarded_only lower name hs e d in
    elim (Bool-cases (is_dropped (lower n))) [
      | inl hit ↦ rw (hit, forwarded_only) ih
      | inr miss ↦
          rw (miss, forwarded_only)
            (elim (Bool-cases (str_eq n name)) [
              | inl same ↦
                  let q : n ≡ name = (eq_iff n name).0 same in cc (ap is_dropped (ap lower q ∙ e))
              | inr other ↦ rw (other, values) ih
            ])
    ]

-- The headers, besides the three that the gateway writes, in which proxies and networks name where a
-- request comes from: the list is the document's, without the names that `X-Forwarded-*` leaves open.
abbrev pub origin_headers : List String
origin_headers =
    "x-forwarded-host" ∷ "x-forwarded-port" ∷ "x-real-ip" ∷ "x-client-ip" ∷ "true-client-ip"
    ∷ "cf-connecting-ip" ∷ []

differ : (a b : String) → str_eq a b ≡ false → a ≢ b
differ a b h e = ground (arith, eq_iff a b)

-- A name that is dropped and is not set again does not go out.
goes_nowhere :
    (lower : String → String) (incoming : Headers) (ip protocol name : String)
    → (is_dropped name ≡ true)
      × (str_eq name "x-forwarded-for" ≡ false)
      × (str_eq name "x-forwarded-proto" ≡ false)
      × (str_eq name "forwarded" ≡ false)
    → lower name ≡ name
    → values name (prepare_forward_headers lower incoming ip protocol) ≡ []
unfolding prepare_forward_headers
goes_nowhere lower incoming ip protocol name (d, a, b, c) e =
    let kept = forwarded_only lower incoming in
    let one = set_header "x-forwarded-for" ip kept in
    let two = set_header "x-forwarded-proto" protocol one in
    let text = "for=" +++ ip +++ ";proto=" +++ protocol in
    values-set_header "forwarded" name text two (differ name "forwarded" c)
    ∙ values-set_header "x-forwarded-proto" name protocol one (differ name "x-forwarded-proto" b)
    ∙ values-set_header "x-forwarded-for" name ip kept (differ name "x-forwarded-for" a)
    ∙ values-forwarded_only lower name incoming e d

go_nowhere :
    (lower : String → String) (incoming : Headers) (ip protocol : String) (names : List String)
    → All
        (λ name.
          (is_dropped name ≡ true)
          × (str_eq name "x-forwarded-for" ≡ false)
          × (str_eq name "x-forwarded-proto" ≡ false)
          × (str_eq name "forwarded" ≡ false))
        names
    → All (λ name. lower name ≡ name) names
    → All (λ name. values name (prepare_forward_headers lower incoming ip protocol) ≡ []) names
go_nowhere lower incoming ip protocol [] d e = tt
go_nowhere lower incoming ip protocol (name ∷ rest) (d, ds) (e, es) = (
  goes_nowhere lower incoming ip protocol name d e,
  go_nowhere lower incoming ip protocol rest ds es,
)

-- Whatever headers come in, the request that goes out has exactly one value each for
-- `x-forwarded-for`, `x-forwarded-proto` and `forwarded`, those of the synthetic visitor, and none
-- for `x-forwarded-host`, `x-forwarded-port`, `x-real-ip`, `x-client-ip`, `true-client-ip` and
-- `cf-connecting-ip`, if lower case leaves these names as they are.
pub prepare_forward_headers_attribution :
    (lower : String → String) (incoming : Headers) (ip protocol : String)
    → All (λ name. lower name ≡ name) origin_headers
    → let out = prepare_forward_headers lower incoming ip protocol in
      (values "x-forwarded-for" out ≡ ip ∷ [])
      × (values "x-forwarded-proto" out ≡ protocol ∷ [])
      × (values "forwarded" out ≡ ("for=" +++ ip +++ ";proto=" +++ protocol) ∷ [])
      × All (λ name. values name out ≡ []) origin_headers
unfolding prepare_forward_headers is_dropped has
prepare_forward_headers_attribution lower incoming ip protocol e =
    let kept = forwarded_only lower incoming in
    let one = set_header "x-forwarded-for" ip kept in
    let two = set_header "x-forwarded-proto" protocol one in
    let text = "for=" +++ ip +++ ";proto=" +++ protocol in
    (
      values-set_header "forwarded" "x-forwarded-for" text two
            (differ "x-forwarded-for" "forwarded" refl)
          ∙ values-set_header "x-forwarded-proto" "x-forwarded-for" protocol one
              (differ "x-forwarded-for" "x-forwarded-proto" refl)
          ∙ values-set_header_self "x-forwarded-for" ip kept,
      values-set_header "forwarded" "x-forwarded-proto" text two
            (differ "x-forwarded-proto" "forwarded" refl)
          ∙ values-set_header_self "x-forwarded-proto" protocol one,
      values-set_header_self "forwarded" text two,
      go_nowhere lower incoming ip protocol origin_headers
          (
            (refl, refl, refl, refl),
            (
              (refl, refl, refl, refl),
              (
                (refl, refl, refl, refl),
                (
                  (refl, refl, refl, refl),
                  ((refl, refl, refl, refl), ((refl, refl, refl, refl), tt)),
                ),
              ),
            ),
          )
          e,
    )
