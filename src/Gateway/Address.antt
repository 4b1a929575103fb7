-- ===== src/Gateway/Address.antt =====
-- packages/traffic-gateway/src/synthetic-ip.ts, errors.ts and what the platform gives. `number` is
-- `Number(text)` where it is a whole number that is not negative; `decimal` writes one.
use testy_mc_testface.Prelude.{
  ℕ, String, Bool, false, ◌||◌, List, [], ◌∷◌, Option, none, some, split, str_eq, leb, ◌+++◌,
  if◌then◌else◌,
}

-- A parsed `URL`.
pub record Url : Type 0 where
  pub protocol : String
  pub username : String
  pub password : String
  pub search : String
  pub hash : String
  pub pathname : String
  pub hostname : String
  pub origin : String

pub record Platform : Type 0 where
  pub parse_url : String → Option Url
  pub lower : String → String
  pub sha256 : String → String
  pub iso : ℕ → String
  pub encode : String → String
  pub number : String → Option ℕ
  pub decimal : ℕ → String

pub record GatewayError : Type 0 where
  pub code : String
  pub status_code : ℕ

pub data Answer {ℓ} (A : Type ℓ) : Type ℓ where
  ok : A → Answer A
  refused : GatewayError → Answer A

abbrev pub gateway_error : String → ℕ → GatewayError
gateway_error code status = record { code = code; status_code = status }

abbrev pub octet : Platform → String → Option ℕ
octet p text = elim (p.number text) [ none ↦ none | some n ↦ if leb n 255 then some n else none ]

abbrev pub is_documentation_prefix : String → Bool
is_documentation_prefix text =
    str_eq text "192.0.2" || str_eq text "198.51.100" || str_eq text "203.0.113"

abbrev pub prefix : Platform → ℕ → ℕ → ℕ → String
prefix p a b c = p.decimal a +++ "." +++ p.decimal b +++ "." +++ p.decimal c

unfoldable pub reserved_octets : Platform → (a b c d : Option ℕ) → Bool
reserved_octets p (some a) (some b) (some c) (some d) = is_documentation_prefix (prefix p a b c)
reserved_octets p _ _ _ _ = false

unfoldable pub four_octets : Platform → List String → Bool
unfolding reserved_octets
four_octets p (a ∷ b ∷ c ∷ d ∷ []) =
    reserved_octets p (octet p a) (octet p b) (octet p c) (octet p d)
four_octets p _ = false

unfoldable pub is_reserved_synthetic_ipv4 : Platform → String → Bool
unfolding split four_octets
is_reserved_synthetic_ipv4 p value = four_octets p (split 46 value)
