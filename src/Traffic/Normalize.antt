-- ===== src/Traffic/Normalize.antt =====
-- The parts of a request that util.ts checks: path, headers, body, retries and expectation.
use Prim.Native.Char.{code}
use Prim.Native.String.{String}
use testy_mc_testface.Prelude.{
  ℕ, Bool, true, false, not, ◌&&◌, ◌||◌, List, [], ◌∷◌, Option, none, some, is_some, is_empty, leb,
  ◌==◌, str_eq, any, length, text_length, Table, lookup, insert, if◌then◌else◌,
}
use text.Mathlib.Text.{starts_with}
use testy_mc_testface.Gateway.Address.{Url}
use testy_mc_testface.VendorRuntime.Ledger.Text.{from_part}
use testy_mc_testface.Traffic.{RequestBody, json, malformed_json, form, raw, foreign, Platform}
use testy_mc_testface.Traffic.Results.{Result, ok, err, ◌>>=◌, ◌>>◌, invalid, require}

abbrev is_letter : ℕ → Bool
is_letter c = leb b'a' c && leb c b'z'

abbrev is_id_char : ℕ → Bool
is_id_char c = is_letter c || leb b'0' c && leb c b'9' || c == b'-'

unfoldable pub all_id_chars : String → Bool
all_id_chars String.[] = true
all_id_chars (String.◌∷◌ c s) = is_id_char (code c) && all_id_chars s

-- `requestIdPattern.test(value)`.
unfoldable pub is_identifier : String → Bool
unfolding all_id_chars text_length
is_identifier String.[] = false
is_identifier (String.◌∷◌ c s) = is_letter (code c) && all_id_chars s && leb (text_length s) 63

unfoldable pub assert_identifier : String → Result String
unfolding is_identifier
assert_identifier value = do require (is_identifier value); ok value

abbrev pub origin_of_paths : String
origin_of_paths = "http://traffic.invalid"

-- The long s, which the pattern of sensitive headers takes for an s.
unfoldable pub fold_case : String → String
fold_case String.[] = ""
fold_case (String.◌∷◌ c s) = String.◌∷◌ (if code c == 0x17f then "s" else c) (fold_case s)

abbrev includes : (part text : String) → Bool
includes part text = is_some (from_part part text)

-- `sensitiveHeader.test(name)`.
unfoldable pub is_sensitive : (name : String) → Bool
unfolding from_part fold_case
is_sensitive name =
    any (λ (part : String). includes part (fold_case name))
      ("authorization" ∷ "cookie" ∷ "password" ∷ "secret" ∷ "apikey" ∷ "api-key" ∷ "api_key"
        ∷ "token" ∷ [])

abbrev pub protected_headers : List String
protected_headers =
    "connection" ∷ "content-length" ∷ "host" ∷ "keep-alive" ∷ "proxy-authenticate"
    ∷ "proxy-authorization" ∷ "te" ∷ "trailer" ∷ "transfer-encoding" ∷ "upgrade"
    ∷ "x-testy-route-token" ∷ "x-testy-run-id" ∷ []

unfoldable pub is_protected : (name : String) → Bool
is_protected name = any (str_eq name) protected_headers

unfoldable pub has_break : String → Bool
has_break String.[] = false
has_break (String.◌∷◌ c s) = code c == 13 || code c == 10 || code c == 0 || has_break s

unfoldable pub assert_bounded_header_value : String → (maximum : ℕ) → Result (Unit {0})
unfolding text_length has_break
assert_bounded_header_value value maximum =
    require (not (is_empty value) && leb (text_length value) maximum && not (has_break value))

abbrev pub or_invalid {ℓ} : {A : Type ℓ} → Result A → Result A
or_invalid (ok a) = ok a
or_invalid (err _) = invalid

unfoldable pub has_header : String → Table String → Bool
unfolding lookup
has_header name headers = is_some (lookup name headers)

module _ (p : Platform) where
  unfoldable pub normalize_path : String → Result Url
  unfolding text_length
  normalize_path value = do
    require (not (is_empty value) && leb (text_length value) 2048 && starts_with value "/")
    selected ← elim (p.parse_path origin_of_paths value) [ none ↦ invalid | some url ↦ ok url ]
    require (str_eq selected.origin origin_of_paths && is_empty selected.hash)
    ok selected

  -- `headers.set(name, value)`, which throws a TypeError.
  unfoldable pub set_header : (name value : String) → Table String → Result (Table String)
  unfolding insert
  set_header name value headers =
      if p.is_header name value
      then ok (insert (p.lower name) (p.header_value value) headers)
      else err (foreign none)

  unfoldable pub normalize_header : (name value : String) → Table String → Result (Table String)
  unfolding is_sensitive is_protected text_length assert_bounded_header_value set_header
  normalize_header name value headers = do
    require (not (is_sensitive (p.lower name)))
    require (not (is_protected (p.lower name)))
    require (leb (text_length name) 128)
    assert_bounded_header_value value 4096
    or_invalid (set_header name value headers)

  unfoldable pub normalize_entries : Table String → Table String → Result (Table String)
  unfolding normalize_header
  normalize_entries [] headers = ok headers
  normalize_entries ((name, value) ∷ rest) headers =
      normalize_header name value headers >>= normalize_entries rest

  unfoldable pub normalize_headers : Table String → Result (Table String)
  unfolding normalize_entries
  normalize_headers values = do require (leb (length values) 32); normalize_entries values []

  abbrev pub with_default : String → Table String → Result (Table String)
  with_default type headers =
      if has_header "content-type" headers
      then ok headers
      else set_header "content-type" type headers

  unfoldable pub with_given : Option String → Table String → Result (Table String)
  unfolding has_header assert_bounded_header_value set_header
  with_given none headers = ok headers
  with_given (some type) headers =
      if not (is_empty type) && not (has_header "content-type" headers)
      then assert_bounded_header_value type 256 >> set_header "content-type" type headers
      else ok headers

  -- The text of a body, and the headers with its content type.
  unfoldable pub body_text : RequestBody → Table String → Result (String × Table String)
  unfolding has_header set_header with_given
  body_text (json value) headers = do
    headers' ← with_default "application/json" headers
    ok (p.json_text value, headers')
  body_text (malformed_json value) headers = do
    headers' ← with_default "application/json" headers
    ok (value, headers')
  body_text (form fields) headers = do
    headers' ← with_default "application/x-www-form-urlencoded" headers
    ok (p.form_text fields, headers')
  body_text (raw value type) headers = do headers' ← with_given type headers; ok (value, headers')

  -- The bytes of a body, and the headers, which the code changes in place.
  unfoldable pub encode_body :
      Option RequestBody
      → Table String
      → (max_body_bytes : ℕ) → Result (Option (List ℕ) × Table String)
  unfolding body_text
  encode_body none headers maximum = ok (none, headers)
  encode_body (some body) headers maximum = do
    encoded ← body_text body headers
    require (leb (length (p.encode encoded.0)) maximum)
    ok (some (p.encode encoded.0), encoded.1)
