-- ===== src/Traffic/Bodies.antt =====
-- The body of a response is read in chunks up to a limit.
use testy_mc_testface.Prelude.{
  ℕ, ◌+◌, ◌≤◌, ◌≡◌, ◌∙◌, List, [], ◌++◌, some, length, length-append, leb, leb→le, if◌then◌else◌,
  arith, Bool-cases, inl, inr,
}
use testy_mc_testface.Traffic.{traffic_error, too_large}
use testy_mc_testface.Traffic.Results.{Result, ok, err}
use testy_mc_testface.Traffic.Attempts.{
  Stream, end, chunk, broken, read_chunks, read_bounded_response_body,
}

-- All bytes of a stream.
abbrev pub bytes_of : Stream → List ℕ
bytes_of end = []
bytes_of (chunk bytes rest) = bytes ++ bytes_of rest
bytes_of (broken e) = []

abbrev pub IsWhole : Stream → Type 0
IsWhole end = Unit {0}
IsWhole (chunk bytes rest) = IsWhole rest
IsWhole (broken e) = ⊥

abbrev pub within_limit : ℕ → List ℕ → (total : ℕ) → Result (List ℕ)
within_limit maximum bytes total =
    if leb total maximum then ok bytes else err (traffic_error too_large)

read_chunks_lem :
    (body : Stream) (total maximum : ℕ)
    → IsWhole body
    → total ≤ maximum
    → read_chunks body total maximum
      ≡ within_limit maximum (bytes_of body) (total + length (bytes_of body))
unfolding read_chunks
read_chunks_lem end total maximum whole h = ground arith
read_chunks_lem (broken e) total maximum whole h = elim whole [ ]
read_chunks_lem (chunk bytes rest) total maximum whole h =
    let sizes = length-append bytes (bytes_of rest) in
    elim (Bool-cases (leb (total + length bytes) maximum)) [
      | inl fits ↦
          let within = leb→le (total + length bytes) maximum fits in
          let ih = read_chunks_lem rest (total + length bytes) maximum whole within in
          rw (fits, ih) (ground (arith, sizes))
      | inr over ↦ rw over (ground (arith, sizes))
    ]

-- A body that does not break off is read whole if its bytes are within the limit, and refused as too
-- large if they are not, however it is cut into chunks.
pub read_bounded_response_body_lem :
    (body : Stream) (maximum : ℕ)
    → IsWhole body
    → read_bounded_response_body (some body) maximum ≡ (
        if leb (length (bytes_of body)) maximum
        then ok (bytes_of body)
        else err (traffic_error too_large))
unfolding read_bounded_response_body
read_bounded_response_body_lem body maximum whole =
    read_chunks_lem body 0 maximum whole (omega arith) ∙ ground arith
