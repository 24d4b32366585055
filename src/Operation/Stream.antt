-- ===== src/Operation/Stream.antt =====
-- The limit on the body of a request, against the bytes of the whole stream.
use ivrm_dashboard.Prelude.{
  ℕ, ◌+◌, ◌≤◌, List, [], ◌∷◌, ◌++◌, Option, none, some, if◌then◌else◌, ltb, length, ◌≡◌, arith, inl,
  inr,
}
use ivrm_dashboard.Prelude.Tests.{Bool-cases}
use ivrm_dashboard.Prelude.Bytes.{append_nil, append_assoc, length-append}
use ivrm_dashboard.Operation.Body.{max_body_bytes, read_from, stream_bytes}

read_from_lem :
    (total : ℕ) (chunks : List ℕ) (reads : List (Option (List ℕ)))
    → total ≤ max_body_bytes
    → read_from total chunks reads ≡ (
        if ltb max_body_bytes (total + length (stream_bytes reads))
        then none
        else some (chunks ++ stream_bytes reads))
unfolding read_from
read_from_lem total chunks [] h = let e = append_nil chunks in ground (arith)
read_from_lem total chunks (none ∷ reads) h = read_from_lem total chunks reads h
read_from_lem total chunks (some value ∷ reads) h =
    let n = length-append value (stream_bytes reads) in
    let e = append_assoc chunks value (stream_bytes reads) in
    elim (Bool-cases (ltb max_body_bytes (total + length value))) [
      | inl o ↦ rw o (ground (arith))
      | inr o ↦
          let ih = read_from_lem (total + length value) (chunks ++ value) reads (ground (arith)) in
          rw o (ground (arith))
    ]

-- The loop that reads the body gives up exactly when the bytes of the whole stream are more than the
-- limit, and otherwise returns all of them in order: it neither refuses a body of exactly the limit
-- nor lets a longer one pass, in whatever pieces it comes.
pub read_from-limit :
    (reads : List (Option (List ℕ)))
    → read_from 0 [] reads ≡ (
        if ltb max_body_bytes (length (stream_bytes reads))
        then none
        else some (stream_bytes reads))
read_from-limit reads = let e = read_from_lem 0 [] reads (omega arith) in ground (arith)
