-- ===== src/Operation/Body.antt =====
-- `readLimitedJson` of apps/web/app/api/operations/jobs/route.ts. The tests of the Content-Length
-- header, read as a number, and the decoding of UTF-8 with `JSON.parse` are parameters; a stream is the
-- list of what its reads return, none where a read has no value; `breaks` says that the read after
-- these throws, where otherwise it says that the stream is done.
use ivrm_dashboard.Prelude.{
  ℕ, ◌+◌, Bool, not, List, [], ◌∷◌, ◌++◌, Option, none, some, String, Runtime, if◌then◌else◌, ltb,
  or_else, length,
}
use ivrm_dashboard.Prelude.Bytes.{starts_with}
use ivrm_dashboard.Prelude.Ascii.{codes}
use ivrm_dashboard.Operation.Json.{Json, json_object, JsonFields}

-- `MAX_BODY_BYTES`
abbrev pub max_body_bytes : ℕ
max_body_bytes = 1024

pub data LimitedBody : Type 0 where
  too_large no_body : LimitedBody
  -- An exception of the stream, which leaves the function.
  broken : LimitedBody
  body : JsonFields → LimitedBody

pub record BodyInput : Type 0 where
  pub content_length : Option String
  pub content_type : Option String
  pub reads : Option (List (Option (List ℕ)))
  pub breaks : Bool

-- The loop over the reads, after `total` bytes in `chunks`: none where the limit is passed.
unfoldable pub read_from : ℕ → List ℕ → List (Option (List ℕ)) → Option (List ℕ)
read_from total chunks [] = some chunks
read_from total chunks (none ∷ reads) = read_from total chunks reads
read_from total chunks (some value ∷ reads) =
    let rest = read_from (total + length value) (chunks ++ value) reads in
    if ltb max_body_bytes (total + length value) then none else rest

module _ (number_exceeds : String → ℕ → Bool) (parse_json : List ℕ → Option Json) where
  abbrev pub body_of : Option Json → LimitedBody
  body_of (some (json_object fields)) = body fields
  body_of _ = no_body

  abbrev pub parsed : List ℕ → LimitedBody
  parsed [] = no_body
  parsed (b ∷ bytes) = body_of (parse_json (b ∷ bytes))

  abbrev pub after_reads : Bool → Option (List ℕ) → LimitedBody
  after_reads breaks none = too_large
  after_reads breaks (some bytes) = if breaks then broken else parsed bytes

  unfoldable pub read_body : Bool → Option (List (Option (List ℕ))) → LimitedBody
  unfolding read_from
  read_body breaks none = no_body
  read_body breaks (some reads) = after_reads breaks (read_from 0 [] reads)

  -- `readLimitedJson`
  unfoldable pub read_limited_json : ⦃runtime : Runtime⦄ → BodyInput → LimitedBody
  unfolding read_body
  read_limited_json ⦃runtime⦄ input =
      if number_exceeds (or_else input.content_length "0") max_body_bytes
      then too_large
      else if not (
          starts_with (codes "application/json")
            (codes (runtime.to_lower_case (or_else input.content_type ""))))
      then no_body
      else read_body input.breaks input.reads

-- The bytes of the whole stream.
abbrev pub stream_bytes : List (Option (List ℕ)) → List ℕ
stream_bytes [] = []
stream_bytes (none ∷ reads) = stream_bytes reads
stream_bytes (some value ∷ reads) = value ++ stream_bytes reads
