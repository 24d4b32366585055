-- ===== src/Discord/Attempt/Fields.antt =====
-- The fields of the payload, read back at their offsets.
use ivrm_dashboard.Prelude.{
  ℕ, ◌+◌, ◌-◌, ◌<◌, ◌≤◌, List, ◌++◌, length, ◌≡◌, refl, sym, ap, ◌∙◌, arith,
}
use ivrm_dashboard.Prelude.Bytes.{
  take, drop, AllBytes, AllBytes-append, append_assoc, length-append, take-append, drop-append,
}
use ivrm_dashboard.Discord.Attempt.{be32, be16, read8, read32, read16, payload_of}

pub read32-be32 : (n : ℕ) (rest : List ℕ) → n < 4294967296 → read32 (be32 n ++ rest) ≡ n
read32-be32 n rest h = omega arith

pub read16-be16 : (n : ℕ) (rest : List ℕ) → n < 65536 → read16 (be16 n ++ rest) ≡ n
read16-be16 n rest h = omega arith

drop-length : (n : ℕ) (xs ys : List ℕ) → length xs ≡ n → drop n (xs ++ ys) ≡ ys
drop-length n xs ys h = rw (sym h) (drop-append xs ys)

take-length : (n : ℕ) (xs ys : List ℕ) → length xs ≡ n → take n (xs ++ ys) ≡ xs
take-length n xs ys h = rw (sym h) (take-append xs ys)

-- What a payload with a nonce of 24 bytes holds.
pub payload-version : (s : ℕ) (nonce bytes : List ℕ) → read8 (payload_of s nonce bytes) ≡ 1
unfolding payload_of
payload-version s nonce bytes = refl

pub payload-issued :
    (s : ℕ) (nonce bytes : List ℕ) → s < 4294967296 → read32 (drop 1 (payload_of s nonce bytes)) ≡ s
unfolding payload_of
payload-issued s nonce bytes h = read32-be32 s (nonce ++ (be16 (length bytes) ++ bytes)) h

payload-tail :
    (s : ℕ) (nonce bytes : List ℕ)
    → length nonce ≡ 24
    → drop 29 (payload_of s nonce bytes) ≡ be16 (length bytes) ++ bytes
unfolding payload_of
payload-tail s nonce bytes h = drop-length 24 nonce (be16 (length bytes) ++ bytes) h

pub payload-length_field :
    (s : ℕ) (nonce bytes : List ℕ)
    → length nonce ≡ 24
    → length bytes ≤ 512
    → read16 (drop 29 (payload_of s nonce bytes)) ≡ length bytes
payload-length_field s nonce bytes h k =
    ap read16 (payload-tail s nonce bytes h) ∙ read16-be16 (length bytes) bytes (omega arith)

pub payload-return_bytes :
    (s : ℕ) (nonce bytes : List ℕ) → length nonce ≡ 24 → drop 31 (payload_of s nonce bytes) ≡ bytes
unfolding payload_of
payload-return_bytes s nonce bytes h =
    ap (drop 26) (sym (append_assoc nonce (be16 (length bytes)) bytes))
    ∙ drop-length 26 (nonce ++ be16 (length bytes)) bytes
        (length-append nonce (be16 (length bytes)) ∙ rw h refl)

pub length-payload_of :
    (s : ℕ) (nonce bytes : List ℕ)
    → length nonce ≡ 24
    → length (payload_of s nonce bytes) ≡ 31 + length bytes
unfolding payload_of
length-payload_of s nonce bytes h =
    let e = length-append nonce (be16 (length bytes) ++ bytes) in omega arith

pub AllBytes-payload_of :
    (s : ℕ) (nonce bytes : List ℕ)
    → AllBytes nonce
    → AllBytes bytes
    → AllBytes (payload_of s nonce bytes)
unfolding payload_of
AllBytes-payload_of s nonce bytes h k = (
  omega arith,
  (
    omega arith,
    (
      omega arith,
      (
        omega arith,
        (
          omega arith,
          AllBytes-append nonce (be16 (length bytes) ++ bytes) h (omega arith, (omega arith, k)),
        ),
      ),
    ),
  ),
)

-- The split of the decoded state before the last 32 bytes.
pub split-payload :
    (p signature : List ℕ)
    → length signature ≡ 32
    → (take (length (p ++ signature) - 32) (p ++ signature) ≡ p)
      × (drop (length (p ++ signature) - 32) (p ++ signature) ≡ signature)
split-payload p signature h =
    let e : length p ≡ length (p ++ signature) - 32 =
      let l = length-append p signature in omega arith in
    (
      take-length (length (p ++ signature) - 32) p signature e,
      drop-length (length (p ++ signature) - 32) p signature e,
    )
