-- ===== src/Prelude/Bytes.antt =====
-- Sequences of bytes and of code points: parts, comparison, and the lengths of JavaScript strings.
use Prim.Native.Nat.{ℕ, zero, suc, ◌+◌, ◌<◌}
use mathlib.Core.Path.{◌≡◌, refl, ap}
use mathlib.Core.Bool.{Bool, true, false, ◌&&◌}
use mathlib.Core.List.{List, [], ◌∷◌, ◌++◌}
use native.Mathlib.Omega.{arith}
use ivrm_dashboard.Prelude.Tests.{leb, ◌==◌, if◌then◌else◌}
use ivrm_dashboard.Prelude.Lists.{length}

module _ {ℓ} {A : Type ℓ} where
  abbrev pub take : ℕ → List A → List A
  take zero xs = []
  take (suc n) [] = []
  take (suc n) (x ∷ xs) = x ∷ take n xs

  abbrev pub drop : ℕ → List A → List A
  drop zero xs = xs
  drop (suc n) [] = []
  drop (suc n) (x ∷ xs) = drop n xs

  pub append_nil : (xs : List A) → xs ++ [] ≡ xs
  append_nil [] = refl
  append_nil (x ∷ xs) = ap (λ ys. x ∷ ys) (append_nil xs)

  pub append_assoc : (xs ys zs : List A) → (xs ++ ys) ++ zs ≡ xs ++ (ys ++ zs)
  append_assoc [] ys zs = refl
  append_assoc (x ∷ xs) ys zs = ap (λ ws. x ∷ ws) (append_assoc xs ys zs)

  pub length-append : (xs ys : List A) → length (xs ++ ys) ≡ length xs + length ys
  length-append [] ys = omega arith
  length-append (x ∷ xs) ys = let ih = length-append xs ys in omega arith

  pub take-append : (xs ys : List A) → take (length xs) (xs ++ ys) ≡ xs
  take-append [] ys = refl
  take-append (x ∷ xs) ys = ap (λ zs. x ∷ zs) (take-append xs ys)

  pub drop-append : (xs ys : List A) → drop (length xs) (xs ++ ys) ≡ ys
  drop-append [] ys = refl
  drop-append (x ∷ xs) ys = drop-append xs ys

-- Equal lengths and equal items.
abbrev pub same_bytes : List ℕ → List ℕ → Bool
same_bytes [] [] = true
same_bytes (b ∷ bs) (c ∷ cs) = let rest = same_bytes bs cs in (b == c) && rest
same_bytes _ _ = false

pub same-bytes : (a b : List ℕ) → same_bytes a b ≡ true → a ≡ b
same-bytes [] [] h = refl
same-bytes (x ∷ a) (y ∷ b) h =
    let ih = same-bytes a b (ground (arith)) in
    let e : x ≡ y = ground (arith) in rw e (ap (λ c. y ∷ c) ih)
same-bytes [] (y ∷ b) h = ground (arith)
same-bytes (x ∷ a) [] h = ground (arith)

pub same_refl : (a : List ℕ) → same_bytes a a ≡ true
same_refl [] = refl
same_refl (x ∷ a) = let ih = same_refl a in ground (arith)

-- `startsWith`, over code points.
abbrev pub starts_with : List ℕ → List ℕ → Bool
starts_with [] text = true
starts_with (c ∷ prefix) [] = false
starts_with (c ∷ prefix) (d ∷ text) = let rest = starts_with prefix text in (c == d) && rest

pub starts_with-append :
    (prefix a b : List ℕ) → starts_with prefix a ≡ true → starts_with prefix (a ++ b) ≡ true
starts_with-append [] a b h = refl
starts_with-append (c ∷ prefix) [] b h = ground (arith)
starts_with-append (c ∷ prefix) (d ∷ a) b h =
    let ih = starts_with-append prefix a b (ground (arith)) in ground (arith)

-- The length of a JavaScript string, in UTF-16 code units.
abbrev pub utf16_length : List ℕ → ℕ
utf16_length [] = 0
utf16_length (c ∷ cs) = (if leb 65536 c then 2 else 1) + utf16_length cs

abbrev pub AllBytes : List ℕ → Type 0
AllBytes [] = Unit
AllBytes (b ∷ bs) = (b < 256) × AllBytes bs

pub AllBytes-append : (xs ys : List ℕ) → AllBytes xs → AllBytes ys → AllBytes (xs ++ ys)
AllBytes-append [] ys h k = k
AllBytes-append (x ∷ xs) ys (p, h) k = (p, AllBytes-append xs ys h k)

pub take-drop {ℓ} : {A : Type ℓ} (n : ℕ) (xs : List A) → take n xs ++ drop n xs ≡ xs
take-drop zero xs = refl
take-drop (suc n) [] = refl
take-drop (suc n) (x ∷ xs) = ap (λ ys. x ∷ ys) (take-drop n xs)
