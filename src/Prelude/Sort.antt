-- ===== src/Prelude/Sort.antt =====
-- `Array.prototype.sort`: a stable sort by a test that says when the left item may stay before the
-- right one (the comparator's result is at most 0).
use mathlib.Core.Path.{◌≡◌, refl}
use mathlib.Core.Bool.{Bool, true, false, ◌||◌}
use mathlib.Core.Logic.{inl, inr}
use mathlib.Core.List.{List, [], ◌∷◌}
use mathlib.Core.List.{Perm}
use mathlib.Core.List.Perm
use native.Mathlib.Omega.{arith}
use ivrm_dashboard.Prelude.Tests.{if◌then◌else◌, Bool-cases}
use ivrm_dashboard.Prelude.Lists.{All, any}

module _ {ℓ} {A : Type ℓ} (le : A → A → Bool) where
  abbrev pub insert_by : A → List A → List A
  insert_by x [] = x ∷ []
  insert_by x (y ∷ ys) = let later = y ∷ insert_by x ys in if le x y then x ∷ y ∷ ys else later

  abbrev pub sort_by : List A → List A
  sort_by [] = []
  sort_by (x ∷ xs) = insert_by x (sort_by xs)

module _ {ℓ} {A : Type ℓ} (le : A → A → Bool) where
  -- A Boolean test holds of some item of the sorted list when it holds of some item of the list.
  pub any-insert_by :
      (p : A → Bool) (x : A) (xs : List A) → any p (insert_by le x xs) ≡ (p x || any p xs)
  any-insert_by p x [] = refl
  any-insert_by p x (y ∷ ys) = ground (arith, any-insert_by p x ys)

  pub any-sort_by : (p : A → Bool) (xs : List A) → any p (sort_by le xs) ≡ any p xs
  any-sort_by p [] = refl
  any-sort_by p (x ∷ xs) = rw any-insert_by (rw (any-sort_by p xs))

module _ {ℓ κ} {A : Type ℓ} (le : A → A → Bool) (P : A → Type κ) where
  pub All-insert_by : (x : A) (xs : List A) → P x → All P xs → All P (insert_by le x xs)
  All-insert_by x [] p _ = (p, tt)
  All-insert_by x (y ∷ ys) p (q, h) = elim (Bool-cases (le x y)) [
    | inl e ↦ rw e (p, (q, h))
    | inr e ↦ rw e (q, All-insert_by x ys p h)
  ]

  pub All-sort_by : (xs : List A) → All P xs → All P (sort_by le xs)
  All-sort_by [] _ = tt
  All-sort_by (x ∷ xs) (p, h) = All-insert_by x (sort_by le xs) p (All-sort_by xs h)

module _ {ℓ} {A : Type ℓ} (le : A → A → Bool) where
  -- The sorted list has the same items.
  pub Perm-insert_by : (x : A) (xs : List A) → Perm (insert_by le x xs) (x ∷ xs)
  Perm-insert_by x [] = Perm.refl (x ∷ [])
  Perm-insert_by x (y ∷ ys) = elim (Bool-cases (le x y)) [
    | inl e ↦ rw e (Perm.refl (x ∷ y ∷ ys))
    | inr e ↦ rw e (Perm.trans (Perm.cons y (Perm-insert_by x ys)) (Perm.swap x y ys))
  ]

  pub Perm-sort_by : (xs : List A) → Perm (sort_by le xs) xs
  Perm-sort_by [] = Perm.refl []
  Perm-sort_by (x ∷ xs) =
      Perm.trans (Perm-insert_by x (sort_by le xs)) (Perm.cons x (Perm-sort_by xs))

-- Each item is related to every item after it.
abbrev pub Ordered {ℓ κ} : {A : Type ℓ} → (A → A → Type κ) → List A → Type κ
Ordered R [] = Unit
Ordered R (x ∷ xs) = All (R x) xs × Ordered R xs

All-map {ℓ κ} :
    {A : Type ℓ} (P Q : A → Type κ) → ((x : A) → P x → Q x) → (xs : List A) → All P xs → All Q xs
All-map P Q f [] _ = tt
All-map P Q f (x ∷ xs) (p, h) = (f x p, All-map P Q f xs h)

-- The test decides a relation between the items that satisfy a predicate.
module _ {ℓ κ} {A : Type ℓ} (le : A → A → Bool) (P : A → Type κ) (R : A → A → Type κ)
    (R_trans : (x y z : A) → R x y → R y z → R x z)
    (before : (x y : A) → P x → P y → le x y ≡ true → R x y)
    (after : (x y : A) → P x → P y → le x y ≡ false → R y x) where
  Ordered-insert_by :
      (x : A) (xs : List A) → P x → All P xs → Ordered R xs → Ordered R (insert_by le x xs)
  Ordered-insert_by x [] p _ _ = (tt, tt)
  Ordered-insert_by x (y ∷ ys) p (q, h) (o, os) = elim (Bool-cases (le x y)) [
    | inl e ↦
        let r = before x y p q e in
        rw e ((r, All-map (R y) (R x) (λ z. R_trans x y z r) ys o), (o, os))
    | inr e ↦ rw e (All-insert_by le (R y) x ys (after x y p q e) o, Ordered-insert_by x ys p h os)
  ]

  pub Ordered-sort_by : (xs : List A) → All P xs → Ordered R (sort_by le xs)
  Ordered-sort_by [] _ = tt
  Ordered-sort_by (x ∷ xs) (p, h) =
      Ordered-insert_by x (sort_by le xs) p (All-sort_by le P xs h) (Ordered-sort_by xs h)
