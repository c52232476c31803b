-- ===== src/Prelude/Lists.antt =====
-- Membership and quantifiers over Python's tuples, lists and sets, as Boolean functions.
use Prim.Native.Nat.{ℕ, suc, ◌≤◌, ◌<◌}
use mathlib.Core.Path.{◌≡◌, refl}
use mathlib.Core.Logic.{inl, inr}
use mathlib.Core.Bool.{Bool, true, false, not, ◌&&◌, ◌||◌}
use mathlib.Core.List.{List, [], ◌∷◌}
use native.Mathlib.Omega.{arith}
use pqtrust_agent_artifact.Prelude.Tests.{Eq, ◌==◌, if◌then◌else◌, Bool-cases}

module _ {ℓ} {A : Type ℓ} where
  abbrev pub length : List A → ℕ
  length [] = 0
  length (x ∷ xs) = suc (length xs)

  -- `bool(xs)` of a sequence
  abbrev pub nonempty : List A → Bool
  nonempty [] = false
  nonempty (x ∷ xs) = true

  -- `all(p(x) for x in xs)`
  abbrev pub all : (A → Bool) → List A → Bool
  all p [] = true
  all p (x ∷ xs) = p x && all p xs

  -- `any(p(x) for x in xs)`
  abbrev pub any : (A → Bool) → List A → Bool
  any p [] = false
  any p (x ∷ xs) = p x || any p xs

  -- `[x for x in xs if p(x)]`
  abbrev pub keep : (A → Bool) → List A → List A
  keep p [] = []
  keep p (x ∷ xs) = let rest = keep p xs in if p x then x ∷ rest else rest

  pub length-keep-le : (p : A → Bool) (xs : List A) → length (keep p xs) ≤ length xs
  length-keep-le p [] = omega arith
  length-keep-le p (x ∷ xs) = ground (arith, length-keep-le p xs)

  pub length-keep_mono :
      (p q : A → Bool) (xs : List A)
      → ((x : A) → p x ≡ true → q x ≡ true)
      → length (keep p xs) ≤ length (keep q xs)
  length-keep_mono p q [] sub = omega arith
  length-keep_mono p q (x ∷ xs) sub = ground (arith, sub x, length-keep_mono p q xs sub)

  pub all-keep : (q p : A → Bool) (xs : List A) → all q xs ≡ true → all q (keep p xs) ≡ true
  all-keep q p [] h = refl
  all-keep q p (x ∷ xs) h = ground (arith, all-keep q p xs)

-- A statement that holds of every element.
abbrev pub All {ℓ κ} : {A : Type ℓ} → (A → Type κ) → List A → Type κ
All P [] = Unit
All P (x ∷ xs) = P x × All P xs

-- `a in xs`
module _ {ℓ} {A : Type ℓ} ⦃e : Eq A⦄ where
  abbrev pub contains : A → List A → Bool
  contains a [] = false
  contains a (x ∷ xs) = a == x || contains a xs

  -- `len(xs) == len(set(xs))`
  abbrev pub distinct : List A → Bool
  distinct [] = true
  distinct (x ∷ xs) = not (contains x xs) && distinct xs

  pub contains-keep :
      (p : A → Bool) (a : A) (xs : List A) → contains a (keep p xs) ≡ (contains a xs && p a)
  contains-keep p a [] = refl
  contains-keep p a (x ∷ xs) = ground (arith, e.beq_iff a x, contains-keep p a xs)

  pub all_of_contains :
      (p : A → Bool) (a : A) (xs : List A) → all p xs ≡ true → contains a xs ≡ true → p a ≡ true
  all_of_contains p a [] h m = cc
  all_of_contains p a (x ∷ xs) h m = ground (arith, e.beq_iff a x, all_of_contains p a xs)

  pub distinct-keep :
      (p : A → Bool) (xs : List A) → distinct xs ≡ true → distinct (keep p xs) ≡ true
  distinct-keep p [] h = refl
  distinct-keep p (x ∷ xs) h = ground (arith, contains-keep p x xs, distinct-keep p xs)

  -- A member that satisfies the test is one that `any` finds.
  pub any_of_contains :
      (p : A → Bool) (a : A) (xs : List A) → contains a xs ≡ true → p a ≡ true → any p xs ≡ true
  any_of_contains p a [] m h = m
  any_of_contains p a (x ∷ xs) m h = ground (arith, e.beq_iff a x, any_of_contains p a xs)

  pub contains_of_any :
      (p : A → Bool) (xs : List A)
      → any p xs ≡ true
      → (a : A) × (contains a xs ≡ true) × (p a ≡ true)
  contains_of_any p [] h = cc
  contains_of_any p (x ∷ xs) h = elim (Bool-cases (p x)) [
    | inl here ↦ (x, ground (arith, e.beq_iff x x), here)
    | inr there ↦ let (a, m, k) = contains_of_any p xs (ground arith) in (a, ground arith, k)
  ]

  -- A narrower test that drops a member keeps fewer elements.
  pub length-keep-lt :
      (p q : A → Bool) (a : A) (xs : List A)
      → ((x : A) → p x ≡ true → q x ≡ true)
      → contains a xs ≡ true
      → q a ≡ true
      → p a ≡ false
      → length (keep p xs) < length (keep q xs)
  length-keep-lt p q a [] sub m hq hp = cc
  length-keep-lt p q a (x ∷ xs) sub m hq hp =
      ground (arith, e.beq_iff a x, sub x, length-keep-lt p q a xs sub, length-keep_mono p q xs sub)

  pub All-members :
      (xs ys : List A)
      → ((a : A) → contains a xs ≡ true → contains a ys ≡ true)
      → All (λ a. contains a ys ≡ true) xs
  All-members [] ys h = tt
  All-members (x ∷ xs) ys h =
      (h x (ground (arith, e.beq_iff x x)), All-members xs ys (λ a m. h a (ground arith)))
