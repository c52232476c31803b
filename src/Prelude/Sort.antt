-- ===== src/Prelude/Sort.antt =====
-- Python's `sorted` by a key: stable insertion sort over a Boolean order.
use mathlib.Core.Path.{◌≡◌, refl, ap, subst}
use mathlib.Core.Bool.{Bool, true, false, ◌&&◌, ◌||◌}
use mathlib.Core.Logic.{inl, inr}
use mathlib.Core.List.{List, [], ◌∷◌, map}
use native.Mathlib.Omega.{arith}
use Prim.Native.Nat.{Ordering}
use Prim.Native.String.{String, compare}
use pqtrust_agent_artifact.Prelude.Tests.{Eq, ◌==◌, if◌then◌else◌, Bool-cases}
use pqtrust_agent_artifact.Prelude.Lists.{
  all, any, All, contains, distinct, nonempty, keep, all-keep,
}

-- `s <= t` of two strings, by code points
abbrev pub string_leb : String → String → Bool
string_leb s t = elim (compare s t) [ Ordering.gt ↦ false | _ ↦ true ]

module _ {ℓ} {A : Type ℓ} (le : A → A → Bool) where
  -- An element goes before the first one that it is not above.
  pub insert_by : A → List A → List A
  insert_by a [] = a ∷ []
  insert_by a (x ∷ xs) = let rest = insert_by a xs in if le a x then a ∷ x ∷ xs else x ∷ rest

  unfoldable pub sort_by : List A → List A
  unfolding insert_by
  sort_by [] = []
  sort_by (x ∷ xs) = insert_by x (sort_by xs)

  -- Every element is below all that follow it.
  abbrev pub is_sorted : List A → Bool
  is_sorted [] = true
  is_sorted (x ∷ xs) = all (le x) xs && is_sorted xs

  all-insert_by : (p : A → Bool) (a : A) (xs : List A) → all p (insert_by a xs) ≡ (p a && all p xs)
  unfolding insert_by
  all-insert_by p a [] = refl
  all-insert_by p a (x ∷ xs) = ground (arith, all-insert_by p a xs)

  -- A sort keeps the elements: what holds of all is unchanged.
  pub all-sort_by : (p : A → Bool) (xs : List A) → all p (sort_by xs) ≡ all p xs
  unfolding sort_by
  all-sort_by p [] = refl
  all-sort_by p (x ∷ xs) = ground (arith, all-insert_by p x (sort_by xs), all-sort_by p xs)

  any-insert_by : (p : A → Bool) (a : A) (xs : List A) → any p (insert_by a xs) ≡ (p a || any p xs)
  unfolding insert_by
  any-insert_by p a [] = refl
  any-insert_by p a (x ∷ xs) = ground (arith, any-insert_by p a xs)

  pub any-sort_by : (p : A → Bool) (xs : List A) → any p (sort_by xs) ≡ any p xs
  unfolding sort_by
  any-sort_by p [] = refl
  any-sort_by p (x ∷ xs) = ground (arith, any-insert_by p x (sort_by xs), any-sort_by p xs)

  nonempty-insert_by : (a : A) (xs : List A) → nonempty (insert_by a xs) ≡ true
  unfolding insert_by
  nonempty-insert_by a [] = refl
  nonempty-insert_by a (x ∷ xs) = ground arith

  All-insert_by {κ} :
      (P : A → Type κ) (a : A) (xs : List A) → P a → All P xs → All P (insert_by a xs)
  unfolding insert_by
  All-insert_by P a [] h k = (h, tt)
  All-insert_by P a (x ∷ xs) h k = elim (Bool-cases (le a x)) [
    | inl first ↦ rw first (h, k)
    | inr later ↦ rw later (k.0, All-insert_by P a xs h k.1)
  ]

  All-sort_by {κ} : (P : A → Type κ) (xs : List A) → All P xs → All P (sort_by xs)
  unfolding sort_by
  All-sort_by P [] h = tt
  All-sort_by P (x ∷ xs) h = All-insert_by P x (sort_by xs) h.0 (All-sort_by P xs h.1)

  -- The first element of a sort, if it is sorted, is below every element and is one of them.
  pub head-sort_by {κ} :
      (refl_le : (a : A) → le a a ≡ true) (a : A) (rest xs : List A)
      → sort_by xs ≡ a ∷ rest
      → is_sorted (sort_by xs) ≡ true
      → (all (le a) xs ≡ true) × ((P : A → Type κ) → All P xs → P a)
  head-sort_by refl_le a rest xs e h = (
    ground (arith, refl_le a, all-sort_by (le a) xs, ap is_sorted e, ap (all (le a)) e),
    λ P k. (subst (All P) e (All-sort_by P xs k)).0,
  )

  insert_by_first : (a : A) (xs : List A) → all (le a) xs ≡ true → insert_by a xs ≡ a ∷ xs
  unfolding insert_by
  insert_by_first a [] h = refl
  insert_by_first a (x ∷ xs) h = ground arith

  -- A sorted list is its own sort.
  pub sort_by-is_sorted : (xs : List A) → is_sorted xs ≡ true → sort_by xs ≡ xs
  unfolding sort_by
  sort_by-is_sorted [] h = refl
  sort_by-is_sorted (x ∷ xs) h = ground (arith, sort_by-is_sorted xs, insert_by_first x xs)

  pub is_sorted-keep :
      (p : A → Bool) (xs : List A) → is_sorted xs ≡ true → is_sorted (keep p xs) ≡ true
  is_sorted-keep p [] h = refl
  is_sorted-keep p (x ∷ xs) h = ground (arith, is_sorted-keep p xs, all-keep (le x) p xs)

  pub nonempty-sort_by : (xs : List A) → nonempty (sort_by xs) ≡ nonempty xs
  unfolding sort_by
  nonempty-sort_by [] = refl
  nonempty-sort_by (x ∷ xs) = nonempty-insert_by x (sort_by xs)

module _ {ℓ} {A : Type ℓ} ⦃e : Eq A⦄ (le : A → A → Bool) where
  contains-insert_by :
      (b a : A) (xs : List A) → contains b (insert_by le a xs) ≡ ((b == a) || contains b xs)
  unfolding insert_by
  contains-insert_by b a [] = refl
  contains-insert_by b a (x ∷ xs) = ground (arith, contains-insert_by b a xs)

  pub contains-sort_by : (b : A) (xs : List A) → contains b (sort_by le xs) ≡ contains b xs
  unfolding sort_by
  contains-sort_by b [] = refl
  contains-sort_by b (x ∷ xs) =
      ground (arith, contains-insert_by b x (sort_by le xs), contains-sort_by b xs)

-- A sort keeps the images of the elements under a function.
module _ {ℓ κ} {A : Type ℓ} {B : Type κ} ⦃e : Eq B⦄ (le : A → A → Bool) (f : A → B) where
  contains-map-insert_by :
      (b : B) (a : A) (xs : List A)
      → contains b (map f (insert_by le a xs)) ≡ contains b (map f (a ∷ xs))
  unfolding insert_by
  contains-map-insert_by b a [] = refl
  contains-map-insert_by b a (x ∷ xs) = ground (arith, contains-map-insert_by b a xs)

  pub contains-map-sort_by :
      (b : B) (xs : List A) → contains b (map f (sort_by le xs)) ≡ contains b (map f xs)
  unfolding sort_by
  contains-map-sort_by b [] = refl
  contains-map-sort_by b (x ∷ xs) =
      ground (arith, contains-map-insert_by b x (sort_by le xs), contains-map-sort_by b xs)

  distinct-map-insert_by :
      (a : A) (xs : List A) → distinct (map f (insert_by le a xs)) ≡ distinct (map f (a ∷ xs))
  unfolding insert_by
  distinct-map-insert_by a [] = refl
  distinct-map-insert_by a (x ∷ xs) = ground (
    arith,
    e.beq_iff (f a) (f x),
    e.beq_iff (f x) (f a),
    contains-map-insert_by (f x) a xs,
    distinct-map-insert_by a xs,
  )

  pub distinct-map-sort_by : (xs : List A) → distinct (map f (sort_by le xs)) ≡ distinct (map f xs)
  unfolding sort_by
  distinct-map-sort_by [] = refl
  distinct-map-sort_by (x ∷ xs) = ground (
    arith,
    distinct-map-insert_by x (sort_by le xs),
    contains-map-sort_by (f x) xs,
    distinct-map-sort_by xs,
  )

-- Where the order is total and transitive, the head of the sorted list is below every element.
module _ {ℓ} {A : Type ℓ} (le : A → A → Bool) (total : (a b : A) → le a b ≡ false → le b a ≡ true)
    (trans : (a b c : A) → le a b ≡ true → le b c ≡ true → le a c ≡ true) where
  all_above : (a b : A) (xs : List A) → le a b ≡ true → all (le b) xs ≡ true → all (le a) xs ≡ true
  all_above a b [] h k = refl
  all_above a b (x ∷ xs) h k = ground (arith, trans a b x h, all_above a b xs h)

  is_sorted-insert_by :
      (a : A) (xs : List A) → is_sorted le xs ≡ true → is_sorted le (insert_by le a xs) ≡ true
  unfolding insert_by
  is_sorted-insert_by a [] h = refl
  is_sorted-insert_by a (x ∷ xs) h =
      ground
        (arith, is_sorted-insert_by a xs, all_above a x xs, total a x, all-insert_by le (le x) a xs)

  pub is_sorted-sort_by : (xs : List A) → is_sorted le (sort_by le xs) ≡ true
  unfolding sort_by
  is_sorted-sort_by [] = refl
  is_sorted-sort_by (x ∷ xs) = is_sorted-insert_by x (sort_by le xs) (is_sorted-sort_by xs)
