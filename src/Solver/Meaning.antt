-- ===== src/Solver/Meaning.antt =====
-- What the answers of a solver say of the assertions, with the labels that are not assumed free.
use pqtrust_agent_artifact.Prelude.{
  Bool, true, false, ◌&&◌, List, [], ◌∷◌, ◌++◌, all, contains, Eq, ◌≡◌, ◌≢◌, ◌⊎◌, inl, inr, refl,
  arith,
}
use pqtrust_agent_artifact.Solver.{
  ℤ, Assertion, plain, under, satisfies, Status, sat, unsat, unknown, Solver, Laws,
}

pub all-append {ℓ} :
    {A : Type ℓ} (p : A → Bool) (xs ys : List A) → all p (xs ++ ys) ≡ (all p xs && all p ys)
all-append p [] ys = refl
all-append p (x ∷ xs) ys = ground (arith, all-append p xs ys)

module _ {L : Type 0} ⦃e : Eq L⦄ where
  -- Whether an index satisfies the assertions when just the given labels hold.
  abbrev pub meets : List (Assertion L) → List L → ℤ → Bool
  meets assertions labels i = all (satisfies (λ l. contains l labels) i) assertions

  labels_of_all :
      (labels : L → Bool) (ls : List L) (l : L)
      → all labels ls ≡ true
      → contains l ls ≡ true
      → labels l ≡ true
  labels_of_all labels [] l h m = cc
  labels_of_all labels (x ∷ xs) l h m = ground (arith, e.beq_iff l x, labels_of_all labels xs l)

  -- Fewer labels leave fewer assertions to satisfy.
  pub meets_of_satisfies :
      (assertions : List (Assertion L)) (ls : List L) (i : ℤ) (labels : L → Bool)
      → all labels ls ≡ true
      → all (satisfies labels i) assertions ≡ true
      → meets assertions ls i ≡ true
  unfolding satisfies
  meets_of_satisfies [] ls i labels h k = refl
  meets_of_satisfies (plain f ∷ rest) ls i labels h k =
      ground (arith, meets_of_satisfies rest ls i labels h)
  meets_of_satisfies (under l f ∷ rest) ls i labels h k =
      ground (arith, labels_of_all labels ls l h, meets_of_satisfies rest ls i labels h)

  all-contains_more :
      (xs ys : List L) (y : L)
      → all (λ l. contains l ys) xs ≡ true
      → all (λ l. contains l (y ∷ ys)) xs ≡ true
  all-contains_more [] ys y h = refl
  all-contains_more (x ∷ xs) ys y h = ground (arith, all-contains_more xs ys y)

  pub all-contains_self : (xs : List L) → all (λ l. contains l xs) xs ≡ true
  all-contains_self [] = refl
  all-contains_self (x ∷ xs) =
      ground (arith, e.beq_iff x x, all-contains_more xs xs x (all-contains_self xs))

  module _ (check : Solver L) (laws : Laws check) where
    pub sat-meets :
        (assertions : List (Assertion L)) (ls : List L) (i : ℤ)
        → check assertions ls ≡ sat i
        → meets assertions ls i ≡ true
    sat-meets assertions ls i h =
        let (labels, assumed, satisfied) = laws.model assertions ls i h in
        meets_of_satisfies assertions ls i labels assumed satisfied

    pub unsat-meets :
        (assertions : List (Assertion L)) (ls core : List L) (i : ℤ)
        → check assertions ls ≡ unsat core
        → meets assertions ls i ≡ false
    unsat-meets assertions ls core i h =
        laws.refuted assertions ls core i (λ l. contains l ls) h
          (laws.core_assumed assertions ls core h)

    pub core-meets :
        (assertions : List (Assertion L)) (ls core : List L) (i : ℤ)
        → check assertions ls ≡ unsat core
        → meets assertions core i ≡ false
    core-meets assertions ls core i h =
        laws.refuted assertions ls core i (λ l. contains l core) h (all-contains_self core)

  -- A solver that always answers, for the theorems that a result is returned.
  abbrev pub Decides : Solver L → Type 0
  Decides check = (assertions : List (Assertion L)) (ls : List L) → check assertions ls ≢ unknown

  -- The two answers of such a solver.
  pub Decides-cases :
      (check : Solver L)
      → Decides check
      → (assertions : List (Assertion L)) (ls : List L)
      → ((i : ℤ) × (check assertions ls ≡ sat i))
        ⊎ ((core : List L) × (check assertions ls ≡ unsat core))
  Decides-cases check decides assertions ls = go (check assertions ls) refl
    where
      go :
          (s : Status L)
          → check assertions ls ≡ s
          → ((i : ℤ) × (check assertions ls ≡ sat i))
            ⊎ ((core : List L) × (check assertions ls ≡ unsat core))
      go (sat i) h = inl (i, h)
      go (unsat core) h = inr (core, h)
      go unknown h = elim (decides assertions ls h) [ ]
