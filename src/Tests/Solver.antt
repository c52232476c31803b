-- ===== src/Tests/Solver.antt =====
-- A solver that tries the indexes up to the constants of the assertions, for the witnesses of the
-- theorems that take a solver.
use pqtrust_agent_artifact.Prelude.{
  ℕ, zero, suc, ◌≤◌, Bool, true, false, List, [], ◌∷◌, all, contains, distinct, leb, Option, none,
  some, Eq, ◌≡◌, refl, ap, sym, ◌∙◌, arith, if◌then◌else◌,
}
use pqtrust_agent_artifact.Solver.{
  ℤ, pos, negsuc, Formula, index_eq, index_ne, index_nonneg, index_below, constant, both, either,
  holds, Assertion, plain, under, satisfies, sat, unsat, Solver, Laws,
}
use pqtrust_agent_artifact.Solver.Meaning.{meets, meets_of_satisfies, all-contains_self, Decides}

abbrev larger : ℕ → ℕ → ℕ
larger m n = if leb m n then n else m

-- A bound above every constant of a formula.
abbrev bound : Formula → ℕ
bound (index_eq (pos k)) = suc k
bound (index_eq (negsuc k)) = suc k
bound (index_ne (pos k)) = suc k
bound (index_ne (negsuc k)) = suc k
bound index_nonneg = 0
bound (index_below m) = m
bound (constant b) = 0
bound (both f g) = larger (bound f) (bound g)
bound (either f g) = larger (bound f) (bound g)

abbrev clamp : ℕ → ℤ → ℤ
clamp b (pos n) = pos (if leb n b then n else b)
clamp b (negsuc n) = negsuc (if leb n b then n else b)

larger_left : (m n b : ℕ) → larger m n ≤ b → m ≤ b
larger_left m n b h = ground arith

larger_right : (m n b : ℕ) → larger m n ≤ b → n ≤ b
larger_right m n b h = ground arith

holds-clamp : (f : Formula) (b : ℕ) (i : ℤ) → bound f ≤ b → holds f (clamp b i) ≡ holds f i
unfolding holds
holds-clamp (index_eq (pos k)) b (pos n) h = ground arith
holds-clamp (index_eq (pos k)) b (negsuc n) h = refl
holds-clamp (index_eq (negsuc k)) b (pos n) h = refl
holds-clamp (index_eq (negsuc k)) b (negsuc n) h = ground arith
holds-clamp (index_ne (pos k)) b (pos n) h = ground arith
holds-clamp (index_ne (pos k)) b (negsuc n) h = refl
holds-clamp (index_ne (negsuc k)) b (pos n) h = refl
holds-clamp (index_ne (negsuc k)) b (negsuc n) h = ground arith
holds-clamp index_nonneg b (pos n) h = refl
holds-clamp index_nonneg b (negsuc n) h = refl
holds-clamp (index_below m) b (pos n) h = ground arith
holds-clamp (index_below m) b (negsuc n) h = refl
holds-clamp (constant c) b i h = refl
holds-clamp (both f g) b i h = simp (
  holds-clamp f b i (larger_left (bound f) (bound g) b h),
  holds-clamp g b i (larger_right (bound f) (bound g) b h),
)
holds-clamp (either f g) b i h = simp (
  holds-clamp f b i (larger_left (bound f) (bound g) b h),
  holds-clamp g b i (larger_right (bound f) (bound g) b h),
)

abbrev first : (ℤ → Bool) → ℕ → Option ℤ
first p zero = if p (pos 0) then some (pos 0) else (if p (negsuc 0) then some (negsuc 0) else none)
first p (suc n) =
    let rest = first p n in
    if p (pos (suc n))
    then some (pos (suc n))
    else (if p (negsuc (suc n)) then some (negsuc (suc n)) else rest)

first-some : (p : ℤ → Bool) (n : ℕ) (i : ℤ) → first p n ≡ some i → p i ≡ true
first-some p zero i h = ground arith
first-some p (suc n) i h = ground (arith, first-some p n i)

first-none : (p : ℤ → Bool) (n : ℕ) (i : ℤ) → first p n ≡ none → p (clamp n i) ≡ false
first-none p zero (pos k) h = ground arith
first-none p zero (negsuc k) h = ground arith
first-none p (suc n) (pos k) h = ground (arith, first-none p n (pos k))
first-none p (suc n) (negsuc k) h = ground (arith, first-none p n (negsuc k))

module _ {L : Type 0} where
  abbrev bounds : List (Assertion L) → ℕ
  bounds [] = 0
  bounds (plain f ∷ rest) = larger (bound f) (bounds rest)
  bounds (under l f ∷ rest) = larger (bound f) (bounds rest)

  satisfies-clamp :
      (labels : L → Bool) (assertions : List (Assertion L)) (b : ℕ) (i : ℤ)
      → bounds assertions ≤ b
      → all (satisfies labels (clamp b i)) assertions ≡ all (satisfies labels i) assertions
  unfolding satisfies
  satisfies-clamp labels [] b i h = refl
  satisfies-clamp labels (plain f ∷ rest) b i h = simp (
    holds-clamp f b i (larger_left (bound f) (bounds rest) b h),
    satisfies-clamp labels rest b i (larger_right (bound f) (bounds rest) b h),
  )
  satisfies-clamp labels (under l f ∷ rest) b i h = simp (
    holds-clamp f b i (larger_left (bound f) (bounds rest) b h),
    satisfies-clamp labels rest b i (larger_right (bound f) (bounds rest) b h),
  )

  module _ ⦃e : Eq L⦄ where
    abbrev pub scan : Solver L
    scan assertions ls = elim (first (meets assertions ls) (bounds assertions)) [
      | some i ↦ sat i
      | none ↦ unsat ls
    ]

    scan-sat :
        (assertions : List (Assertion L)) (ls : List L) (i : ℤ)
        → scan assertions ls ≡ sat i
        → meets assertions ls i ≡ true
    scan-sat assertions ls i h =
        first-some (meets assertions ls) (bounds assertions) i (ground arith)

    scan-unsat :
        (assertions : List (Assertion L)) (ls core : List L)
        → scan assertions ls ≡ unsat core
        → (core ≡ ls) × (first (meets assertions ls) (bounds assertions) ≡ none)
    scan-unsat assertions ls core h = (ground arith, ground arith)

    pub scan-Decides : Decides scan
    scan-Decides assertions ls h = ground arith

    scan-model :
        (assertions : List (Assertion L)) (ls : List L) (i : ℤ)
        → scan assertions ls ≡ sat i
        → (labels : L → Bool) × (all labels ls ≡ true)
          × (all (satisfies labels i) assertions ≡ true)
    scan-model assertions ls i h =
        (λ l. contains l ls, all-contains_self ls, scan-sat assertions ls i h)

    scan-core :
        (assertions : List (Assertion L)) (ls core : List L)
        → scan assertions ls ≡ unsat core
        → all (λ l. contains l ls) core ≡ true
    scan-core assertions ls core h =
        let (same, _) = scan-unsat assertions ls core h in
        ap (all (λ l. contains l ls)) same ∙ all-contains_self ls

    scan-core_distinct :
        (assertions : List (Assertion L)) (ls core : List L)
        → scan assertions ls ≡ unsat core
        → distinct ls ≡ true
        → distinct core ≡ true
    scan-core_distinct assertions ls core h k =
        let (same, _) = scan-unsat assertions ls core h in ap distinct same ∙ k

    scan-refuted :
        (assertions : List (Assertion L)) (ls core : List L) (i : ℤ) (labels : L → Bool)
        → scan assertions ls ≡ unsat core
        → all labels core ≡ true
        → all (satisfies labels i) assertions ≡ false
    scan-refuted assertions ls core i labels h assumed =
        let (same, nowhere) = scan-unsat assertions ls core h in
        let unmet : meets assertions ls i ≡ false =
          sym (satisfies-clamp (λ l. contains l ls) assertions (bounds assertions) i (omega arith))
          ∙ first-none (meets assertions ls) (bounds assertions) i nowhere in
        let meeting =
          meets_of_satisfies assertions ls i labels (sym (ap (all labels) same) ∙ assumed) in
        ground (arith, meeting)

    pub scan-Laws : Laws scan
    scan-Laws = record {
      model = scan-model;
      core_assumed = scan-core;
      core_distinct = scan-core_distinct;
      refuted = scan-refuted;
    }
