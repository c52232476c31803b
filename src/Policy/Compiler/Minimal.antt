-- ===== src/Policy/Compiler/Minimal.antt =====
-- The core that `_minimize_core` leaves: the last violated category alone, since at a pinned index
-- any one violated category is already unsatisfiable.
use pqtrust_agent_artifact.Prelude.{
  ℕ, Bool, true, false, not, ◌||◌, List, [], ◌∷◌, all, keep, contains, distinct, contains-keep,
  nonempty, Option, none, some, ◌≡◌, inl, inr, refl, ap, sym, ◌∙◌, ◌==◌, arith, Bool-cases,
  all_of_contains, all-keep, if◌then◌else◌,
}
use pqtrust_agent_artifact.Prelude.Sort.{sort_by}
use pqtrust_agent_artifact.Prelude.Result.{Result, ok, ◌>>=◌, >>=-eq-ok}
use pqtrust_agent_artifact.Requirement.{AssuranceRequirement}
use pqtrust_agent_artifact.Policy.{TaskDescriptor, AgentPolicy}
use pqtrust_agent_artifact.Policy.Compilation.{
  RejectionCategory, category_eq, sort_rejection_categories, CapabilityManifestPayload,
}
use pqtrust_agent_artifact.Policy.Encoding.{build_constraint_encoding, profile_violated_categories}
use pqtrust_agent_artifact.Policy.Compiler.{
  pinned, check_status, canonical_categories, minimize_loop, minimize_core,
}
use pqtrust_agent_artifact.Policy.Compiler.Encoded.{
  at_index, hard_categories, fulfils, fulfils_assumed,
}
use pqtrust_agent_artifact.Policy.Compiler.Core.{
  last, and_true, violates, check_status-sat, check_status-unsat, canonical-hard,
  profile_violated_categories-keep,
}
use pqtrust_agent_artifact.Protocol.Models.{TrustProfile, ProfileCatalog}
use pqtrust_agent_artifact.Solver.{ℤ, Solver, Laws}

keep_drop :
    (c : RejectionCategory) (xs : List RejectionCategory)
    → contains c xs ≡ false
    → keep (λ x. not (x == c)) xs ≡ xs
keep_drop c [] h = refl
keep_drop c (x ∷ xs) h =
    ground (arith, category_eq.beq_iff x c, category_eq.beq_iff c x, keep_drop c xs)

keep_head :
    (c : RejectionCategory) (xs : List RejectionCategory)
    → contains c xs ≡ false
    → keep (λ x. not (x == c)) (c ∷ xs) ≡ xs
keep_head c xs h = ground (arith, category_eq.beq_iff c c, keep_drop c xs h)

pub if_true {ℓ} : {A : Type ℓ} (b : Bool) (x y : A) → b ≡ true → (if b then x else y) ≡ x
if_true true x y h = refl
if_true false x y h = cc

pub sort-last : (xs : List RejectionCategory) → sort_rejection_categories (last xs) ≡ last xs
unfolding sort_rejection_categories sort_by
sort-last [] = refl
sort-last (x ∷ []) = refl
sort-last (x ∷ y ∷ ys) = sort-last (y ∷ ys)

last-cons :
    (c : RejectionCategory) (xs : List RejectionCategory)
    → nonempty xs ≡ true
    → last (c ∷ xs) ≡ last xs
last-cons c [] h = cc
last-cons c (x ∷ xs) h = refl

empty_of : (xs : List RejectionCategory) → nonempty xs ≡ false → xs ≡ []
empty_of [] h = refl
empty_of (x ∷ xs) h = cc

true_of_not : (b : Bool) → not b ≡ false → b ≡ true
true_of_not b h = ground arith

false_of_not : (b : Bool) → not b ≡ true → b ≡ false
false_of_not b h = ground arith

ok_value :
    (r s : List RejectionCategory) → ◌≡◌ {A = Result (List RejectionCategory)} (ok r) (ok s) → r ≡ s
ok_value r s h = cc

module _ (f : RejectionCategory → Bool) where
  all_free : (hard : List RejectionCategory) → all (λ c. not (contains c []) || f c) hard ≡ true
  all_free [] = refl
  all_free (c ∷ cs) = all_free cs

  pub all-keep_self :
      (xs : List RejectionCategory) → all (λ c. not (f c)) (keep (λ c. not (f c)) xs) ≡ true
  all-keep_self [] = refl
  all-keep_self (x ∷ xs) = ground (arith, all-keep_self xs)

  -- If none of the assumed elements has the property, then it holds of all of them only if there
  -- are none.
  assumed_of :
      (ls hard : List RejectionCategory)
      → all (λ c. contains c hard) ls ≡ true
      → all (λ c. not (f c)) ls ≡ true
      → all (λ c. not (contains c ls) || f c) hard ≡ not (nonempty ls)
  assumed_of [] hard inside fails = all_free hard
  assumed_of (d ∷ ds) hard inside fails =
      elim (Bool-cases (all (λ c. not (contains c (d ∷ ds)) || f c) hard)) [
        | inl every ↦ absurd (
            ground (
              arith,
              category_eq.beq_iff d d,
              all_of_contains (λ c. not (contains c (d ∷ ds)) || f c) d hard every,
            ))
        | inr some_not ↦ some_not
      ]

module _ (manifest : CapabilityManifestPayload) (policy : AgentPolicy) (task : TaskDescriptor)
    (requirement : AssuranceRequirement) (check : Solver RejectionCategory) (laws : Laws check)
    (catalog : ProfileCatalog) (j : ℕ) (p : TrustProfile)
    (at_j : at_index j catalog.profiles ≡ some p) where
  abbrev v : RejectionCategory → Bool
  v = violates manifest policy task requirement p

  abbrev loop : List RejectionCategory → List RejectionCategory → Result (List RejectionCategory)
  loop = minimize_loop check (build_constraint_encoding manifest policy task requirement catalog) j

  -- Violated categories are satisfiable at the index only if there are none.
  assumed_nonempty :
      (cs : List RejectionCategory)
      → all (λ c. contains c hard_categories) (keep v cs) ≡ true
      → fulfils_assumed manifest policy task requirement p (keep v cs) ≡ not (nonempty (keep v cs))
  assumed_nonempty cs inside =
      assumed_of (fulfils manifest policy task requirement p) (keep v cs) hard_categories inside
        (all-keep_self (fulfils manifest policy task requirement p) cs)

  loop_other :
      (c : RejectionCategory) (cs : List RejectionCategory)
      → contains c cs ≡ false
      → loop cs (c ∷ []) ≡ ok (c ∷ [])
  unfolding minimize_loop
  loop_other c [] h = refl
  loop_other c (x ∷ xs) h =
      ground (arith, category_eq.beq_iff x c, category_eq.beq_iff c x, loop_other c xs)

  -- One step on a violated category, which the check of the others decides.
  loop_violated :
      (c : RejectionCategory) (cs r : List RejectionCategory) (status : Option ℤ)
      → contains c cs ≡ false
      → all (λ d. contains d hard_categories) cs ≡ true
      → (loop cs (keep v cs) ≡ ok r → r ≡ last (keep v cs))
      → check_status check
          (pinned (build_constraint_encoding manifest policy task requirement catalog) j)
          (keep v cs)
        ≡ ok status
      → loop cs (elim status [ none ↦ keep v cs | some i ↦ c ∷ keep v cs ]) ≡ ok r
      → r ≡ last (c ∷ keep v cs)
  loop_violated c cs r none fresh inside ih h k =
      let unmet =
        check_status-unsat manifest policy task requirement check laws catalog j p at_j (keep v cs)
          h in
      let left = assumed_nonempty cs (all-keep (λ d. contains d hard_categories) v cs inside) in
      ih k ∙ sym (last-cons c (keep v cs) (true_of_not _ (sym left ∙ unmet)))
  loop_violated c cs r (some i) fresh inside ih h k =
      let met =
        check_status-sat manifest policy task requirement check laws catalog j p at_j (keep v cs) i
          h in
      let left = assumed_nonempty cs (all-keep (λ d. contains d hard_categories) v cs inside) in
      let alone = empty_of (keep v cs) (false_of_not _ (sym left ∙ met)) in
      let stays = loop_other c cs fresh in
      let same = ap (λ (rest : List RejectionCategory). loop cs (c ∷ rest)) alone in
      let result = ap (λ (rest : List RejectionCategory). last (c ∷ rest)) alone in
      ok_value r (c ∷ []) (sym k ∙ (same ∙ stays)) ∙ sym result

  loop_skip :
      (c : RejectionCategory) (cs kept : List RejectionCategory)
      → contains c kept ≡ false
      → loop (c ∷ cs) kept ≡ loop cs kept
  unfolding minimize_loop
  loop_skip c cs kept h = rw h refl

  loop_step :
      (c : RejectionCategory) (cs kept : List RejectionCategory)
      → contains c kept ≡ false
      → loop (c ∷ cs) (c ∷ kept) ≡ (
          check_status check
            (pinned (build_constraint_encoding manifest policy task requirement catalog) j)
            kept
          >>= λ status. loop cs (elim status [ none ↦ kept | some i ↦ c ∷ kept ]))
  unfolding minimize_loop
  loop_step c cs kept h =
      if_true (contains c (c ∷ kept)) _ _ (ground (arith, category_eq.beq_iff c c))
      ∙ ap
          (λ (trial : List RejectionCategory).
            check_status check
              (pinned (build_constraint_encoding manifest policy task requirement catalog) j) trial
            >>= λ status. loop cs (elim status [ none ↦ trial | some i ↦ c ∷ kept ]))
          (keep_head c kept h)

  keep_fresh :
      (c : RejectionCategory) (cs : List RejectionCategory)
      → contains c cs ≡ false
      → contains c (keep v cs) ≡ false
  keep_fresh c cs h = ground (arith, contains-keep v c cs)

  loop-last :
      (cs r : List RejectionCategory)
      → distinct cs ≡ true
      → all (λ c. contains c hard_categories) cs ≡ true
      → loop cs (keep v cs) ≡ ok r
      → r ≡ last (keep v cs)
  unfolding minimize_loop
  loop-last [] r d inside h = ok_value r [] (sym h)
  loop-last (c ∷ cs) r d inside h =
      let (not_in, distinct_rest) = and_true (not (contains c cs)) (distinct cs) d in
      let (_, rest) = and_true _ (all (λ c. contains c hard_categories) cs) inside in
      let fresh = false_of_not (contains c cs) not_in in
      let kept_fresh = keep_fresh c cs fresh in
      let ih = loop-last cs r distinct_rest rest in
      elim (Bool-cases (v c)) [
        | inl violated ↦
            let kept : keep v (c ∷ cs) ≡ c ∷ keep v cs = rw violated refl in
            let (status, checked, result) =
              >>=-eq-ok _ _ (
                sym (loop_step c cs (keep v cs) kept_fresh)
                ∙ (sym (ap (loop (c ∷ cs)) kept) ∙ h)) in
            loop_violated c cs r status fresh rest ih checked result ∙ sym (ap last kept)
        | inr fulfilled ↦
            let kept : keep v (c ∷ cs) ≡ keep v cs = rw fulfilled refl in
            ih (sym (loop_skip c cs (keep v cs) kept_fresh) ∙ (sym (ap (loop (c ∷ cs)) kept) ∙ h))
            ∙ sym (ap last kept)
      ]

  abbrev violated : List RejectionCategory
  violated = profile_violated_categories manifest policy task requirement p

  -- If the minimization of a profile's violated categories returns, then it returns the last
  -- violated category alone.
  pub minimize_core-last :
      (r : List RejectionCategory)
      → minimize_core check
          (build_constraint_encoding manifest policy task requirement catalog)
          j
          violated
        ≡ ok r
      → r ≡ last violated
  unfolding minimize_core
  minimize_core-last r h =
      let (m, looped, sorted) = >>=-eq-ok _ _ h in
      let names = profile_violated_categories-keep manifest policy task requirement p in
      let start : loop hard_categories (keep v hard_categories)
          ≡ loop canonical_categories violated =
        sym (ap (loop hard_categories) names)
        ∙ sym (ap (λ (cs : List RejectionCategory). loop cs violated) canonical-hard) in
      let m_last = loop-last hard_categories m refl refl (start ∙ looped) in
      ok_value r _ (sym sorted)
      ∙ (ap sort_rejection_categories m_last
          ∙ (sort-last (keep v hard_categories) ∙ sym (ap last names)))
