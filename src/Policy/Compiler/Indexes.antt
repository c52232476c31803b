-- ===== src/Policy/Compiler/Indexes.antt =====
-- The indexes that the enumeration of src/pqtrust_agent/policy/compiler.py finds, against those of the
-- accepted rows.
use pqtrust_agent_artifact.Prelude.{
  ℕ, zero, suc, ◌+◌, ◌<◌, ◌≤◌, Bool, true, false, ◌&&◌, ◌||◌, List, [], ◌∷◌, map, contains,
  distinct, length, Option, none, some, ◌≡◌, inl, inr, refl, ap, sym, ◌∙◌, arith, Option-cases,
  sort_by, contains-sort_by, distinct-map-sort_by, is_sorted-sort_by,
}
use pqtrust_agent_artifact.Prelude.Result.{ok}
use pqtrust_agent_artifact.Requirement.{AssuranceRequirement}
use pqtrust_agent_artifact.Policy.{TaskDescriptor, AgentPolicy}
use pqtrust_agent_artifact.Policy.Compilation.{
  RejectionCategory, category_eq, CapabilityManifestPayload,
}
use pqtrust_agent_artifact.Policy.Encoding.{build_constraint_encoding}
use pqtrust_agent_artifact.Policy.Compiler.{
  canonical_categories, assert_encoding, enumerate_indexes, int_leb,
}
use pqtrust_agent_artifact.Policy.Compiler.Core.{canonical-hard}
use pqtrust_agent_artifact.Policy.Compiler.Encoded.{at_index, meets_encoding, hard_categories}
use pqtrust_agent_artifact.Policy.Compiler.Decisions.{is_safe}
use pqtrust_agent_artifact.Policy.Compiler.Enumeration.{encoding-Within, enough}
use pqtrust_agent_artifact.Policy.Compiler.Enumerated.{
  int_eq, int_leb_total, int_leb_trans, sorted_unique, IsEnumeration,
  enumerate_indexes-IsEnumeration,
}
use pqtrust_agent_artifact.Policy.Compiler.Rows.{
  accepted_indexes, safe_from, contains-accepted_indexes, accepted_indexes-sorted,
  accepted_indexes-distinct, safe_from-below,
}
use pqtrust_agent_artifact.Protocol.Models.{TrustProfile, ProfileCatalog}
use pqtrust_agent_artifact.Solver.{ℤ, pos, negsuc, int_beq, Solver, Laws}
use pqtrust_agent_artifact.Solver.Meaning.{meets, Decides}

map_self : (xs : List ℤ) → map (λ x. x) xs ≡ xs
map_self [] = refl
map_self (x ∷ xs) = ap (λ (ys : List ℤ). x ∷ ys) (map_self xs)

-- The sort of distinct integers.
distinct-sort : (xs : List ℤ) → distinct xs ≡ true → distinct (sort_by int_leb xs) ≡ true
distinct-sort xs h =
    ap distinct (sym (map_self (sort_by int_leb xs)))
    ∙ (distinct-map-sort_by int_leb (λ x. x) xs ∙ (ap distinct (map_self xs) ∙ h))

at_index-none : (j : ℕ) (ps : List TrustProfile) → at_index j ps ≡ none → length ps ≤ j
at_index-none j [] h = omega arith
at_index-none zero (p ∷ ps) h = cc
at_index-none (suc j) (p ∷ ps) h = omega (arith, at_index-none j ps h)

past : (n j m : ℕ) → m ≤ n → n ≡ j → ¬ (j < m)
past n j m h same below = omega arith

none_found : (b : Bool) → b ≡ (b && true)
none_found b = ground arith

head_true : (b s r : Bool) → b ≡ true → r ≡ false → (b && s || r) ≡ s
head_true b s r h k = ground arith

head_false : (b s r : Bool) → b ≡ false → (b && s || r) ≡ r
head_false b s r h = ground arith

at_same : (n k : ℕ) → n ≡ k + 0 → int_beq (pos n) (pos k) ≡ true
at_same n k h = ground arith

at_other : (n k j : ℕ) → n ≡ k + suc j → int_beq (pos n) (pos k) ≡ false
at_other n k j h = ground arith

at_above : (n k m : ℕ) → k + suc m ≤ n → int_beq (pos n) (pos k) ≡ false
at_above n k m h = ground arith

same_profile : (q p : TrustProfile) → ◌≡◌ {A = Option TrustProfile} (some q) (some p) → q ≡ p
same_profile q p h = cc

negative : (n j : ℕ) → ¬ (negsuc n ≡ pos j)
negative n j h = cc

same_index : (n j : ℕ) → pos n ≡ pos j → n ≡ j
same_index n j h = cc

not_within :
    {n : ℕ} {i : ℤ} (b : Bool)
    → (b ≡ true → (j : ℕ) × (i ≡ pos j) × (j < n))
    → ((j : ℕ) → i ≡ pos j → ¬ (j < n))
    → b ≡ false
not_within true within h = let (j, same, below) = within refl in absurd (h j same below)
not_within false within h = refl

module _ (check : Solver RejectionCategory) (laws : Laws check) (decides : Decides check)
    (manifest : CapabilityManifestPayload) (policy : AgentPolicy) (task : TaskDescriptor)
    (requirement : AssuranceRequirement) (catalog : ProfileCatalog) where
  abbrev pub safe_at : ℕ → List TrustProfile → ℤ → Bool
  safe_at = safe_from check laws decides manifest policy task requirement catalog

  abbrev pub passes : ℤ → Bool
  passes =
      meets (assert_encoding (build_constraint_encoding manifest policy task requirement catalog))
        canonical_categories

  safe_at-negsuc : (k n : ℕ) (ps : List TrustProfile) → safe_at k ps (negsuc n) ≡ false
  safe_at-negsuc k n [] = refl
  safe_at-negsuc k n (p ∷ ps) = safe_at-negsuc (suc k) n ps

  safe_at-index :
      (k j n : ℕ) (ps : List TrustProfile) (p : TrustProfile)
      → n ≡ k + j
      → at_index j ps ≡ some p
      → safe_at k ps (pos n) ≡ is_safe manifest policy task requirement p
  safe_at-index k j n [] p e h = cc
  safe_at-index k zero n (q ∷ ps) p e h =
      let rest =
        safe_from-below check laws decides manifest policy task requirement catalog (suc k) n ps
          (omega arith) in
      head_true (int_beq (pos n) (pos k)) (is_safe manifest policy task requirement q)
        (safe_at (suc k) ps (pos n)) (at_same n k e) rest
      ∙ ap (is_safe manifest policy task requirement) (same_profile q p h)
  safe_at-index k (suc j) n (q ∷ ps) p e h =
      let rest = safe_at-index (suc k) j n ps p (omega arith) h in
      head_false (int_beq (pos n) (pos k)) (is_safe manifest policy task requirement q)
        (safe_at (suc k) ps (pos n)) (at_other n k j e)
      ∙ rest

  safe_at-outside :
      (k n : ℕ) (ps : List TrustProfile) → k + length ps ≤ n → safe_at k ps (pos n) ≡ false
  safe_at-outside k n [] h = refl
  safe_at-outside k n (q ∷ ps) h =
      head_false (int_beq (pos n) (pos k)) (is_safe manifest policy task requirement q)
        (safe_at (suc k) ps (pos n)) (at_above n k (length ps) h)
      ∙ safe_at-outside (suc k) n ps (omega arith)

  passes-safe_at : (i : ℤ) → passes i ≡ safe_at 0 catalog.profiles i
  passes-safe_at (negsuc n) =
      not_within (passes (negsuc n))
        (encoding-Within manifest policy task requirement catalog (negsuc n))
        (λ j same below. negative n j same)
      ∙ sym (safe_at-negsuc 0 n catalog.profiles)
  passes-safe_at (pos n) = elim (Option-cases (at_index n catalog.profiles)) [
    | inl missing ↦
        let beyond = at_index-none n catalog.profiles missing in
        not_within (passes (pos n))
          (encoding-Within manifest policy task requirement catalog (pos n))
          (λ j same below. past n j (length catalog.profiles) beyond (same_index n j same) below)
        ∙ sym (safe_at-outside 0 n catalog.profiles (omega arith))
    | inr (p, found) ↦
        ap
          (λ (ls : List RejectionCategory).
            meets
              (assert_encoding (build_constraint_encoding manifest policy task requirement catalog))
              ls (pos n))
          canonical-hard
        ∙ (meets_encoding manifest policy task requirement catalog n p hard_categories found
            ∙ sym (safe_at-index 0 n n catalog.profiles p (omega arith) found))
  ]

  -- The enumeration finds the indexes of the safe profiles, in some order.
  pub enumerated :
      (found : List ℤ) × (enumerate_indexes check
          (suc (length catalog.profiles))
          (assert_encoding (build_constraint_encoding manifest policy task requirement catalog))
          []
        ≡ some (ok found))
      × IsEnumeration check laws decides
          (length catalog.profiles)
          passes
          (encoding-Within manifest policy task requirement catalog)
          found
  enumerated =
      enumerate_indexes-IsEnumeration check laws decides (length catalog.profiles) passes
        (encoding-Within manifest policy task requirement catalog) (suc (length catalog.profiles))
        (assert_encoding (build_constraint_encoding manifest policy task requirement catalog)) []
        (enough passes (length catalog.profiles)) refl (λ k. none_found (passes k))
        (λ k h. absurd (ground arith))

  abbrev pub accepted : List ℤ
  accepted =
      accepted_indexes check laws decides manifest policy task requirement catalog 0
        catalog.profiles

  pub enumerated-sorted :
      (found : List ℤ)
      → distinct found ≡ true
      → ((i : ℤ) → contains i found ≡ passes i)
      → sort_by int_leb found ≡ accepted
  enumerated-sorted found once members =
      sorted_unique (sort_by int_leb found) accepted
        (is_sorted-sort_by int_leb int_leb_total int_leb_trans found)
        (accepted_indexes-sorted check laws decides manifest policy task requirement catalog 0
          catalog.profiles)
        (distinct-sort found once)
        (accepted_indexes-distinct check laws decides manifest policy task requirement catalog 0
          catalog.profiles)
        (λ i.
          contains-sort_by int_leb i found
          ∙ (members i
              ∙ (passes-safe_at i
                  ∙ sym (
                      contains-accepted_indexes check laws decides manifest policy task requirement
                        catalog i 0 catalog.profiles))))
