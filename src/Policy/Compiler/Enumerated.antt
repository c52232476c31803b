-- ===== src/Policy/Compiler/Enumerated.antt =====
-- What the enumeration of src/pqtrust_agent/policy/compiler.py finds: each index that satisfies the
-- encoding, once. And sorted lists of integers with the same members are equal.
use pqtrust_agent_artifact.Prelude.{
  ℕ, zero, suc, ◌<◌, Bool, true, false, not, ◌&&◌, ◌||◌, List, [], ◌∷◌, ◌++◌, contains, distinct,
  all_of_contains, Option, none, some, Eq, ◌==◌, ◌≡◌, ◌↔◌, ◌⊎◌, inl, inr, refl, ap, sym, ◌∙◌, arith,
  Bool-cases, is_sorted,
}
use pqtrust_agent_artifact.Prelude.Result.{Result, ok, err}
use pqtrust_agent_artifact.Policy.Compilation.{RejectionCategory, category_eq}
use pqtrust_agent_artifact.Policy.Compiler.{
  canonical_categories, check_status, enumerate_indexes, int_leb, int_list_beq,
}
use pqtrust_agent_artifact.Policy.Compiler.Enumeration.{Within, count, count-exclude, meets-exclude}
use pqtrust_agent_artifact.Solver.{ℤ, int_beq, index_ne, Assertion, plain, sat, unsat, Solver, Laws}
use pqtrust_agent_artifact.Solver.Meaning.{meets, sat-meets, unsat-meets, Decides, Decides-cases}

pub int_beq_iff : (a b : ℤ) → (int_beq a b ≡ true) ↔ (a ≡ b)
int_beq_iff a b = ground arith

instance abbrev pub int_eq : Eq ℤ
int_eq = record { beq = int_beq; beq_iff = int_beq_iff }

pub int_leb_total : (a b : ℤ) → int_leb a b ≡ false → int_leb b a ≡ true
int_leb_total a b h = ground arith

pub int_leb_trans : (a b c : ℤ) → int_leb a b ≡ true → int_leb b c ≡ true → int_leb a c ≡ true
int_leb_trans a b c h k = ground arith

int_leb_antisymm : (a b : ℤ) → int_leb a b ≡ true → int_leb b a ≡ true → a ≡ b
int_leb_antisymm a b h k = ground arith

pub int_list_beq_self : (xs : List ℤ) → int_list_beq xs xs ≡ true
int_list_beq_self [] = refl
int_list_beq_self (x ∷ xs) = ground (arith, int_beq_iff x x, int_list_beq_self xs)

contains_head : (x : ℤ) (xs : List ℤ) → contains x (x ∷ xs) ≡ true
contains_head x xs = ground (arith, int_beq_iff x x)

-- The head of a sorted list is below its members.
below_member :
    (x y : ℤ) (xs : List ℤ)
    → is_sorted int_leb (x ∷ xs) ≡ true
    → contains y (x ∷ xs) ≡ true
    → int_leb x y ≡ true
below_member x y xs h m = ground (arith, int_beq_iff y x, all_of_contains (int_leb x) y xs)

pub sorted_unique :
    (xs ys : List ℤ)
    → is_sorted int_leb xs ≡ true
    → is_sorted int_leb ys ≡ true
    → distinct xs ≡ true
    → distinct ys ≡ true
    → ((i : ℤ) → contains i xs ≡ contains i ys)
    → xs ≡ ys
sorted_unique [] [] sx sy dx dy same = refl
sorted_unique [] (y ∷ ys) sx sy dx dy same =
    let member = same y in let head = contains_head y ys in absurd (ground arith)
sorted_unique (x ∷ xs) [] sx sy dx dy same =
    let member = same x in let head = contains_head x xs in absurd (ground arith)
sorted_unique (x ∷ xs) (y ∷ ys) sx sy dx dy same =
    let x_in = sym (same x) ∙ contains_head x xs in
    let y_in = same y ∙ contains_head y ys in
    let heads = int_leb_antisymm x y (below_member x y xs sx y_in) (below_member y x ys sy x_in) in
    let tails =
      sorted_unique xs ys (ground arith) (ground arith) (ground arith) (ground arith)
        (λ i. tail_members x y i xs ys heads (ground arith) (ground arith) (same i)) in
    ap (λ (z : ℤ). z ∷ xs) heads ∙ ap (λ (zs : List ℤ). y ∷ zs) tails
  where
    tail_members :
        (x y i : ℤ) (xs ys : List ℤ)
        → x ≡ y
        → contains x xs ≡ false
        → contains y ys ≡ false
        → contains i (x ∷ xs) ≡ contains i (y ∷ ys)
        → contains i xs ≡ contains i ys
    tail_members x y i xs ys heads nx ny h = elim (Bool-cases (i == x)) [
      | inl here ↦
          let i_x : i ≡ x = ground (arith, int_beq_iff i x) in
          let not_xs = ap (λ (k : ℤ). contains k xs) i_x ∙ nx in
          let not_ys = ap (λ (k : ℤ). contains k ys) (i_x ∙ heads) ∙ ny in not_xs ∙ sym not_ys
      | inr other ↦ let not_y = sym (ap (λ (k : ℤ). i == k) heads) ∙ other in ground arith
    ]

contains-append :
    (i : ℤ) (xs ys : List ℤ) → contains i (xs ++ ys) ≡ (contains i xs || contains i ys)
contains-append i [] ys = refl
contains-append i (x ∷ xs) ys = ground (arith, contains-append i xs ys)

distinct-snoc :
    (xs : List ℤ) (i : ℤ)
    → distinct xs ≡ true
    → contains i xs ≡ false
    → distinct (xs ++ (i ∷ [])) ≡ true
distinct-snoc [] i h k = refl
distinct-snoc (x ∷ xs) i h k =
    ground
      (arith, int_beq_iff i x, int_beq_iff x i, contains-append x xs (i ∷ []), distinct-snoc xs i)

module _ (check : Solver RejectionCategory) (laws : Laws check) (decides : Decides check) where
  status-sat :
      (assertions : List (Assertion RejectionCategory)) (ls : List RejectionCategory) (i : ℤ)
      → check assertions ls ≡ sat i
      → check_status check assertions ls ≡ ok (some i)
  unfolding check_status
  status-sat assertions ls i h = ground arith

  status-unsat :
      (assertions : List (Assertion RejectionCategory)) (ls core : List RejectionCategory)
      → check assertions ls ≡ unsat core
      → check_status check assertions ls ≡ ok none
  unfolding check_status
  status-unsat assertions ls core h = ground arith

  -- The enumeration after the status of one round.
  abbrev after_status :
      ℕ → List (Assertion RejectionCategory) → List ℤ → Result (Option ℤ) → Option (Result (List ℤ))
  after_status fuel assertions found (err e) = some (err e)
  after_status fuel assertions found (ok none) = some (ok found)
  after_status fuel assertions found (ok (some i)) =
      enumerate_indexes check fuel (assertions ++ (plain (index_ne i) ∷ [])) (found ++ (i ∷ []))

  enumerate-suc :
      (fuel : ℕ) (assertions : List (Assertion RejectionCategory)) (found : List ℤ)
      (status : Result (Option ℤ))
      → check_status check assertions canonical_categories ≡ status
      → enumerate_indexes check (suc fuel) assertions found
        ≡ after_status fuel assertions found status
  unfolding enumerate_indexes
  enumerate-suc fuel assertions found status h =
      sym (go (check_status check assertions canonical_categories))
      ∙ ap (after_status fuel assertions found) h
    where
      go :
          (s : Result (Option ℤ))
          → after_status fuel assertions found s ≡ elim s as (λ r. Option (Result (List ℤ))) [
            | err e ↦ some (err e)
            | ok o ↦ elim o as (λ r. Option (Result (List ℤ))) [
              | none ↦ some (ok found)
              | some i ↦
                  enumerate_indexes check fuel
                    (assertions ++ (plain (index_ne i) ∷ []))
                    (found ++ (i ∷ []))
            ]
          ]
      go (err e) = refl
      go (ok none) = refl
      go (ok (some i)) = refl

  -- The status of a solver that decides, with what it says of the assertions.
  pub check_status-cases :
      (assertions : List (Assertion RejectionCategory)) (ls : List RejectionCategory)
      → ((i : ℤ) × (check_status check assertions ls ≡ ok (some i))
          × (meets assertions ls i ≡ true))
        ⊎ ((check_status check assertions ls ≡ ok none) × ((i : ℤ) → meets assertions ls i ≡ false))
  check_status-cases assertions ls = elim (Decides-cases check decides assertions ls) [
    | inl (i, answer) ↦
        inl (i, status-sat assertions ls i answer, sat-meets check laws assertions ls i answer)
    | inr (core, answer) ↦ inr (
      status-unsat assertions ls core answer,
      λ i. unsat-meets check laws assertions ls core i answer,
    )
  ]

  module _ (n : ℕ) (passes : ℤ → Bool) (inside : Within n passes) where
    -- The list of every index that passes, once.
    pub record IsEnumeration (found : List ℤ) : Type 0 where
      pub once : distinct found ≡ true
      pub members : (i : ℤ) → contains i found ≡ passes i

    step-excluded :
        (assertions : List (Assertion RejectionCategory)) (found : List ℤ) (i : ℤ)
        → ((k : ℤ) → meets assertions canonical_categories k ≡ (passes k && not (contains k found)))
        → (k : ℤ)
        → meets (assertions ++ (plain (index_ne i) ∷ [])) canonical_categories k
          ≡ (passes k && not (contains k (found ++ (i ∷ []))))
    step-excluded assertions found i left k =
        let excluded = meets-exclude assertions canonical_categories k i in
        let appended = contains-append k found (i ∷ []) in let before = left k in ground arith

    step-found :
        (found : List ℤ) (i : ℤ)
        → ((k : ℤ) → contains k found ≡ true → passes k ≡ true)
        → passes i ≡ true
        → (k : ℤ) → contains k (found ++ (i ∷ [])) ≡ true
        → passes k ≡ true
    step-found found i among passed k h = elim (Bool-cases (contains k found)) [
      | inl earlier ↦ among k earlier
      | inr last ↦
          let appended = contains-append k found (i ∷ []) in
          let same : k ≡ i = ground (arith, int_beq_iff k i) in ap passes same ∙ passed
    ]

    all_found :
        (k : ℤ) (found : List ℤ) {m : Bool}
        → m ≡ (passes k && not (contains k found))
        → m ≡ false
        → (contains k found ≡ true → passes k ≡ true)
        → contains k found ≡ passes k
    all_found k found h unmet among = ground (arith, among)

    pub enumerate_indexes-IsEnumeration :
        (fuel : ℕ) (assertions : List (Assertion RejectionCategory)) (found : List ℤ)
        → count (meets assertions canonical_categories) n < fuel
        → distinct found ≡ true
        → ((k : ℤ) → meets assertions canonical_categories k ≡ (passes k && not (contains k found)))
        → ((k : ℤ) → contains k found ≡ true → passes k ≡ true)
        → (r : List ℤ) × (enumerate_indexes check fuel assertions found ≡ some (ok r))
          × IsEnumeration r
    enumerate_indexes-IsEnumeration zero assertions found h d left among = absurd (omega arith)
    enumerate_indexes-IsEnumeration (suc fuel) assertions found h d left among =
        elim (check_status-cases assertions canonical_categories) [
          | inl (i, answer, met) ↦
              let before = left i in
              let passed : passes i ≡ true = ground arith in
              let (j, here, below) = inside i passed in
              let fewer =
                count-exclude (meets assertions canonical_categories)
                  (meets (assertions ++ (plain (index_ne i) ∷ [])) canonical_categories) j n
                  (λ k.
                    meets-exclude assertions canonical_categories k i
                    ∙ ap (λ (x : ℤ). meets assertions canonical_categories k && not (int_beq k x))
                        here)
                  below (ap (meets assertions canonical_categories) (sym here) ∙ met) in
              let (r, returned, is_enumeration) =
                enumerate_indexes-IsEnumeration fuel (assertions ++ (plain (index_ne i) ∷ []))
                  (found ++ (i ∷ [])) (omega arith) (distinct-snoc found i d (ground arith))
                  (step-excluded assertions found i left) (step-found found i among passed) in
              (
                r,
                enumerate-suc fuel assertions found (ok (some i)) answer ∙ returned,
                is_enumeration,
              )
          | inr (answer, unmet) ↦ (
            found,
            enumerate-suc fuel assertions found (ok none) answer,
            record { once = d; members = λ k. all_found k found (left k) (unmet k) (among k) },
          )
        ]
