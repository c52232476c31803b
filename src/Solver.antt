-- ===== src/Solver.antt =====
-- The fragment of Z3 that the program uses: formulas over one integer, the index of the selected
-- profile, each asserted as it stands or under a Boolean label, and a check under assumed labels.
-- `assert_and_track` is an assertion under a label that the check assumes. The solver itself is a
-- parameter, with the meaning of its answers as `Laws`.
pub mod Meaning
use pqtrust_agent_artifact.Prelude.{
  ℕ, Bool, true, false, not, ◌&&◌, ◌||◌, List, [], ◌∷◌, all, contains, distinct, ltb, nat_beq, Eq,
  ◌≡◌,
}

-- An integer: `negsuc n` is `-n - 1`.
pub data ℤ : Type 0 where
  pos negsuc : ℕ → ℤ

abbrev pub int_beq : ℤ → ℤ → Bool
int_beq (pos m) (pos n) = nat_beq m n
int_beq (negsuc m) (negsuc n) = nat_beq m n
int_beq (pos m) (negsuc n) = false
int_beq (negsuc m) (pos n) = false

pub data Formula : Type 0 where
  index_eq index_ne : ℤ → Formula
  index_nonneg : Formula
  index_below : ℕ → Formula
  constant : Bool → Formula
  both either : Formula → Formula → Formula

unfoldable pub holds : Formula → ℤ → Bool
holds (index_eq k) i = int_beq i k
holds (index_ne k) i = not (int_beq i k)
holds index_nonneg (pos n) = true
holds index_nonneg (negsuc n) = false
holds (index_below m) (pos n) = ltb n m
holds (index_below m) (negsuc n) = true
holds (constant b) i = b
holds (both f g) i = holds f i && holds g i
holds (either f g) i = holds f i || holds g i

-- `solver.add(f)`, and `solver.add(Implies(label, f))`
pub data Assertion (L : Type 0) : Type 0 where
  plain : Formula → Assertion L
  under : L → Formula → Assertion L

-- The answers of a check: the value of the index in the model, or the labels of the core.
pub data Status (L : Type 0) : Type 0 where
  sat : ℤ → Status L
  unsat : List L → Status L
  unknown : Status L

abbrev pub Solver : Type 0 → Type 0
Solver L = List (Assertion L) → (assumptions : List L) → Status L

module _ {L : Type 0} where
  unfoldable pub satisfies : (L → Bool) → ℤ → Assertion L → Bool
  satisfies labels i (plain f) = holds f i
  satisfies labels i (under l f) = not (labels l) || holds f i

  -- A model satisfies the assertions and the assumed labels. A core is a part of the assumed labels
  -- that no index and no labels satisfy together with the assertions, with a label once if it is
  -- assumed once.
  pub record Laws ⦃e : Eq L⦄ (check : Solver L) : Type 0 where
    pub model :
        (assertions : List (Assertion L)) (assumptions : List L) (i : ℤ)
        → check assertions assumptions ≡ sat i
        → (labels : L → Bool) × (all labels assumptions ≡ true)
          × (all (satisfies labels i) assertions ≡ true)
    pub core_assumed :
        (assertions : List (Assertion L)) (assumptions core : List L)
        → check assertions assumptions ≡ unsat core
        → all (λ l. contains l assumptions) core ≡ true
    pub core_distinct :
        (assertions : List (Assertion L)) (assumptions core : List L)
        → check assertions assumptions ≡ unsat core
        → distinct assumptions ≡ true
        → distinct core ≡ true
    pub refuted :
        (assertions : List (Assertion L)) (assumptions core : List L) (i : ℤ) (labels : L → Bool)
        → check assertions assumptions ≡ unsat core
        → all labels core ≡ true
        → all (satisfies labels i) assertions ≡ false
