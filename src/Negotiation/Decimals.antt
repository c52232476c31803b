-- ===== src/Negotiation/Decimals.antt =====
-- Python's `decimal.Decimal` as the selector uses it: an interface, since the rounding of the
-- decimal context is the standard library's. `Laws` is what the negotiation relies on, for the
-- finite values that the evidence loader admits. Two decimals may be numerically equal and
-- differ in their digits (1.0 and 1.00), so the order is weak.
use pqtrust_agent_artifact.Prelude.{ℕ, Bool, true, false, not, ◌&&◌, ◌≡◌, if◌then◌else◌}

pub record Decimals : Type 1 where
  pub Decimal : Type 0
  pub lt : Decimal → Decimal → Bool
  pub of_int : ℕ → Decimal
  pub add : Decimal → Decimal → Decimal
  pub sub : Decimal → Decimal → Decimal
  pub mul : Decimal → Decimal → Decimal
  pub div : Decimal → Decimal → Decimal

module _ (D : Decimals) where
  open D use {Decimal, lt}

  -- `a == b` and `max(a, b)`; Python's `max` keeps the first of two equal values.
  abbrev pub num_eq : Decimal → Decimal → Bool
  num_eq a b = not (lt a b) && not (lt b a)

  abbrev pub max2 : Decimal → Decimal → Decimal
  max2 a b = if lt a b then b else a

  abbrev pub min2 : Decimal → Decimal → Decimal
  min2 a b = if lt b a then b else a

-- The documented behaviour that the theorems take as a hypothesis: comparison is a strict weak
-- order, a difference has the sign of the comparison, and a quotient of a number between zero and
-- the positive divisor, correctly rounded, lies between zero and one.
pub record Laws (D : Decimals) : Type 0 where
  pub irrefl : (a : D.Decimal) → D.lt a a ≡ false
  pub not_lt_trans : (a b c : D.Decimal) → D.lt a b ≡ false → D.lt b c ≡ false → D.lt a c ≡ false
  pub asymm : (a b : D.Decimal) → D.lt a b ≡ true → D.lt b a ≡ false
  pub sub_neg : (a b : D.Decimal) → D.lt (D.sub a b) (D.of_int 0) ≡ D.lt a b
  pub sub_pos : (a b : D.Decimal) → D.lt (D.of_int 0) (D.sub a b) ≡ D.lt b a
  pub div_nonneg :
      (a b : D.Decimal)
      → D.lt a (D.of_int 0) ≡ false
      → D.lt (D.of_int 0) b ≡ true
      → D.lt (D.div a b) (D.of_int 0) ≡ false
  pub div_le_one :
      (a b : D.Decimal)
      → D.lt (D.of_int 0) b ≡ true
      → D.lt b a ≡ false
      → D.lt (D.of_int 1) (D.div a b) ≡ false
  pub sub_mono : (a b c : D.Decimal) → D.lt b a ≡ false → D.lt (D.sub b c) (D.sub a c) ≡ false
