-- ===== src/Tests/Numbers.antt =====
-- A concrete `Decimals` over the integers, an integer being the difference of its two parts, with
-- a quotient rounded down to 0 or 1, and the laws that it satisfies.
use pqtrust_agent_artifact.Prelude.{ℕ, ◌+◌, ◌*◌, Bool, ltb, if◌then◌else◌, arith}
use pqtrust_agent_artifact.Negotiation.Decimals.{Decimals, Laws}

abbrev less : ℕ × ℕ → ℕ × ℕ → Bool
less (a, b) (c, d) = ltb (a + d) (c + b)

abbrev minus : ℕ × ℕ → ℕ × ℕ → ℕ × ℕ
minus (a, b) (c, d) = (a + d, b + c)

abbrev quotient : ℕ × ℕ → ℕ × ℕ → ℕ × ℕ
quotient x y = if less x y then (0, 0) else (1, 0)

abbrev pub integers : Decimals
integers = record {
  Decimal = ℕ × ℕ;
  lt = less;
  of_int = λ n. (n, 0);
  add = λ x y. (x.0 + y.0, x.1 + y.1);
  sub = minus;
  mul = λ x y. (x.0 * y.0 + x.1 * y.1, x.0 * y.1 + x.1 * y.0);
  div = quotient;
}

pub integers-Laws : Laws integers
integers-Laws = record {
  irrefl = λ a. ground arith;
  not_lt_trans = λ a b c h k. ground arith;
  asymm = λ a b h. ground arith;
  sub_neg = λ a b. ground arith;
  sub_pos = λ a b. ground arith;
  div_nonneg = λ a b h k. ground arith;
  div_le_one = λ a b h k. ground arith;
  sub_mono = λ a b c h. ground arith;
}
