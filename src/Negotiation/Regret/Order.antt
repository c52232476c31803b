-- ===== src/Negotiation/Regret/Order.antt =====
-- The tuples that the minimax choice sorts by are totally preordered, and the profile identifier
-- makes ties impossible between different profiles.
use pqtrust_agent_artifact.Prelude.{◌≡◌, Bool, true, false, arith}
use pqtrust_agent_artifact.Prelude.Text.{string_leb_total, string_leb_trans, string_leb_antisymm}
use pqtrust_agent_artifact.Negotiation.Decimals.{Decimals, Laws}
use pqtrust_agent_artifact.Negotiation.Regret.{RegretRow, row_leb, then_by}

module _ (D : Decimals) (L : Laws D) where
  open D use {Decimal, lt}
  open L use {irrefl, not_lt_trans, asymm}

  then_by_total :
      (a b : Decimal) (r s : Bool)
      → (r ≡ false → s ≡ true)
      → then_by D a b r ≡ false
      → then_by D b a s ≡ true
  then_by_total a b r s k h = ground (arith, k)

  then_by_trans :
      (a b c : Decimal) (p q r : Bool)
      → (p ≡ true → q ≡ true → r ≡ true)
      → then_by D a b p ≡ true
      → then_by D b c q ≡ true
      → then_by D a c r ≡ true
  then_by_trans a b c p q r k h m = ground (
    arith,
    k,
    not_lt_trans a c b,
    not_lt_trans b a c,
    not_lt_trans c b a,
    asymm a b,
    asymm b c,
    asymm a c,
    asymm c a,
  )

  then_by_antisymm :
      (a b : Decimal) (r s : Bool)
      → then_by D a b r ≡ true
      → then_by D b a s ≡ true
      → (r ≡ true) × (s ≡ true)
  then_by_antisymm a b r s h k = ground (arith, asymm a b, asymm b a)

  pub row_leb_total : (a b : RegretRow Decimal) → row_leb D a b ≡ false → row_leb D b a ≡ true
  unfolding row_leb
  row_leb_total a b = then_by_total _ _ _ _ (
      then_by_total _ _ _ _ (
        then_by_total _ _ _ _ (then_by_total _ _ _ _ (string_leb_total a.profile_id b.profile_id))))

  pub row_leb_trans :
      (a b c : RegretRow Decimal)
      → row_leb D a b ≡ true
      → row_leb D b c ≡ true
      → row_leb D a c ≡ true
  unfolding row_leb
  row_leb_trans a b c = then_by_trans _ _ _ _ _ _ (
      then_by_trans _ _ _ _ _ _ (
        then_by_trans _ _ _ _ _ _
          (then_by_trans _ _ _ _ _ _ (string_leb_trans a.profile_id b.profile_id c.profile_id))))

  -- Two rows that are below one another belong to the same profile.
  pub row_leb_antisymm :
      (a b : RegretRow Decimal)
      → row_leb D a b ≡ true
      → row_leb D b a ≡ true
      → a.profile_id ≡ b.profile_id
  unfolding row_leb
  row_leb_antisymm a b h k =
      let p = then_by_antisymm _ _ _ _ h k in
      let q = then_by_antisymm _ _ _ _ p.0 p.1 in
      let r = then_by_antisymm _ _ _ _ q.0 q.1 in
      let s = then_by_antisymm _ _ _ _ r.0 r.1 in
      string_leb_antisymm a.profile_id b.profile_id s.0 s.1
