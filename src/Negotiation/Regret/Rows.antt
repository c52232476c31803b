-- ===== src/Negotiation/Regret/Rows.antt =====
-- The regret table exists for every nonempty frontier: none of its guards can fire.
use pqtrust_agent_artifact.Prelude.{
  ◌≡◌, refl, ◌∙◌, String, true, false, not, List, [], ◌∷◌, map, all, nonempty, arith,
}
use pqtrust_agent_artifact.Prelude.Result.{ok}
use pqtrust_agent_artifact.Negotiation.Decimals.{Decimals, Laws, num_eq, min2}
use pqtrust_agent_artifact.Negotiation.Cost.{CostVector}
use pqtrust_agent_artifact.Negotiation.Normalization.{fold1}
use pqtrust_agent_artifact.Negotiation.Regret.{
  AgentCostPreference, RegretRow, regret_row, regret_loop, no_zero, initiator_total,
  responder_total, compute_regret_rows,
}

module _ (D : Decimals) (L : Laws D) where
  open D use {Decimal, lt, of_int, sub}
  open L use {irrefl, not_lt_trans, asymm, sub_neg, sub_pos}

  -- The least of a nonempty list exists, is at most every element, and is one of them.
  pub record IsMinimum (xs : List Decimal) (m : Decimal) : Type 0 where
    pub below : all (λ x. not (lt x m)) xs ≡ true
    pub member : all (λ x. not (num_eq D x m)) xs ≡ false

  lt_min : (x y : Decimal) → (lt x (min2 D x y) ≡ false) × (lt y (min2 D x y) ≡ false)
  lt_min x y = ground (arith, irrefl x, irrefl y, asymm y x)

  IsMinimum-cons :
      (x y m : Decimal) (ys : List Decimal)
      → IsMinimum (min2 D x y ∷ ys) m
      → IsMinimum (x ∷ y ∷ ys) m
  IsMinimum-cons x y m ys h = record {
    below =
        ground (
          arith,
          h.below,
          lt_min x y,
          not_lt_trans x (min2 D x y) m,
          not_lt_trans y (min2 D x y) m,
        );
    member = ground (arith, h.member);
  }

  pub fold1-IsMinimum :
      (x : Decimal) (xs : List Decimal)
      → (m : Decimal) × (fold1 D (min2 D) (x ∷ xs) ≡ ok m) × IsMinimum (x ∷ xs) m
  fold1-IsMinimum x [] =
      (x, refl, record { below = ground (arith, irrefl x); member = ground (arith, irrefl x) })
  fold1-IsMinimum x (y ∷ ys) =
      let (m, e, h) = fold1-IsMinimum (min2 D x y) ys in (m, e, IsMinimum-cons x y m ys h)

  module _ (normalized_vectors : String → CostVector Decimal)
      (initiator responder : AgentCostPreference) where
    abbrev pub row : Decimal → Decimal → String → RegretRow Decimal
    row = regret_row D normalized_vectors initiator responder

    abbrev pub initiator_totals : List String → List Decimal
    initiator_totals = map (initiator_total D normalized_vectors initiator responder)

    abbrev pub responder_totals : List String → List Decimal
    responder_totals = map (responder_total D normalized_vectors initiator responder)

    regret_loop_ok :
        (mi mr : Decimal) (ids : List String)
        → all (λ x. not (lt x mi)) (initiator_totals ids) ≡ true
        → all (λ x. not (lt x mr)) (responder_totals ids) ≡ true
        → regret_loop D normalized_vectors initiator responder mi mr ids ≡ ok (map (row mi mr) ids)
    unfolding regret_loop regret_row
    regret_loop_ok mi mr [] hi hr = refl
    regret_loop_ok mi mr (p ∷ ps) hi hr = ground (
      arith,
      sub_neg (initiator_total D normalized_vectors initiator responder p) mi,
      sub_neg (responder_total D normalized_vectors initiator responder p) mr,
      regret_loop_ok mi mr ps,
    )

    no_zero_initiator :
        (mi mr : Decimal) (ids : List String)
        → no_zero D (λ r. r.initiator_regret) (map (row mi mr) ids)
          ≡ all (λ x. not (num_eq D x mi)) (initiator_totals ids)
    unfolding regret_row
    no_zero_initiator mi mr [] = refl
    no_zero_initiator mi mr (p ∷ ps) = ground (
      arith,
      sub_neg (initiator_total D normalized_vectors initiator responder p) mi,
      sub_pos (initiator_total D normalized_vectors initiator responder p) mi,
      no_zero_initiator mi mr ps,
    )

    no_zero_responder :
        (mi mr : Decimal) (ids : List String)
        → no_zero D (λ r. r.responder_regret) (map (row mi mr) ids)
          ≡ all (λ x. not (num_eq D x mr)) (responder_totals ids)
    unfolding regret_row
    no_zero_responder mi mr [] = refl
    no_zero_responder mi mr (p ∷ ps) = ground (
      arith,
      sub_neg (responder_total D normalized_vectors initiator responder p) mr,
      sub_pos (responder_total D normalized_vectors initiator responder p) mr,
      no_zero_responder mi mr ps,
    )

    -- For a nonempty list of profiles the table is computed without raising. It has one row for
    -- each profile, in order, and each regret is taken from the least total of that agent.
    pub compute_regret_rows_total :
        (ids : List String)
        → nonempty ids ≡ true
        → (mi : Decimal) × (mr : Decimal) × (compute_regret_rows D normalized_vectors initiator
              responder ids
            ≡ ok (map (row mi mr) ids))
          × IsMinimum (initiator_totals ids) mi
          × IsMinimum (responder_totals ids) mr
    unfolding compute_regret_rows
    compute_regret_rows_total [] h = cc
    compute_regret_rows_total (p ∷ ps) h =
        let (mi, ei, hi) =
          fold1-IsMinimum (initiator_total D normalized_vectors initiator responder p)
            (initiator_totals ps) in
        let (mr, er, hr) =
          fold1-IsMinimum (responder_total D normalized_vectors initiator responder p)
            (responder_totals ps) in
        (
          mi,
          mr,
          rw (
            ei,
            er,
            regret_loop_ok mi mr (p ∷ ps) hi.below hr.below,
            no_zero_initiator mi mr (p ∷ ps) ∙ hi.member,
            no_zero_responder mi mr (p ∷ ps) ∙ hr.member,
          ),
          hi,
          hr,
        )
