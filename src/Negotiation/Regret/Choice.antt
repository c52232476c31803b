-- ===== src/Negotiation/Regret/Choice.antt =====
-- The minimax choice is the least row, and depends only on which rows there are.
use pqtrust_agent_artifact.Prelude.{
  ◌≡◌, refl, sym, ◌∙◌, ap, String, Bool, true, not, List, [], ◌∷◌, all, All, nonempty, arith, map,
  string_eq, eq_iff, sort_by, nonempty-sort_by, is_sorted-sort_by, head-sort_by,
}
use pqtrust_agent_artifact.Prelude.Result.{ok}
use pqtrust_agent_artifact.Negotiation.Decimals.{Decimals, Laws}
use pqtrust_agent_artifact.Negotiation.Regret.{
  RegretRow, row_leb, keyed, keyed_leb, minimax_regret_select,
}
use pqtrust_agent_artifact.Negotiation.Regret.Order.{row_leb_total, row_leb_trans, row_leb_antisymm}

module _ (D : Decimals) (L : Laws D) where
  open D use {Decimal}

  row_leb_refl : (a : RegretRow Decimal) → row_leb D a a ≡ true
  row_leb_refl a = ground (arith, row_leb_total D L a a)

  -- What a choice is: a row of the list, below every row of the list.
  pub record IsLeast (rows : List (RegretRow Decimal)) (first : RegretRow Decimal) : Type 1 where
    pub below : all (row_leb D first) rows ≡ true
    pub minimax : all (λ r. not (D.lt r.maximum_regret first.maximum_regret)) rows ≡ true
    -- Whatever holds of every row of the list holds of the chosen one.
    pub member : (P : RegretRow Decimal → Type 0) → All P rows → P first

  minimax_of_below :
      (first : RegretRow Decimal) (rows : List (RegretRow Decimal))
      → all (row_leb D first) rows ≡ true
      → all (λ r. not (D.lt r.maximum_regret first.maximum_regret)) rows ≡ true
  unfolding row_leb
  minimax_of_below first [] h = refl
  minimax_of_below first (r ∷ rows) h =
      ground (arith, minimax_of_below first rows, L.asymm first.maximum_regret r.maximum_regret)

  -- The dict holds every row under its identifier: rows of one identifier are equal.
  abbrev pub IsKeyed : List (RegretRow Decimal) → Type 0
  IsKeyed rows = All (λ r. keyed D rows r ≡ r) rows

  keyed_fixed :
      (g : String → RegretRow Decimal) (rows : List (RegretRow Decimal))
      → All (λ r. r ≡ g r.profile_id) rows
      → (row : RegretRow Decimal) → row ≡ g row.profile_id
      → keyed D rows row ≡ row
  unfolding keyed
  keyed_fixed g [] h row k = refl
  keyed_fixed g (r ∷ rows) (here, later) row k =
      ground (arith, here, k, eq_iff r.profile_id row.profile_id, keyed_fixed g rows later row k)

  All-keyed :
      (g : String → RegretRow Decimal) (rows sub : List (RegretRow Decimal))
      → All (λ r. r ≡ g r.profile_id) rows
      → All (λ r. r ≡ g r.profile_id) sub
      → All (λ r. keyed D rows r ≡ r) sub
  All-keyed g rows [] h k = tt
  All-keyed g rows (r ∷ sub) h (k, later) = (keyed_fixed g rows h r k, All-keyed g rows sub h later)

  -- Rows that are computed from their identifier alone.
  pub IsKeyed-functional :
      (g : String → RegretRow Decimal) (rows : List (RegretRow Decimal))
      → All (λ r. r ≡ g r.profile_id) rows
      → IsKeyed rows
  IsKeyed-functional g rows h = All-keyed g rows rows h h

  below_of_keyed :
      (first : RegretRow Decimal) (rows sub : List (RegretRow Decimal))
      → keyed D rows first ≡ first
      → All (λ r. keyed D rows r ≡ r) sub
      → all (keyed_leb D rows first) sub ≡ true
      → all (row_leb D first) sub ≡ true
  below_of_keyed first rows [] e k h = refl
  below_of_keyed first rows (r ∷ sub) e (here, later) h =
      let rest = below_of_keyed first rows sub e later in
      let this : keyed_leb D rows first r ≡ row_leb D first r =
        ap (λ a. row_leb D a (keyed D rows r)) e ∙ ap (row_leb D first) here in
      ground (arith, rest, this)

  -- From a nonempty list of rows, in which rows of one identifier are equal, the choice returns, and
  -- what it returns is the identifier of a row of the list that is below every row in the order of
  -- the keys.
  pub minimax_regret_select-IsLeast :
      (rows : List (RegretRow Decimal))
      → nonempty rows ≡ true
      → IsKeyed rows
      → (first : RegretRow Decimal) × (ordered : List (RegretRow Decimal)) × (minimax_regret_select
            D rows
          ≡ ok (first.profile_id, ordered))
        × IsLeast rows first
  unfolding minimax_regret_select
  minimax_regret_select-IsLeast [] h k = cc
  minimax_regret_select-IsLeast (row ∷ rows) h k =
      go (sort_by (keyed_leb D (row ∷ rows)) (row ∷ rows)) refl
    where
      go :
          (sorted : List (RegretRow Decimal))
          → sort_by (keyed_leb D (row ∷ rows)) (row ∷ rows) ≡ sorted
          → (first : RegretRow Decimal) × (ordered : List (RegretRow Decimal))
            × (minimax_regret_select D (row ∷ rows) ≡ ok (first.profile_id, ordered))
            × IsLeast (row ∷ rows) first
      go [] e = cc (nonempty-sort_by (keyed_leb D (row ∷ rows)) (row ∷ rows), ap nonempty e)
      go (first ∷ rest) e =
          let (lowest, member) =
            head-sort_by (keyed_leb D (row ∷ rows)) (λ a. row_leb_refl (keyed D (row ∷ rows) a))
              first rest (row ∷ rows) e
              (is_sorted-sort_by (keyed_leb D (row ∷ rows))
                (λ a b. row_leb_total D L (keyed D (row ∷ rows) a) (keyed D (row ∷ rows) b))
                (λ a b c.
                  row_leb_trans D L (keyed D (row ∷ rows) a) (keyed D (row ∷ rows) b)
                    (keyed D (row ∷ rows) c))
                (row ∷ rows)) in
          let below = below_of_keyed first (row ∷ rows) (row ∷ rows) (member _ k) k lowest in
          (
            first,
            map (keyed D (row ∷ rows)) (first ∷ rest),
            rw (e, minimax_regret_select),
            record {
              below = below;
              minimax = minimax_of_below first (row ∷ rows) below;
              member = member;
            },
          )

  All-of_all :
      (p : RegretRow Decimal → Bool) (rows : List (RegretRow Decimal))
      → all p rows ≡ true
      → All (λ r. p r ≡ true) rows
  All-of_all p [] h = tt
  All-of_all p (r ∷ rows) h = (ground arith, All-of_all p rows (ground arith))

  member_bool :
      (rows : List (RegretRow Decimal)) (first : RegretRow Decimal)
      → IsLeast rows first
      → (p : RegretRow Decimal → Bool) → all p rows ≡ true
      → p first ≡ true
  member_bool rows first least p h = least.member (λ r. p r ≡ true) (All-of_all p rows h)

  nonempty_of_ok :
      (rows : List (RegretRow Decimal)) {c : String × List (RegretRow Decimal)}
      → minimax_regret_select D rows ≡ ok c
      → nonempty rows ≡ true
  unfolding minimax_regret_select
  nonempty_of_ok [] h = cc
  nonempty_of_ok (row ∷ rows) h = refl

  -- If the choice returns from two lists with the same rows, that is, no Boolean test holds of every
  -- row of one alone, and in each list rows of one identifier are equal, then it returns the same profile, in whatever order they list the rows.
  pub minimax_regret_select_order :
      (rows rows' : List (RegretRow Decimal)) (s s' : String) (o o' : List (RegretRow Decimal))
      → IsKeyed rows
      → IsKeyed rows'
      → ((p : RegretRow Decimal → Bool) → all p rows ≡ all p rows')
      → minimax_regret_select D rows ≡ ok (s, o)
      → minimax_regret_select D rows' ≡ ok (s', o')
      → s ≡ s'
  minimax_regret_select_order rows rows' s s' o o' k k' same h h' =
      let (f, _, e, least) = minimax_regret_select-IsLeast rows (nonempty_of_ok rows h) k in
      let (f', _, e', least') = minimax_regret_select-IsLeast rows' (nonempty_of_ok rows' h') k' in
      let above =
        member_bool rows' f' least' (row_leb D f) (sym (same (row_leb D f)) ∙ least.below) in
      let below = member_bool rows f least (row_leb D f') (same (row_leb D f') ∙ least'.below) in
      let meet = row_leb_antisymm D L f f' above below in ground (arith, meet)
