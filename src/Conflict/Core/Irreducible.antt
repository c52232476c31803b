-- ===== src/Conflict/Core/Irreducible.antt =====
-- The result of `compute_ius` in src/pqtrust_agent/negotiation/unsat_core.py, from the core of the
-- tracked solver to the shrunk set.
use pqtrust_agent_artifact.Prelude.{
  String, Bool, true, false, List, [], ◌∷◌, map, all, All, any, contains, Option, some, ◌==◌,
  string_eq, ◌≡◌, inl, inr, refl, ap, sym, ◌∙◌, arith, Bool-cases, is_sorted, sort_by, all-sort_by,
  is_sorted-sort_by, string_leb_total, string_leb_trans,
}
use pqtrust_agent_artifact.Prelude.Result.{ok}
use pqtrust_agent_artifact.Negotiation.Selector.{lookup}
use pqtrust_agent_artifact.Negotiation.Normalization.{traverse}
use pqtrust_agent_artifact.Conflict.{NamedConstraint}
use pqtrust_agent_artifact.Conflict.Core.{constraint_leb, constraint_ids, of_label}
use pqtrust_agent_artifact.Conflict.Core.Dicts.{is_feasible, lookup-absent, allows}

pub any-false :
    {A : Type 0} (f g : A → Bool) (xs : List A)
    → ((x : A) → f x ≡ true → g x ≡ true)
    → any g xs ≡ false
    → any f xs ≡ false
any-false f g [] sub h = refl
any-false f g (x ∷ xs) sub h = ground (arith, sub x, any-false f g xs sub)

any-same : {A : Type 0} (f g : A → Bool) (xs : List A) → ((x : A) → f x ≡ g x) → any f xs ≡ any g xs
any-same f g [] same = refl
any-same f g (x ∷ xs) same = ground (arith, same x, any-same f g xs same)

module _ {V : Type 0} where
  pub is_feasible-sort :
      (profile_ids : List String) (le : NamedConstraint V → NamedConstraint V → Bool)
      (cs : List (NamedConstraint V))
      → is_feasible profile_ids (sort_by le cs) ≡ is_feasible profile_ids cs
  is_feasible-sort profile_ids le cs =
      any-same _ _ profile_ids (λ p. all-sort_by le (λ c. contains p c.profile_scope) cs)

  pub sorted-sort :
      (cs : List (NamedConstraint V)) → is_sorted constraint_leb (sort_by constraint_leb cs) ≡ true
  sorted-sort =
      is_sorted-sort_by constraint_leb (λ c d. string_leb_total c.constraint_id d.constraint_id)
        (λ c d e. string_leb_trans c.constraint_id d.constraint_id e.constraint_id)

  abbrev pub dict : List (NamedConstraint V) → List (String × NamedConstraint V)
  dict = map (λ c. (c.constraint_id, c))

  -- An identifier of a list finds a constraint of the list with that identifier.
  lookup-present :
      (i : String) (cs : List (NamedConstraint V))
      → contains i (constraint_ids cs) ≡ true
      → (c : NamedConstraint V) × (lookup i (dict cs) ≡ some c)
        × (c.constraint_id ≡ i)
        × ((q : NamedConstraint V → Bool) → all q cs ≡ true → q c ≡ true)
  unfolding lookup
  lookup-present i [] h = cc
  lookup-present i (d ∷ ds) h = elim (Bool-cases (contains i (constraint_ids ds))) [
    | inl later ↦
        let (c, found, same, inside) = lookup-present i ds later in
        (c, rw found refl, same, λ q k. inside q (ground arith))
    | inr absent ↦
        let missing = lookup-absent (λ c. c) i ds absent in
        let here : i ≡ d.constraint_id = ground (arith, string_eq.beq_iff i d.constraint_id) in
        (
          d,
          rw missing (ground (arith, string_eq.beq_iff d.constraint_id i)),
          sym here,
          λ q k. ground arith,
        )
  ]

  -- The constraints of the labels of a core.
  pub record Labelled (cs : List (NamedConstraint V)) (labels : List String)
      (found : List (NamedConstraint V)) : Type 0 where
    pub ids : constraint_ids found ≡ labels
    pub inside : (q : NamedConstraint V → Bool) → all q cs ≡ true → all q found ≡ true
    pub named :
        (q : NamedConstraint V → Bool) (l : String) (c : NamedConstraint V)
        → all q found ≡ true
        → contains l labels ≡ true
        → lookup l (dict cs) ≡ some c
        → q c ≡ true

  same_entry :
      (cs : List (NamedConstraint V)) (l m : String) (c d : NamedConstraint V)
      → lookup l (dict cs) ≡ some c
      → lookup m (dict cs) ≡ some d
      → l ≡ m
      → c ≡ d
  same_entry cs l m c d h k same =
      some_value c d (sym h ∙ (ap (λ (i : String). lookup i (dict cs)) same ∙ k))
    where
      some_value :
          (x y : NamedConstraint V) → ◌≡◌ {A = Option (NamedConstraint V)} (some x) (some y) → x ≡ y
      some_value x y e = cc

  Labelled-cons :
      (cs : List (NamedConstraint V)) (l : String) (ls : List String) (c : NamedConstraint V)
      (rest : List (NamedConstraint V))
      → lookup l (dict cs) ≡ some c
      → c.constraint_id ≡ l
      → ((q : NamedConstraint V → Bool) → all q cs ≡ true → q c ≡ true)
      → Labelled cs ls rest
      → Labelled cs (l ∷ ls) (c ∷ rest)
  Labelled-cons cs l ls c rest found same inside labelled = record {
    ids =
        ap (λ (i : String). i ∷ constraint_ids rest) same
        ∙ ap (λ (is : List String). l ∷ is) labelled.ids;
    inside = λ q k. ground (arith, inside q k, labelled.inside q k);
    named = λ q m d k member own. elim (Bool-cases (m == l)) [
      | inl here ↦
          let same_label : l ≡ m = ground (arith, string_eq.beq_iff m l) in
          sym (ap q (same_entry cs l m c d found own same_label)) ∙ ground arith
      | inr other ↦ labelled.named q m d (ground arith) (ground arith) own
    ];
  }

  pub traverse-of_label :
      (cs : List (NamedConstraint V)) (labels : List String)
      → all (λ l. contains l (constraint_ids cs)) labels ≡ true
      → (found : List (NamedConstraint V)) × (traverse (of_label cs) labels ≡ ok found)
        × Labelled cs labels found
  traverse-of_label cs [] h = (
    [],
    refl,
    record { ids = refl; inside = λ q k. refl; named = λ q l c k m found. absurd (ground arith) },
  )
  traverse-of_label cs (l ∷ ls) h =
      let (c, found, same, inside) = lookup-present l cs (ground arith) in
      let (rest, traversed, labelled) = traverse-of_label cs ls (ground arith) in
      (
        c ∷ rest,
        rw (found, traversed) refl,
        Labelled-cons cs l ls c rest found same inside labelled,
      )

  -- A profile in the scopes of the found constraints is allowed under their labels.
  pub all-allows :
      (all_cs : List (NamedConstraint V)) (labels : List String) (found : List (NamedConstraint V))
      → Labelled all_cs labels found
      → (p : String) → all (λ c. contains p c.profile_scope) found ≡ true
      → (cs : List (NamedConstraint V))
      → All (λ c. lookup c.constraint_id (dict all_cs) ≡ some c) cs
      → all (allows true labels p) cs ≡ true
  all-allows all_cs labels found labelled p h [] own = refl
  all-allows all_cs labels found labelled p h (c ∷ cs) own =
      let rest = all-allows all_cs labels found labelled p h cs own.1 in
      elim (Bool-cases (contains c.constraint_id labels)) [
        | inl member ↦
            let here =
              labelled.named (λ d. contains p d.profile_scope) c.constraint_id c h member own.0 in
            ground arith
        | inr other ↦ ground arith
      ]
