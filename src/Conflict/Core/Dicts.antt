-- ===== src/Conflict/Core/Dicts.antt =====
-- Constraints by their identifiers, as the dicts of src/pqtrust_agent/negotiation hold them, and the
-- profiles that their scopes allow.
use pqtrust_agent_artifact.Prelude.{
  String, Bool, true, false, not, ◌||◌, List, [], ◌∷◌, ◌++◌, map, all, All, any, contains, distinct,
  none, some, string_eq, ◌≡◌, refl, arith,
}
use pqtrust_agent_artifact.Negotiation.Selector.{lookup}
use pqtrust_agent_artifact.Conflict.{NamedConstraint}
use pqtrust_agent_artifact.Conflict.Core.{constraint_ids}

lookup_later :
    {A : Type 0} (k : String) (v : A) (xs ys : List (String × A))
    → lookup k ys ≡ some v
    → lookup k (xs ++ ys) ≡ some v
unfolding lookup
lookup_later k v [] ys h = h
lookup_later k v ((i, w) ∷ xs) ys h = rw (lookup_later k v xs ys h) refl

module _ {V : Type 0} where
  -- Whether some profile is in the scope of every constraint.
  abbrev pub is_feasible : List String → List (NamedConstraint V) → Bool
  is_feasible profile_ids cs = any (λ p. all (λ c. contains p c.profile_scope) cs) profile_ids

  pub lookup-absent :
      {A : Type 0} (f : NamedConstraint V → A) (i : String) (cs : List (NamedConstraint V))
      → contains i (constraint_ids cs) ≡ false
      → lookup i (map (λ c. (c.constraint_id, f c)) cs) ≡ none
  unfolding lookup
  lookup-absent f i [] h = refl
  lookup-absent f i (c ∷ cs) h = ground (
    arith,
    string_eq.beq_iff i c.constraint_id,
    string_eq.beq_iff c.constraint_id i,
    lookup-absent f i cs,
  )

  pub lookup_own :
      {A : Type 0} (f : NamedConstraint V → A) (c : NamedConstraint V)
      (cs : List (NamedConstraint V))
      → contains c.constraint_id (constraint_ids cs) ≡ false
      → lookup c.constraint_id (map (λ d. (d.constraint_id, f d)) (c ∷ cs)) ≡ some (f c)
  unfolding lookup
  lookup_own f c cs h =
      rw (lookup-absent f c.constraint_id cs h)
        (ground (arith, string_eq.beq_iff c.constraint_id c.constraint_id))

  pub All-weaken :
      (P Q : NamedConstraint V → Type 0) (cs : List (NamedConstraint V))
      → ((c : NamedConstraint V) → P c → Q c)
      → All P cs
      → All Q cs
  All-weaken P Q [] weaken h = tt
  All-weaken P Q (c ∷ cs) weaken h = (weaken c h.0, All-weaken P Q cs weaken h.1)

  -- In a dict by identifier each constraint finds its own entry.
  pub All-own :
      {A : Type 0} (f : NamedConstraint V → A) (cs : List (NamedConstraint V))
      → distinct (constraint_ids cs) ≡ true
      → All (λ c. lookup c.constraint_id (map (λ d. (d.constraint_id, f d)) cs) ≡ some (f c)) cs
  All-own f [] h = tt
  All-own f (c ∷ cs) h = (
    lookup_own f c cs (ground arith),
    All-weaken (λ d. lookup d.constraint_id (map (λ e. (e.constraint_id, f e)) cs) ≡ some (f d)) _
        cs
        (λ d own.
          lookup_later d.constraint_id (f d) ((c.constraint_id, f c) ∷ [])
            (map (λ e. (e.constraint_id, f e)) cs) own)
        (All-own f cs (ground arith)),
  )

  pub all_fresh :
      (cs : List (NamedConstraint V)) → all (λ c. not (contains c.constraint_id [])) cs ≡ true
  all_fresh [] = refl
  all_fresh (c ∷ cs) = all_fresh cs

  pub all-constraint_ids_more :
      (i : String) (ls : List String) (cs : List (NamedConstraint V))
      → all (λ c. contains c.constraint_id ls) cs ≡ true
      → all (λ c. contains c.constraint_id (i ∷ ls)) cs ≡ true
  all-constraint_ids_more i ls [] h = refl
  all-constraint_ids_more i ls (c ∷ cs) h = ground (arith, all-constraint_ids_more i ls cs)

  pub all-constraint_ids :
      (cs : List (NamedConstraint V))
      → all (λ c. contains c.constraint_id (constraint_ids cs)) cs ≡ true
  all-constraint_ids [] = refl
  all-constraint_ids (c ∷ cs) = ground (
    arith,
    string_eq.beq_iff c.constraint_id c.constraint_id,
    all-constraint_ids_more c.constraint_id (constraint_ids cs) cs (all-constraint_ids cs),
  )

  -- Whether a constraint asks something of the profile, and the profile fulfils it.
  abbrev pub allows : Bool → List String → String → NamedConstraint V → Bool
  allows tracked labels p c =
      not (not tracked || contains c.constraint_id labels) || contains p c.profile_scope

  pub all_of_allows :
      (labels : List String) (p : String) (cs : List (NamedConstraint V))
      → all (λ c. contains c.constraint_id labels) cs ≡ true
      → all (allows true labels p) cs ≡ true
      → all (λ c. contains p c.profile_scope) cs ≡ true
  all_of_allows labels p [] h k = refl
  all_of_allows labels p (c ∷ cs) h k = ground (arith, all_of_allows labels p cs)
