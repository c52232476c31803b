-- ===== src/Conflict/Core/Scopes.antt =====
-- The expression of a scope, at the index of a profile: it holds where the profile is in the scope.
use pqtrust_agent_artifact.Prelude.{
  ℕ, zero, suc, ◌+◌, ◌<◌, String, Bool, true, false, List, [], ◌∷◌, any, contains, length, nat_beq,
  ltb, Option, none, some, string_eq, ◌≡◌, refl, ◌∙◌, arith,
}
use pqtrust_agent_artifact.Solver.{pos, Formula, holds}
use pqtrust_agent_artifact.Conflict.Constraints.{allowed_from, scope_expression}

pub ltb_of_lt : (m n : ℕ) → m < n → ltb m n ≡ true
ltb_of_lt m n h = ground arith

-- `profile_ids[j]`
abbrev pub nth : ℕ → List String → Option String
nth j [] = none
nth zero (p ∷ ps) = some p
nth (suc j) (p ∷ ps) = nth j ps

pub nth-some : (j : ℕ) (ps : List String) → j < length ps → (p : String) × (nth j ps ≡ some p)
nth-some j [] h = absurd (omega arith)
nth-some zero (p ∷ ps) h = (p, refl)
nth-some (suc j) (p ∷ ps) h = nth-some j ps (omega arith)

pub nth-lt : (j : ℕ) (ps : List String) (p : String) → nth j ps ≡ some p → j < length ps
nth-lt j [] p h = cc
nth-lt zero (q ∷ ps) p h = omega arith
nth-lt (suc j) (q ∷ ps) p h = omega (arith, nth-lt j ps p h)

pub any-nth :
    (f : String → Bool) (j : ℕ) (ps : List String) (p : String)
    → nth j ps ≡ some p
    → f p ≡ true
    → any f ps ≡ true
any-nth f j [] p h k = cc
any-nth f zero (q ∷ ps) p h k = ground arith
any-nth f (suc j) (q ∷ ps) p h k = ground (arith, any-nth f j ps p h k)

pub none_of_nth :
    (f : String → Bool) (ps : List String)
    → ((j : ℕ) (p : String) → nth j ps ≡ some p → f p ≡ false)
    → any f ps ≡ false
none_of_nth f [] h = refl
none_of_nth f (p ∷ ps) h =
    let first = h 0 p refl in
    let rest = none_of_nth f ps (λ j q e. h (suc j) q e) in ground (arith, first, rest)

scope-holds :
    (n : ℕ) (indexes : List ℕ)
    → holds (scope_expression indexes) (pos n) ≡ any (λ k. nat_beq n k) indexes
unfolding scope_expression holds
scope-holds n [] = refl
scope-holds n (k ∷ []) = ground arith
scope-holds n (k ∷ l ∷ ks) = ground (arith, scope-holds n (l ∷ ks))

allowed-above :
    (k n : ℕ) (ps scope : List String)
    → n < k
    → any (λ i. nat_beq n i) (allowed_from k ps scope) ≡ false
unfolding allowed_from
allowed-above k n [] scope h = refl
allowed-above k n (p ∷ ps) scope h = ground (arith, allowed-above (suc k) n ps scope)

allowed-nth :
    (k j n : ℕ) (ps scope : List String) (p : String)
    → n ≡ k + j
    → nth j ps ≡ some p
    → any (λ i. nat_beq n i) (allowed_from k ps scope) ≡ contains p scope
unfolding allowed_from
allowed-nth k j n [] scope p e h = cc
allowed-nth k zero n (q ∷ ps) scope p e h = ground (arith, allowed-above (suc k) n ps scope)
allowed-nth k (suc j) n (q ∷ ps) scope p e h = ground (arith, allowed-nth (suc k) j n ps scope p)

abbrev pub expression : List String → List String → Formula
expression profile_ids scope = scope_expression (allowed_from 0 profile_ids scope)

pub expression-holds :
    (ps scope : List String) (j : ℕ) (p : String)
    → nth j ps ≡ some p
    → holds (expression ps scope) (pos j) ≡ contains p scope
expression-holds ps scope j p h =
    scope-holds j (allowed_from 0 ps scope) ∙ allowed-nth 0 j j ps scope p (omega arith) h
