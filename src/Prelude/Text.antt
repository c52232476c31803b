-- ===== src/Prelude/Text.antt =====
-- `<=` on strings is a total order: by code points, a prefix first.
use Prim.Native.Nat.{ℕ, Ordering, compare as compare_ℕ}
use Prim.Native.Char.{Char, code}
use Prim.Native.String.{String, [], ◌∷◌, compare, then}
use Prim.Native.String.compare
use mathlib.Core.Path.{◌≡◌, refl, sym, ◌∙◌, ap}
use mathlib.Core.Bool.{Bool, true, false, ◌&&◌, ◌||◌}
use mathlib.Core.List.{List}
use native.Mathlib.Omega.{arith}
use text.Mathlib.TextEquality.{codes_equal}
use pqtrust_agent_artifact.Prelude.Tests.{ltb, nat_beq}
use pqtrust_agent_artifact.Prelude.Sort.{string_leb}

abbrev not_gt : Ordering → Bool
not_gt Ordering.gt = false
not_gt _ = true

not_gt-then :
    (m n : ℕ) (r : Ordering)
    → not_gt (then (compare_ℕ m n) r) ≡ (ltb m n || (nat_beq m n && not_gt r))
not_gt-then m n r = split (compare_ℕ m n)
  where
    split :
        (o : Ordering)
        → not_gt (then o r) ≡ (
            (elim o [ Ordering.lt ↦ true | _ ↦ false ])
            || ((elim o [ Ordering.eq ↦ true | _ ↦ false ]) && not_gt r))
    split Ordering.lt = refl
    split Ordering.eq = refl
    split Ordering.gt = refl

string_leb-eq : (s t : String) → string_leb s t ≡ not_gt (compare s t)
string_leb-eq s t = split (compare s t)
  where
    split : (o : Ordering) → (elim o [ Ordering.gt ↦ false | _ ↦ true ]) ≡ not_gt o
    split Ordering.lt = refl
    split Ordering.eq = refl
    split Ordering.gt = refl

string_leb-cons :
    (c d : Char) (s t : String)
    → string_leb (c ∷ s) (d ∷ t)
      ≡ (ltb (code c) (code d) || (nat_beq (code c) (code d) && string_leb s t))
string_leb-cons c d s t =
    string_leb-eq (c ∷ s) (d ∷ t)
    ∙ ap not_gt (compare.cons-cons c d s t)
    ∙ not_gt-then (code c) (code d) (compare s t)
    ∙ ap (λ b. ltb (code c) (code d) || (nat_beq (code c) (code d) && b)) (sym (string_leb-eq s t))

string_leb-nil-cons : (d : Char) (t : String) → string_leb [] (d ∷ t) ≡ true
string_leb-nil-cons d t = string_leb-eq [] (d ∷ t) ∙ ap not_gt (compare.nil-cons d t)

string_leb-cons-nil : (c : Char) (s : String) → string_leb (c ∷ s) [] ≡ false
string_leb-cons-nil c s = string_leb-eq (c ∷ s) [] ∙ ap not_gt (compare.cons-nil c s)

both_ways :
    (c d : Char) (s t : String)
    → string_leb (c ∷ s) (d ∷ t) ≡ true
    → string_leb (d ∷ t) (c ∷ s) ≡ true
    → (c ≡ d) × (string_leb s t ≡ true) × (string_leb t s ≡ true)
both_ways c d s t h k = (
  codes_equal c d (ground (arith, string_leb-cons c d s t, string_leb-cons d c t s)),
  ground (arith, string_leb-cons c d s t, string_leb-cons d c t s),
  ground (arith, string_leb-cons c d s t, string_leb-cons d c t s),
)

-- Of two strings one is at most the other.
pub string_leb_total : (s t : String) → string_leb s t ≡ false → string_leb t s ≡ true
string_leb_total [] [] h = refl
string_leb_total [] (d ∷ t) h = ground (arith, string_leb-nil-cons d t)
string_leb_total (c ∷ s) [] h = string_leb-nil-cons c s
string_leb_total (c ∷ s) (d ∷ t) h =
    ground (arith, string_leb-cons c d s t, string_leb-cons d c t s, string_leb_total s t)

pub string_leb_trans :
    (s t u : String) → string_leb s t ≡ true → string_leb t u ≡ true → string_leb s u ≡ true
string_leb_trans [] t [] h k = refl
string_leb_trans [] t (e ∷ u) h k = string_leb-nil-cons e u
string_leb_trans (c ∷ s) [] u h k = ground (arith, string_leb-cons-nil c s)
string_leb_trans (c ∷ s) (d ∷ t) [] h k = ground (arith, string_leb-cons-nil d t)
string_leb_trans (c ∷ s) (d ∷ t) (e ∷ u) h k = ground (
  arith,
  string_leb-cons c d s t,
  string_leb-cons d e t u,
  string_leb-cons c e s u,
  string_leb_trans s t u,
)

pub string_leb_antisymm : (s t : String) → string_leb s t ≡ true → string_leb t s ≡ true → s ≡ t
string_leb_antisymm [] [] h k = refl
string_leb_antisymm [] (d ∷ t) h k = ground (arith, string_leb-cons-nil d t)
string_leb_antisymm (c ∷ s) [] h k = ground (arith, string_leb-cons-nil c s)
string_leb_antisymm (c ∷ s) (d ∷ t) h k =
    let (head, below, above) = both_ways c d s t h k in
    let tail = string_leb_antisymm s t below above in λ i. head i ∷ tail i

-- The bytes of an ASCII text.
abbrev pub codes : String → List ℕ
codes String.[] = List.[]
codes (String.◌∷◌ c s) = List.◌∷◌ (code c) (codes s)
