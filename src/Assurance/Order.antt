-- ===== src/Assurance/Order.antt =====
-- assurance/order.py: dominance is a partial order with `assurance_join` as the least upper bound
-- and `assurance_meet` as the greatest lower bound. Each dimension is a lemma of its own.
use pqtrust_agent_artifact.Prelude.{◌≤◌, ◌≡◌, ◌↔◌, Bool, true, false, ◌&&◌, not, arith}
use pqtrust_agent_artifact.Assurance.{
  ThreatSet, FallbackRule, ResumptionRule, LeaseStrictness, fallback_rule_rank,
  resumption_rule_rank, lease_strictness_rank, is_superset, threats_beq, AssuranceVector, dominates,
  vector_beq, strictly_dominates, assurance_join, assurance_meet,
}

-- The order as a statement: every threat covered on the right is covered on the left, and each
-- rank is at least as strict.
pub record AtLeast (left right : AssuranceVector) : Type 0 where
  pub key : is_superset left.key_establishment_threats right.key_establishment_threats ≡ true
  pub endpoint :
      is_superset left.endpoint_authentication_threats right.endpoint_authentication_threats ≡ true
  pub evidence : is_superset left.contract_evidence_threats right.contract_evidence_threats ≡ true
  pub fallback : fallback_rule_rank right.fallback_rule ≤ fallback_rule_rank left.fallback_rule
  pub resumption :
      resumption_rule_rank right.resumption_rule ≤ resumption_rule_rank left.resumption_rule
  pub lease :
      lease_strictness_rank right.lease_strictness ≤ lease_strictness_rank left.lease_strictness

pub dominates→AtLeast : (a b : AssuranceVector) → dominates a b ≡ true → AtLeast a b
unfolding dominates
dominates→AtLeast a b h = ground arith

pub AtLeast→dominates : (a b : AssuranceVector) → AtLeast a b → dominates a b ≡ true
unfolding dominates
AtLeast→dominates a b h = ground arith

and_true : (p q : Bool) → ((p && q) ≡ true) ↔ ((p ≡ true) × (q ≡ true))
and_true p q = ground arith

bool_ext : (p q : Bool) → (p ≡ true → q ≡ true) → (q ≡ true → p ≡ true) → p ≡ q
bool_ext true q f g = ground (arith, f)
bool_ext false true f g = ground (arith, g)
bool_ext false false f g = ground arith

AtLeast-join :
    (a b c : AssuranceVector) → AtLeast c (assurance_join a b) → AtLeast c a × AtLeast c b
unfolding assurance_join
AtLeast-join a b c h = ground arith

AtLeast-join_of :
    (a b c : AssuranceVector) → AtLeast c a → AtLeast c b → AtLeast c (assurance_join a b)
unfolding assurance_join
AtLeast-join_of a b c h k = ground arith

AtLeast-meet :
    (a b c : AssuranceVector) → AtLeast (assurance_meet a b) c → AtLeast a c × AtLeast b c
unfolding assurance_meet
AtLeast-meet a b c h = ground arith

AtLeast-meet_of :
    (a b c : AssuranceVector) → AtLeast a c → AtLeast b c → AtLeast (assurance_meet a b) c
unfolding assurance_meet
AtLeast-meet_of a b c h k = ground arith

-- A vector dominates the join of two exactly when it dominates both: `assurance_join` is the least
-- upper bound of the order.
pub dominates-assurance_join :
    (a b c : AssuranceVector) → dominates c (assurance_join a b) ≡ (dominates c a && dominates c b)
dominates-assurance_join a b c =
    bool_ext _ _
      (λ h.
        let k = AtLeast-join a b c (dominates→AtLeast _ _ h) in
        (and_true _ _).1 (AtLeast→dominates _ _ k.0, AtLeast→dominates _ _ k.1))
      (λ h.
        let k = (and_true (dominates c a) (dominates c b)).0 h in
        AtLeast→dominates _ _
          (AtLeast-join_of a b c (dominates→AtLeast _ _ k.0) (dominates→AtLeast _ _ k.1)))

-- The meet of two vectors dominates a third exactly when both do: `assurance_meet` is the greatest
-- lower bound of the order.
pub dominates-assurance_meet :
    (a b c : AssuranceVector) → dominates (assurance_meet a b) c ≡ (dominates a c && dominates b c)
dominates-assurance_meet a b c =
    bool_ext _ _
      (λ h.
        let k = AtLeast-meet a b c (dominates→AtLeast _ _ h) in
        (and_true _ _).1 (AtLeast→dominates _ _ k.0, AtLeast→dominates _ _ k.1))
      (λ h.
        let k = (and_true (dominates a c) (dominates b c)).0 h in
        AtLeast→dominates _ _
          (AtLeast-meet_of a b c (dominates→AtLeast _ _ k.0) (dominates→AtLeast _ _ k.1)))

pub dominates_refl : (a : AssuranceVector) → dominates a a ≡ true
dominates_refl a = AtLeast→dominates a a (ground arith)

AtLeast-trans : (a b c : AssuranceVector) → AtLeast a b → AtLeast b c → AtLeast a c
AtLeast-trans a b c h k = ground arith

pub dominates_trans :
    (a b c : AssuranceVector) → dominates a b ≡ true → dominates b c ≡ true → dominates a c ≡ true
dominates_trans a b c h k =
    AtLeast→dominates a c (AtLeast-trans a b c (dominates→AtLeast a b h) (dominates→AtLeast b c k))

threats_antisymm : (s t : ThreatSet) → is_superset s t ≡ true → is_superset t s ≡ true → s ≡ t
threats_antisymm s t h k = ground arith

fallback_antisymm :
    (a b : FallbackRule)
    → fallback_rule_rank a ≤ fallback_rule_rank b
    → fallback_rule_rank b ≤ fallback_rule_rank a
    → a ≡ b
fallback_antisymm a b h k = ground arith

resumption_antisymm :
    (a b : ResumptionRule)
    → resumption_rule_rank a ≤ resumption_rule_rank b
    → resumption_rule_rank b ≤ resumption_rule_rank a
    → a ≡ b
resumption_antisymm a b h k = ground arith

lease_antisymm :
    (a b : LeaseStrictness)
    → lease_strictness_rank a ≤ lease_strictness_rank b
    → lease_strictness_rank b ≤ lease_strictness_rank a
    → a ≡ b
lease_antisymm a b h k = ground arith

AtLeast-antisymm : (a b : AssuranceVector) → AtLeast a b → AtLeast b a → a ≡ b
AtLeast-antisymm a b h k i = record {
  key_establishment_threats =
      threats_antisymm a.key_establishment_threats b.key_establishment_threats h.key k.key i;
  endpoint_authentication_threats =
      threats_antisymm a.endpoint_authentication_threats b.endpoint_authentication_threats
        h.endpoint k.endpoint i;
  contract_evidence_threats =
      threats_antisymm a.contract_evidence_threats b.contract_evidence_threats h.evidence k.evidence
        i;
  fallback_rule = fallback_antisymm a.fallback_rule b.fallback_rule k.fallback h.fallback i;
  resumption_rule =
      resumption_antisymm a.resumption_rule b.resumption_rule k.resumption h.resumption i;
  lease_strictness = lease_antisymm a.lease_strictness b.lease_strictness k.lease h.lease i;
}

-- Two vectors that dominate one another are the same vector.
pub dominates_antisymm :
    (a b : AssuranceVector) → dominates a b ≡ true → dominates b a ≡ true → a ≡ b
dominates_antisymm a b h k =
    AtLeast-antisymm a b (dominates→AtLeast a b h) (dominates→AtLeast b a k)

and_true₆ :
    (p q r s t u : Bool)
    → (p && q && r && s && t && u) ≡ true
    → (p ≡ true) × (q ≡ true) × (r ≡ true) × (s ≡ true) × (t ≡ true) × (u ≡ true)
and_true₆ p q r s t u h = ground arith

threats_beq-superset :
    (s t : ThreatSet) → threats_beq s t ≡ true → (is_superset s t ≡ true) × (is_superset t s ≡ true)
threats_beq-superset s t h = ground arith

vector_beq→AtLeast : (a b : AssuranceVector) → vector_beq a b ≡ true → AtLeast a b × AtLeast b a
unfolding vector_beq
vector_beq→AtLeast a b h =
    let (k, e, c, f, r, l) = and_true₆ _ _ _ _ _ _ h in
    let kk = threats_beq-superset a.key_establishment_threats b.key_establishment_threats k in
    let ee =
      threats_beq-superset a.endpoint_authentication_threats b.endpoint_authentication_threats e in
    let cc' = threats_beq-superset a.contract_evidence_threats b.contract_evidence_threats c in
    (
      record {
        key = kk.0;
        endpoint = ee.0;
        evidence = cc'.0;
        fallback = ground arith;
        resumption = ground arith;
        lease = ground arith;
      },
      record {
        key = kk.1;
        endpoint = ee.1;
        evidence = cc'.1;
        fallback = ground arith;
        resumption = ground arith;
        lease = ground arith;
      },
    )

AtLeast→vector_beq : (a b : AssuranceVector) → AtLeast a b → AtLeast b a → vector_beq a b ≡ true
unfolding vector_beq
AtLeast→vector_beq a b h k = ground arith

vector_beq-eq : (a b : AssuranceVector) → vector_beq a b ≡ (dominates a b && dominates b a)
vector_beq-eq a b =
    bool_ext _ _
      (λ h.
        let k = vector_beq→AtLeast a b h in
        (and_true _ _).1 (AtLeast→dominates a b k.0, AtLeast→dominates b a k.1))
      (λ h.
        let k = (and_true (dominates a b) (dominates b a)).0 h in
        AtLeast→vector_beq a b (dominates→AtLeast a b k.0) (dominates→AtLeast b a k.1))

-- A vector dominates strictly exactly when it dominates and is not dominated back.
pub strictly_dominates-eq :
    (a b : AssuranceVector) → strictly_dominates a b ≡ (dominates a b && not (dominates b a))
unfolding strictly_dominates
strictly_dominates-eq a b = ground (arith, vector_beq-eq a b)
