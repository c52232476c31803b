-- ===== src/Transport/Sequence.antt =====
-- `SequenceValidator` of src/pqtrust_agent/transport/framing.py, on a header's sequence number.
pub mod Order
use pqtrust_agent_artifact.Prelude.{ℕ, suc, Bool, not, List, [], ◌∷◌, contains, nat_eq, ◌==◌}
use pqtrust_agent_artifact.Prelude.Result.{ok, err, frame_error}
use pqtrust_agent_artifact.Prelude.Exec.{Exec, gets, modify, raise_when, ◌>>=◌, ◌>>◌}

pub record SequenceValidator : Type 0 where
  pub next : ℕ
  pub seen : List ℕ

abbrev pub new_validator : SequenceValidator
new_validator = record { next = 0; seen = [] }

unfoldable pub observe : ℕ → Exec SequenceValidator (Unit {0})
observe sequence = do
  seen ← gets (λ v. v.seen)
  next ← gets (λ v. v.next)
  raise_when (contains sequence seen) (frame_error "duplicate sequence number")
  raise_when (not (sequence == next)) (frame_error "skipped sequence number")
  modify (λ v. record v { seen = sequence ∷ v.seen; next = suc v.next })

-- The validator after a sequence of frames, whether each was accepted or not.
unfoldable pub observed : List ℕ → SequenceValidator → SequenceValidator
observed [] v = v
observed (n ∷ ns) v = observed ns (observe n v).1
