-- ===== src/Prelude/Result.antt =====
-- Python's exceptions as values: a function that may raise returns a `Result`.
use Prim.Native.String.{String}
use mathlib.Core.Path.{◌≡◌, refl}
use mathlib.Core.Bool.{Bool, true, false}
use mathlib.Core.Option.{Option, none, some}

-- The exception's class with its message, or its stable code for a `ProtocolTimeError`.
pub data Exn : Type 0 where
  value_error key_error runtime_state_error discovery_error task_protocol_error frame_error
        protocol_time_error policy_compilation_error :
      String → Exn

pub data Result {ℓ} (A : Type ℓ) : Type ℓ where
  err : Exn → Result A
  ok : A → Result A

-- A statement that may raise, and what follows it.
infixl 5 ◌>>=◌ ◌>>◌
abbrev pub ◌>>=◌ {ℓ κ} : {T : Type ℓ} {U : Type κ} (r : Result T) (k : T → Result U) → Result U
ok x >>= k = k x
err e >>= k = err e

abbrev pub ◌>>◌ {ℓ κ} : {T : Type ℓ} {U : Type κ} (first : Result T) (next : Result U) → Result U
first >> next = first >>= λ _. next

-- `if c: raise e`
abbrev pub raise_if : Bool → Exn → Result (Unit {0})
raise_if true e = err e
raise_if false e = ok tt

-- `if not c: raise e`
abbrev pub require : Bool → Exn → Result (Unit {0})
require true e = ok tt
require false e = err e

-- A lookup whose absence raises.
abbrev pub or_raise {ℓ} : {A : Type ℓ} → Option A → Exn → Result A
or_raise none e = err e
or_raise (some a) e = ok a

-- A chain that returned: its first part returned, and so did the rest.
pub >>=-eq-ok {ℓ κ} :
    {T : Type ℓ} {U : Type κ} (r : Result T) (k : T → Result U) {y : U} (e : (r >>= k) ≡ ok y)
    → (x : T) × (r ≡ ok x) × (k x ≡ ok y)
>>=-eq-ok (err e) k same = cc
>>=-eq-ok (ok x) k same = (x, refl, same)

-- A guard that passed.
pub require-eq-ok {ℓ} :
    {A : Type ℓ} (b : Bool) (e : Exn) (m : Result A) {a : A}
    → (require b e >> m) ≡ ok a
    → (b ≡ true) × (m ≡ ok a)
require-eq-ok true e m h = (refl, h)
require-eq-ok false e m h = cc

pub raise_if-eq-ok {ℓ} :
    {A : Type ℓ} (b : Bool) (e : Exn) (m : Result A) {a : A}
    → (raise_if b e >> m) ≡ ok a
    → (b ≡ false) × (m ≡ ok a)
raise_if-eq-ok false e m h = (refl, h)
raise_if-eq-ok true e m h = cc
