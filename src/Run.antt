-- ===== src/Run.antt =====
-- How a run of the program's code ends: in a value, or in a fault.
use ycsb_c_copy.Prelude.{◌≡◌, refl, Bool, true, false, ℕ, Bytes}

-- `exception m` is a thrown `utils::Exception`; `invalid_argument` and `out_of_range` are the
-- standard library's; `thrown_text` is a thrown `const char *`; `failed_assert` is a failed
-- `assert`; `exited n` is a call of `exit(n)`; `undefined` is behaviour that C++ leaves undefined.
-- `still_running` is no end: a loop that was given too little fuel.
pub data Fault : Type 0 where
  exception : Bytes → Fault
  invalid_argument out_of_range failed_assert undefined still_running : Fault
  thrown_text : Bytes → Fault
  exited : ℕ → Fault

pub data Run {ℓ} (A : Type ℓ) : Type ℓ where
  ok : A → Run A
  fault : Fault → Run A

infixl 5 ◌>>=◌ ◌>>◌
abbrev pub ◌>>=◌ {ℓ κ} : {A : Type ℓ} {B : Type κ} → Run A → (A → Run B) → Run B
ok value >>= next = next value
fault reason >>= next = fault reason

abbrev pub ◌>>◌ {ℓ} : {B : Type ℓ} → Run (Unit {0}) → Run B → Run B
m >> k = m >>= λ _. k

-- `if (!b) throw e;`
abbrev pub require : Bool → Fault → Run (Unit {0})
require true e = ok tt
require false e = fault e

module _ {ℓ} {A B : Type ℓ} where
  pub bind-eq-ok :
      (m : Run A) (f : A → Run B) {b : B} → (m >>= f) ≡ ok b → (a : A) × (m ≡ ok a) × (f a ≡ ok b)
  bind-eq-ok (ok a) f h = (a, refl, h)
  bind-eq-ok (fault e) f h = cc
