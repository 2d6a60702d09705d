-- ===== src/Prelude/Fault.antt =====
-- Runs that may fault: `none` is a dereference of a reference that is not allocated.
use mathlib.Core.Option.{Option, none, some}

infixl 5 ◌>>=◌
abbrev pub ◌>>=◌ {ℓ κ} : {A : Type ℓ} {B : Type κ} → Option A → (A → Option B) → Option B
none >>= f = none
some a >>= f = f a
