-- ===== src/Result.antt =====
-- Results of code that may throw. The classes of src/errors.ts are the errors; their messages are
-- left out.
use node_celery_ts.Prelude.{◌≡◌, refl, ◌⊎◌, inl, inr}

-- `generic` is an `Error` that is neither a `ParseError` nor an `UnimplementedError`.
pub data Error : Type 0 where
  parse_error unimplemented_error generic : Error

pub data Result {ℓ} (A : Type ℓ) : Type ℓ where
  ok : A → Result A
  err : Error → Result A

infixl 5 ◌>>=◌ ◌>>◌
abbrev pub ◌>>=◌ {ℓ κ} : {A : Type ℓ} {B : Type κ} → Result A → (A → Result B) → Result B
ok a >>= f = f a
err x >>= f = err x

abbrev pub ◌>>◌ {ℓ} : {B : Type ℓ} → Result (Unit {0}) → Result B → Result B
m >> k = m >>= λ _. k

pub bind-ok :
    {A B C : Type 0} (p : Result A) (g : A → B) (h : B → Result C)
    → ((p >>= λ v. ok (g v)) >>= h) ≡ (p >>= λ v. h (g v))
bind-ok (ok a) g h = refl
bind-ok (err x) g h = refl

pub Result-cases :
    {A : Type 0} (p : Result A) → ((a : A) × (p ≡ ok a)) ⊎ ((y : Error) × (p ≡ err y))
Result-cases (ok a) = inl (a, refl)
Result-cases (err y) = inr (y, refl)

-- What a chain that returns has gone through.
pub bind-inv :
    {A B : Type 0} (p : Result A) (f : A → Result B) (b : B)
    → (p >>= f) ≡ ok b
    → (a : A) × (p ≡ ok a) × (f a ≡ ok b)
bind-inv (ok a) f b h = (a, refl, h)
bind-inv (err x) f b h = cc
