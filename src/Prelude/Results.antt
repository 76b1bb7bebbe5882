-- ===== src/Prelude/Results.antt =====
-- Rust's `Result` with the error type first, and its `?` as a bind.
use mathlib.Core.Path.{◌≡◌, refl}
use mathlib.Core.Option.{Option, none, some}
use mathlib.Core.Logic.{◌⊎◌, inl, inr}
use mathlib.Core.Bool.{Bool, true, false}

pub data Result {ℓ κ} (E : Type ℓ) (A : Type κ) : Type (ℓ ⊔ κ) where
  ok : A → Result E A
  err : E → Result E A

-- `?`: an error ends the function, a value goes on into the rest of it.
infixl 5 ◌>>=◌ ◌>>◌
abbrev pub ◌>>=◌ {ε α β} :
    {Err : Type ε} {X : Type α} {Y : Type β} → Result Err X → (X → Result Err Y) → Result Err Y
err failure >>= next = err failure
ok x >>= next = next x

-- `if b { return Err(e) }`
abbrev pub reject {ℓ} : {E : Type ℓ} → Bool → E → Result E (Unit {0})
reject true e = err e
reject false e = ok tt

-- A check whose success carries nothing.
abbrev pub ◌>>◌ {ε β} :
    {Err : Type ε} {Y : Type β} → Result Err (Unit {0}) → Result Err Y → Result Err Y
check >> next = check >>= λ done. next

abbrev pub ok_or {ℓ κ} : {E : Type ℓ} {A : Type κ} → Option A → E → Result E A
ok_or none e = err e
ok_or (some a) e = ok a

abbrev pub map_err {ℓ κ μ} :
    {E : Type ℓ} {F : Type κ} {A : Type μ} → (E → F) → Result E A → Result F A
map_err f (ok a) = ok a
map_err f (err e) = err (f e)

pub Result-cases {ℓ κ} :
    {E : Type ℓ} {A : Type κ} (r : Result E A) → ((a : A) × (r ≡ ok a)) ⊎ ((e : E) × (r ≡ err e))
Result-cases (ok a) = inl (a, refl)
Result-cases (err e) = inr (e, refl)

-- A `?` whose function succeeds has met a value.
pub >>=-eq-ok {ε α β} :
    {Err : Type ε} {X : Type α} {Y : Type β} (r : Result Err X) (next : X → Result Err Y) {y : Y}
    → (r >>= next) ≡ ok y
    → (x : X) × (r ≡ ok x) × (next x ≡ ok y)
>>=-eq-ok (err failure) next e = absurd (cc)
>>=-eq-ok (ok x) next e = (x, refl, e)
