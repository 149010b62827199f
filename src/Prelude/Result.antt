-- ===== src/Prelude/Result.antt =====
-- Python exceptions as values: the exceptions that the modelled code raises, and chains of calls
-- that may raise. The text of a message is left out.
use sentinel_hft.Prelude.{◌⊎◌, inl, inr, ◌≡◌, refl, Bool, true, false, if◌then◌else◌}

-- `struct.error`, `ValueError`, `IndexError`, `KeyError`, `OverflowError` and `ZeroDivisionError`.
pub data Error : Type 0 where
  struct_error value_error index_error key_error overflow_error zero_division_error : Error

-- What a call returns, or the exception that it raises.
pub data Result {ℓ} (A : Type ℓ) : Type ℓ where
  err : Error → Result A
  ok : A → Result A

module _ {ℓ κ} {A : Type ℓ} {B : Type κ} where
  infixl 5 ◌>>=◌
  abbrev pub ◌>>=◌ : Result A → (A → Result B) → Result B
  m >>= next = elim m [ err e ↦ err e | ok a ↦ next a ]

  -- A sequence of calls that returned went through its first call.
  pub bind-eq-ok :
      (m : Result A) (next : A → Result B) {b : B}
      → (m >>= next) ≡ ok b
      → (a : A) × (m ≡ ok a) × (next a ≡ ok b)
  bind-eq-ok (err e) next returned = cc
  bind-eq-ok (ok a) next returned = (a, refl, returned)

infixl 5 ◌>>◌
abbrev pub ◌>>◌ {κ} : {B : Type κ} → Result (Unit {0}) → Result B → Result B
first >> second = first >>= λ done. second

-- `if not test: raise e`
abbrev pub guard : Bool → Error → Result (Unit {0})
guard test e = if test then ok tt else err e

-- What a call returns, or a default.
abbrev pub from_ok {ℓ} : {A : Type ℓ} → A → Result A → A
from_ok a (ok b) = b
from_ok a (err e) = a

abbrev pub returns {ℓ} : {A : Type ℓ} → Result A → Bool
returns (ok b) = true
returns (err e) = false

pub from_ok_lem {ℓ} :
    {A : Type ℓ} → (a : A) (r : Result A) → returns r ≡ true → r ≡ ok (from_ok a r)
from_ok_lem a (ok b) e = refl
from_ok_lem a (err x) e = cc

-- What raises `struct`, or a conversion or a division of numbers: neither `KeyError` nor
-- `IndexError`.
abbrev pub IsNumeric : Error → Type 0
IsNumeric struct_error = Unit
IsNumeric value_error = Unit
IsNumeric overflow_error = Unit
IsNumeric zero_division_error = Unit
IsNumeric index_error = ⊥
IsNumeric key_error = ⊥

-- A call that returns or raises an exception of this kind, and no other.
abbrev pub OnlyRaises {ℓ} : {A : Type ℓ} → (Error → Type 0) → Result A → Type 0
OnlyRaises P (ok a) = Unit
OnlyRaises P (err e) = P e

-- What holds of the value of a call that returns.
abbrev pub IfReturned {ℓ} : {A : Type ℓ} → (A → Type 0) → Result A → Type 0
IfReturned P (ok a) = P a
IfReturned P (err e) = Unit

pub IfReturned-ok {ℓ} :
    {A : Type ℓ} → (P : A → Type 0) (r : Result A) {a : A} → r ≡ ok a → IfReturned P r → P a
IfReturned-ok P r e holds = rw e at holds

pub IfReturned-map {ℓ} :
    {A : Type ℓ}
    → (P Q : A → Type 0) (r : Result A) → ((a : A) → P a → Q a)
    → IfReturned P r
    → IfReturned Q r
IfReturned-map P Q (ok a) f p = f a p
IfReturned-map P Q (err e) f p = tt

module _ {ℓ κ} {A : Type ℓ} {B : Type κ} (P : Error → Type 0) where
  pub bind-OnlyRaises :
      (m : Result A) (next : A → Result B)
      → OnlyRaises P m
      → ((a : A) → m ≡ ok a → OnlyRaises P (next a))
      → OnlyRaises P (m >>= next)
  bind-OnlyRaises (ok a) next first rest = rest a refl
  bind-OnlyRaises (err e) next first rest = first

  -- A chain raises what its first call raises when the rest returns.
  pub bind-OnlyRaises_ok :
      (m : Result A) (next : A → B) → OnlyRaises P m → OnlyRaises P (m >>= λ a. ok (next a))
  bind-OnlyRaises_ok (ok a) next first = tt
  bind-OnlyRaises_ok (err e) next first = first

pub test-OnlyRaises {ℓ} :
    {A : Type ℓ}
    → (P : Error → Type 0) (x : Error) (t : Bool) (a : A) → P x
    → OnlyRaises P (if t then ok a else err x)
test-OnlyRaises P x true a p = tt
test-OnlyRaises P x false a p = p

pub Result-cases {ℓ} :
    {A : Type ℓ} → (r : Result A) → ((a : A) × (r ≡ ok a)) ⊎ ((x : Error) × (r ≡ err x))
Result-cases (ok a) = inl (a, refl)
Result-cases (err x) = inr (x, refl)
