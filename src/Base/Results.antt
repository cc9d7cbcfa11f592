-- ===== src/Base/Results.antt =====
-- Python's exceptions as values: a function that may raise returns a `Result`.
use mathlib.Core.Path.{◌≡◌, refl}
use mathlib.Core.Logic.{◌⊎◌, inl, inr}
use mathlib.Core.Bool.{Bool, true, false}
use mathlib.Core.Option.{Option, none, some}

-- The exception classes of the program. `out_of_fuel` is none of them: a model's loop or recursion
-- that ran out of its fuel.
pub data Error : Type 0 where
  type_error value_error key_error index_error struct_error unicode_error os_error : Error
  page_overflow_error page_corruption_error table_handler_error : Error
  wal_corruption_error wal_capacity_error router_error compactor_error : Error
  out_of_fuel : Error

pub data Result {ℓ} (A : Type ℓ) : Type ℓ where
  ok : A → Result A
  raise : Error → Result A

infixl 5 ◌>>=◌ ◌>>◌
abbrev pub ◌>>=◌ {ℓ κ} : {A : Type ℓ} {B : Type κ} → Result A → (A → Result B) → Result B
ok a >>= f = f a
raise e >>= f = raise e

abbrev pub ◌>>◌ {ℓ} : {B : Type ℓ} → Result (Unit {0}) → Result B → Result B
m >> k = m >>= λ _. k

-- `if test: raise e`
abbrev pub raise_if : Bool → Error → Result (Unit {0})
raise_if true e = raise e
raise_if false e = ok tt

pub Result-cases {ℓ} :
    {A : Type ℓ} (r : Result A) → ((a : A) × (r ≡ ok a)) ⊎ ((e : Error) × (r ≡ raise e))
Result-cases (ok a) = inl (a, refl)
Result-cases (raise e) = inr (e, refl)

-- An optional value that must be there.
abbrev pub or_raise {ℓ} : {A : Type ℓ} → Error → Option A → Result A
or_raise e none = raise e
or_raise e (some a) = ok a

-- What a chain that succeeded went through.
pub bind-ok {ℓ κ} :
    {A : Type ℓ} {B : Type κ} (m : Result A) (f : A → Result B) (b : B)
    → (m >>= f) ≡ ok b
    → (a : A) × (m ≡ ok a) × (f a ≡ ok b)
bind-ok (ok a) f b h = (a, refl, h)
bind-ok (raise e) f b h = cc

pub guard-ok {ℓ} :
    {B : Type ℓ} (test : Bool) (e : Error) (k : Result B) (b : B)
    → (raise_if test e >> k) ≡ ok b
    → (test ≡ false) × (k ≡ ok b)
guard-ok true e k b h = cc
guard-ok false e k b h = (refl, h)
