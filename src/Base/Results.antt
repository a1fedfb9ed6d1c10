-- ===== src/Base/Results.antt =====
-- What a call of the Rust code gives: a value, an `anyhow::Error` or a panic. A loop that the
-- model runs on fuel may also have run out of it.
use mathlib.Core.Path.{◌≡◌, refl}
use mathlib.Core.Bool.{Bool, true, false}
use mathlib.Core.Option.{Option, none, some}

-- The messages of the `anyhow!` calls that the models reach, one constructor for each.
pub data Error : Type 0 where
  zero_input zero_output invalid_reserves insufficient_liquidity token_not_in_pool : Error
  amount_too_large no_convergence decode_failed not_implemented delta_overflow : Error
  missing_hash missing_log_index channel_closed : Error
  invalid_tick_range uninitialized_tick zero_price tick_out_of_bounds : Error
  fees_exceed_total credit_overflow id_too_large accumulator_too_large : Error

pub data Outcome {ℓ} (A : Type ℓ) : Type ℓ where
  ok : A → Outcome A
  err : Error → Outcome A
  panic out_of_fuel : Outcome A

-- `if !test { return Err(e) }`
abbrev pub guard : Bool → Error → Outcome (Unit {0})
guard false why = err why
guard true why = ok tt

-- `call?` and what follows it.
infixl 5 ◌>>=◌
abbrev pub ◌>>=◌ {κ ℓ} : {B : Type κ} {A : Type ℓ} → Outcome B → (B → Outcome A) → Outcome A
panic >>= _ = panic
out_of_fuel >>= _ = out_of_fuel
err why >>= _ = err why
ok value >>= rest = rest value

infixl 5 ◌>>◌
abbrev pub ◌>>◌ {κ} : {A : Type κ} → Outcome (Unit {0}) → Outcome A → Outcome A
first >> second = first >>= λ (u : Unit {0}). second

-- `o.ok_or(e)`
abbrev pub ok_or {ℓ} : {A : Type ℓ} → Option A → Error → Outcome A
ok_or none e = err e
ok_or (some a) e = ok a

-- A sequence succeeds where its first call does and its rest succeeds on the value.
pub >>=-eq-ok {κ ℓ} :
    {B : Type κ} {A : Type ℓ} (call : Outcome B) (rest : B → Outcome A) {result : A}
    → (call >>= rest) ≡ ok result
    → (value : B) × (call ≡ ok value) × (rest value ≡ ok result)
>>=-eq-ok panic rest e = cc
>>=-eq-ok out_of_fuel rest e = cc
>>=-eq-ok (err why) rest e = cc
>>=-eq-ok (ok value) rest e = (value, refl, e)

-- The call returns a value, and the value satisfies `P`.
abbrev pub Returns {ℓ κ} : {A : Type ℓ} → Outcome A → (A → Type κ) → Type (ℓ ⊔ κ)
Returns {A} o P = (a : A) × (o ≡ ok a) × P a
