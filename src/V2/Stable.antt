-- ===== src/V2/Stable.antt =====
-- `get_y` of src/v2/pool.rs, the search for the other reserve on the curve of a stable pair.
use evm_dex_pool.Base.{
  ◌/◌, ◌⊎◌, ℕ, zero, suc, ◌≤◌, ◌<◌, ◌≡◌, false, ltb, ◌==◌, if◌then◌else◌, ok, ◌>>=◌, arith, ltb→lt,
  >>=-eq-ok, Bool-cases, inl, inr, Outcome, Bool, panic, err, no_convergence, true, refl,
}
use evm_dex_pool.Uint
use evm_dex_pool.V2.{
  stable, uniswap_v2, normalise, V2Pool, Round, found, move_to, exp18, f, k, d, get_y_round,
  get_y_loop, get_y,
}

-- Where the search stops: on the curve, at the first value past it from above, or at the value
-- after one that is short of it.
pub data Settles (p : V2Pool) (x0 xy y : ℕ) : Type 0 where
  on_curve : f x0 y ≡ xy → Settles p x0 xy y
  from_above : xy ≤ f x0 y → f x0 (Uint.sub 256 y 1) < xy → Settles p x0 xy y
  from_below :
      (y' above : ℕ)
      → y ≡ Uint.add 256 y' 1
      → f x0 y' < xy
      → k p x0 y ≡ ok above
      → xy < above
      → Settles p x0 xy y

up :
    (p : V2Pool) (x0 xy y y' : ℕ)
    → f x0 y < xy
    → (dy : ℕ)
    → (if dy == 0
        then (if f x0 y == xy
            then ok (found y)
            else (k p x0 (Uint.add 256 y 1) >>= λ above.
                ok (if ltb xy above then found (Uint.add 256 y 1) else move_to (Uint.add 256 y 1))))
        else ok (move_to (Uint.add 256 y dy)))
      ≡ ok (found y')
    → Settles p x0 xy y'
up p x0 xy y y' short zero e =
    let differs : (f x0 y == xy) ≡ false = ground arith in
    let run = >>=-eq-ok (k p x0 (Uint.add 256 y 1)) _ (rw differs at e) in
    let (above, product, e') = run in
    let shape : (y' ≡ Uint.add 256 y 1) × (xy < above) = ground arith in
    from_below y above shape.0 short (rw shape.0 product) shape.1
up p x0 xy y y' short (suc dy) e = absurd (ground arith)

get_y_round-Settles :
    (p : V2Pool) (x0 xy y y' : ℕ) → get_y_round p x0 xy y ≡ ok (found y') → Settles p x0 xy y'
unfolding get_y_round
get_y_round-Settles p x0 xy y y' h = elim (Bool-cases (ltb (f x0 y) xy)) [
  | inl short ↦
      let run =
        >>=-eq-ok (Uint.div (Uint.mul 256 (Uint.sub 256 xy (f x0 y)) exp18) (d x0 y)) _
          (rw short at h) in
      let (dy, divides, e) = run in up p x0 xy y y' (ltb→lt (f x0 y) xy short) dy e
  | inr past ↦
      let run =
        >>=-eq-ok (Uint.div (Uint.mul 256 (Uint.sub 256 (f x0 y) xy) exp18) (d x0 y)) _
          (rw past at h) in
      let (dy, divides, e) = run in ground arith
]

-- The call returns a value or panics: it has no error of its own.
abbrev Runs {ℓ} : {A : Type ℓ} → Outcome A → Type ℓ
Runs {A} o = ((a : A) × (o ≡ ok a)) ⊎ (o ≡ panic)

Runs-bind {ℓ κ} :
    {A : Type ℓ} {B : Type κ} (m : Outcome A) (rest : A → Outcome B)
    → Runs m
    → ((a : A) → Runs (rest a))
    → Runs (m >>= rest)
Runs-bind m rest (inl (a, e)) h = rw e (h a)
Runs-bind m rest (inr e) h = inr (rw e refl)

Runs-if {ℓ} :
    {A : Type ℓ} (test : Bool) (x y : Outcome A) → Runs x → Runs y → Runs (if test then x else y)
Runs-if true x y h k = h
Runs-if false x y h k = k

div-Runs : (a b : ℕ) → Runs (Uint.div a b)
unfolding Uint.div
div-Runs a b = Runs-if (ltb 0 b) (ok (a / b)) panic (inl (a / b, refl)) (inr refl)

k-Runs : (p : V2Pool) (x y : ℕ) → Runs (k p x y)
unfolding k normalise
k-Runs p x y =
    elim p.pool_type
      as (λ t. Runs (elim t [
        | stable ↦
            (normalise x p.decimals0 >>= λ x'. normalise y p.decimals1 >>= λ y'. ok (f x' y'))
        | uniswap_v2 ↦ ok (Uint.mul 256 x y)
      ])) [
        | stable ↦
            Runs-bind (normalise x p.decimals0) _ (div-Runs (Uint.mul 256 x exp18) p.decimals0)
              λ x'.
                Runs-bind (normalise y p.decimals1) _ (div-Runs (Uint.mul 256 y exp18) p.decimals1)
                  λ y'. inl (f x' y', refl)
        | uniswap_v2 ↦ inl (Uint.mul 256 x y, refl)
      ]

get_y_round-Runs : (p : V2Pool) (x0 xy y : ℕ) → Runs (get_y_round p x0 xy y)
unfolding get_y_round
get_y_round-Runs p x0 xy y =
    Runs-if (ltb (f x0 y) xy) _ _
      (Runs-bind (Uint.div (Uint.mul 256 (Uint.sub 256 xy (f x0 y)) exp18) (d x0 y)) _
        (div-Runs _ _)
        λ dy.
          Runs-if (dy == 0) _ _
            (Runs-if (f x0 y == xy) _ _ (inl (found y, refl)) (
              Runs-bind (k p x0 (Uint.add 256 y 1)) _ (k-Runs p x0 (Uint.add 256 y 1))
                λ above. inl (_, refl)))
            (inl (_, refl)))
      (Runs-bind (Uint.div (Uint.mul 256 (Uint.sub 256 (f x0 y) xy) exp18) (d x0 y)) _
        (div-Runs _ _) λ dy. Runs-if (dy == 0) _ _ (inl (_, refl)) (inl (_, refl)))

-- How a search ends: settled, after its last round, or at a slope or a decimals of zero.
pub data Searched (p : V2Pool) (x0 xy : ℕ) : Outcome ℕ → Type 0 where
  settled : (y : ℕ) → Settles p x0 xy y → Searched p x0 xy (ok y)
  last_round : Searched p x0 xy (err no_convergence)
  zero_divisor : Searched p x0 xy panic

after :
    (p : V2Pool) (x0 xy y rounds : ℕ)
    → ((y1 : ℕ) → Searched p x0 xy (get_y_loop rounds p x0 xy y1))
    → (r : Round) → get_y_round p x0 xy y ≡ ok r
    → Searched p x0 xy (elim r [ found y1 ↦ ok y1 | move_to y1 ↦ get_y_loop rounds p x0 xy y1 ])
after p x0 xy y rounds rest (found y1) round = settled y1 (get_y_round-Settles p x0 xy y y1 round)
after p x0 xy y rounds rest (move_to y1) round = rest y1

get_y_loop-Searched :
    (rounds : ℕ) (p : V2Pool) (x0 xy y : ℕ) → Searched p x0 xy (get_y_loop rounds p x0 xy y)
unfolding get_y_loop
get_y_loop-Searched zero p x0 xy y = last_round
get_y_loop-Searched (suc rounds) p x0 xy y = elim (get_y_round-Runs p x0 xy y) [
  | inl (r, e) ↦
      rw (get_y_loop, e) (after p x0 xy y rounds (get_y_loop-Searched rounds p x0 xy) r e)
  | inr e ↦ rw (get_y_loop, e) zero_divisor
]

-- `get_y` either returns a value that is on the curve, or is the first one past it from above, or
-- follows one that is short of the curve and has an invariant `k` past it; or it fails after its
-- last round; or it panics.
pub get_y-Searched : (p : V2Pool) (x0 xy y : ℕ) → Searched p x0 xy (get_y p x0 xy y)
unfolding get_y
get_y-Searched = get_y_loop-Searched 255
