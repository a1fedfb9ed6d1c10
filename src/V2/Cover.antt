-- ===== src/V2/Cover.antt =====
-- `calculate_input` and `calculate_output` of src/v2/pool.rs one after the other.
use evm_dex_pool.Base.{
  ℕ, ◌∙◌, ◌≤◌, ◌<◌, ◌≡◌, ◌≢◌, true, false, ◌==◌, ok, Returns, arith, inl, inr, ◌⊎◌, ==_refl,
  ==_false, sym,
}
use evm_dex_pool.Uint.{Fits}
use evm_dex_pool.V2.{
  V2Pool, calculate_output, calculate_output_0_to_1, calculate_output_1_to_0, calculate_input,
}
use evm_dex_pool.V2.Product.{exact_output, exact_input, exact_input-covers}
use evm_dex_pool.V2.Pair.{
  Funded, in_of, out_of, in_range0, in_range1, output_0_to_1, output_1_to_0, input_0_to_1,
  input_1_to_0,
}

module _ (p : V2Pool) (fund : Funded p) where
  covers_0_to_1 :
      (wanted : ℕ)
      → 0 < wanted
      → wanted < p.reserve1
      → Fits 112 (exact_input p.fee p.reserve0 p.reserve1 wanted)
      → Returns
          (calculate_output_0_to_1 p (exact_input p.fee p.reserve0 p.reserve1 wanted))
          (λ out. wanted ≤ out)
  covers_0_to_1 wanted pos below f =
      let paid = exact_input p.fee p.reserve0 p.reserve1 wanted in
      (
        exact_output p.fee p.reserve0 p.reserve1 paid,
        output_0_to_1 p fund paid f (omega arith),
        exact_input-covers p.fee p.reserve0 p.reserve1 wanted
            (in_range0 p fund wanted (omega (arith, fund.fits1)) pos) below,
      )

  covers_1_to_0 :
      (wanted : ℕ)
      → 0 < wanted
      → wanted < p.reserve0
      → Fits 112 (exact_input p.fee p.reserve1 p.reserve0 wanted)
      → Returns
          (calculate_output_1_to_0 p (exact_input p.fee p.reserve1 p.reserve0 wanted))
          (λ out. wanted ≤ out)
  covers_1_to_0 wanted pos below f =
      let paid = exact_input p.fee p.reserve1 p.reserve0 wanted in
      (
        exact_output p.fee p.reserve1 p.reserve0 paid,
        output_1_to_0 p fund paid f (omega arith),
        exact_input-covers p.fee p.reserve1 p.reserve0 wanted
            (in_range1 p fund wanted (omega (arith, fund.fits0)) pos) below,
      )

-- The tokens of a swap: the pair's two, in either order.
abbrev Sides : V2Pool → ℕ → ℕ → Type 0
Sides p token_in token_out =
    ((token_in ≡ p.token0) × (token_out ≡ p.token1))
    ⊎ ((token_in ≡ p.token1) × (token_out ≡ p.token0))

-- What `calculate_input` answers for an output, in unbounded numbers.
abbrev pub price_of : V2Pool → ℕ → ℕ → ℕ
price_of p token_in wanted = exact_input p.fee (in_of p token_in) (out_of p token_in) wanted

-- Of a funded constant-product pair of two different tokens, let a positive output be below the
-- reserve that pays it, and let its price be a `uint112`. Then quoting the input for that output
-- succeeds with that price, and quoting the output for the price succeeds with at least the output
-- that was asked for.
pub input-covers :
    (p : V2Pool)
    → Funded p
    → (token_in token_out wanted : ℕ) → Sides p token_in token_out
    → p.token0 ≢ p.token1
    → 0 < wanted
    → wanted < out_of p token_in
    → Fits 112 (price_of p token_in wanted)
    → (calculate_input p token_out wanted ≡ ok (price_of p token_in wanted))
      × Returns (calculate_output p token_in (price_of p token_in wanted)) (λ out. wanted ≤ out)
unfolding calculate_input calculate_output
input-covers p fund token_in token_out wanted (inl (e, e')) distinct pos below fits =
    let no : (p.token1 == p.token0) ≡ false = ==_false p.token1 p.token0 (λ q. distinct (sym q)) in
    let is0 : (token_in == p.token0) ≡ true = rw e (==_refl p.token0) in
    let below' : wanted < p.reserve1 = rw is0 at below in
    let fits' : Fits 112 (exact_input p.fee p.reserve0 p.reserve1 wanted) = rw is0 at fits in
    rw (is0, e', no, ==_refl p.token1)
      (input_0_to_1 p fund wanted pos below', covers_0_to_1 p fund wanted pos below' fits')
input-covers p fund token_in token_out wanted (inr (e, e')) distinct pos below fits =
    let no : (token_in == p.token0) ≡ false =
      ==_false token_in p.token0 (λ q. distinct (sym q ∙ e)) in
    let is1 : (token_in == p.token1) ≡ true = rw e (==_refl p.token1) in
    let below' : wanted < p.reserve0 = rw no at below in
    let fits' : Fits 112 (exact_input p.fee p.reserve1 p.reserve0 wanted) = rw no at fits in
    rw (no, is1, e', ==_refl p.token0)
      (input_1_to_0 p fund wanted pos below', covers_1_to_0 p fund wanted pos below' fits')
