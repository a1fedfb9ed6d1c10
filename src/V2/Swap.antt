-- ===== src/V2/Swap.antt =====
-- `calculate_output`, `calculate_input` and `apply_swap` of src/v2/pool.rs on constant-product
-- pairs, for a caller that quotes a swap and then applies it.
use evm_dex_pool.Base.{
  ℕ, ◌+◌, ◌-◌, ◌*◌, ◌≤◌, ◌<◌, ◌≡◌, refl, true, false, ◌==◌, Returns, arith, lt→ltb, Bool-cases, inl,
  inr, ==_iff,
}
use evm_dex_pool.Uint
use evm_dex_pool.Uint.{Fits}
use evm_dex_pool.V2.{V2Pool, contains_token, calculate_output, apply_swap}
use evm_dex_pool.V2.Product.{exact_output, exact_output-lt, product_grows}
use evm_dex_pool.V2.Pair.{Funded, in_range0, in_range1, output_0_to_1, output_1_to_0}

abbrev pub product : V2Pool → ℕ
product p = p.reserve0 * p.reserve1

-- What a quoted and applied swap leaves.
pub data Swapped (p : V2Pool) (token amount out now : ℕ) (q : V2Pool) : Type 0 where
  of_zero :
      token ≡ p.token0
      → q.reserve0 ≡ p.reserve0 + amount
      → q.reserve1 + out ≡ p.reserve1
      → 0 < q.reserve1
      → product p ≤ product q
      → q.last_updated ≡ now
      → Swapped p token amount out now q
  of_one :
      token ≡ p.token1
      → q.reserve1 ≡ p.reserve1 + amount
      → q.reserve0 + out ≡ p.reserve0
      → 0 < q.reserve0
      → product p ≤ product q
      → q.last_updated ≡ now
      → Swapped p token amount out now q

module _ (p : V2Pool) (fund : Funded p) where
  module _ (token amount now : ℕ) (f : Fits 112 amount) (pos : 0 < amount) where
    zero_side :
        (token == p.token0) ≡ true
        → Returns
            (calculate_output p token amount)
            (λ out. Returns (apply_swap p token amount out now) (Swapped p token amount out now))
    unfolding calculate_output apply_swap
    zero_side is0 =
        let r = in_range0 p fund amount f pos in
        let out = exact_output p.fee p.reserve0 p.reserve1 amount in
        let less : out < p.reserve1 = exact_output-lt p.fee p.reserve0 p.reserve1 amount r in
        (
          out,
          rw is0 (output_0_to_1 p fund amount f pos),
          (
            record p {
              reserve0 = p.reserve0 + amount;
              reserve1 = p.reserve1 - out;
              last_updated = now;
            },
            rw is0 rw (lt→ltb out p.reserve1 less) rw
                (Uint.add-eq 256 p.reserve0 amount (omega (arith, fund.fits0))) rw
                (Uint.sub-eq 256 p.reserve1 out (omega arith) (omega (arith, fund.fits1))) refl,
            of_zero ((==_iff token p.token0).0 is0) refl (omega arith) (omega arith)
                (product_grows p.fee p.reserve0 p.reserve1 amount r) refl,
          ),
        )

    one_side :
        (token == p.token0) ≡ false
        → (token == p.token1) ≡ true
        → Returns
            (calculate_output p token amount)
            (λ out. Returns (apply_swap p token amount out now) (Swapped p token amount out now))
    unfolding calculate_output apply_swap
    one_side not0 is1 =
        let r = in_range1 p fund amount f pos in
        let out = exact_output p.fee p.reserve1 p.reserve0 amount in
        let less : out < p.reserve0 = exact_output-lt p.fee p.reserve1 p.reserve0 amount r in
        (
          out,
          rw not0 rw is1 (output_1_to_0 p fund amount f pos),
          (
            record p {
              reserve1 = p.reserve1 + amount;
              reserve0 = p.reserve0 - out;
              last_updated = now;
            },
            rw not0 rw is1 rw (lt→ltb out p.reserve0 less) rw
                (Uint.add-eq 256 p.reserve1 amount (omega (arith, fund.fits1))) rw
                (Uint.sub-eq 256 p.reserve0 out (omega arith) (omega (arith, fund.fits0))) refl,
            of_one ((==_iff token p.token1).0 is1) refl (omega arith) (omega arith)
                (grind (arith, product_grows p.fee p.reserve1 p.reserve0 amount r)) refl,
          ),
        )

-- Quoting a swap of a token of a funded constant-product pair, for a positive `uint112` amount,
-- succeeds, and so does applying the swap at the quoted output. The pair then holds the amount more
-- of that token and the output less of the other, of which some is left, the product of its
-- reserves has not fallen, and its update time is the clock's.
pub swap-Swapped :
    (p : V2Pool)
    → Funded p
    → (token amount now : ℕ) → contains_token p token ≡ true
    → Fits 112 amount
    → 0 < amount
    → Returns
        (calculate_output p token amount)
        (λ out. Returns (apply_swap p token amount out now) (Swapped p token amount out now))
unfolding contains_token
swap-Swapped p fund token amount now known f pos = elim (Bool-cases (token == p.token0)) [
  | inl is0 ↦ zero_side p fund token amount now f pos is0
  | inr not0 ↦ one_side p fund token amount now f pos not0 (ground arith)
]
