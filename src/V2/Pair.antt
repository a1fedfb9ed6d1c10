-- ===== src/V2/Pair.antt =====
-- A funded constant-product pair of src/v2/pool.rs, and its quotes within its ranges.
use evm_dex_pool.Base.{
  ℕ, ◌<◌, ◌≡◌, refl, true, ◌==◌, if◌then◌else◌, ok, arith, lt→ltb, pos→not_zero,
}
use evm_dex_pool.Uint.{Fits}
use evm_dex_pool.V2.{
  V2Pool, uniswap_v2, fee_denominator, is_valid, calculate_output_0_to_1, calculate_output_1_to_0,
  calculate_input_0_to_1, calculate_input_1_to_0,
}
use evm_dex_pool.V2.Product.{
  InRange, exact_output, exact_input, product_output-eq, product_input-eq,
}

-- A funded constant-product pair, as the pair contract keeps it.
pub record Funded (p : V2Pool) : Type 0 where
  pub constant : p.pool_type ≡ uniswap_v2
  pub fee_small : p.fee < fee_denominator
  pub fits0 : Fits 112 p.reserve0
  pub fits1 : Fits 112 p.reserve1
  pub pos0 : 0 < p.reserve0
  pub pos1 : 0 < p.reserve1

-- The reserve that a token pays into, and the other.
abbrev pub in_of : V2Pool → ℕ → ℕ
in_of p t = if t == p.token0 then p.reserve0 else p.reserve1

abbrev pub out_of : V2Pool → ℕ → ℕ
out_of p t = if t == p.token0 then p.reserve1 else p.reserve0

module _ (p : V2Pool) (fund : Funded p) where
  valid : is_valid p ≡ true
  unfolding is_valid
  valid = rw (pos→not_zero p.reserve0 fund.pos0) rw (pos→not_zero p.reserve1 fund.pos1) refl

  pub in_range0 : (a : ℕ) → Fits 112 a → 0 < a → InRange p.fee p.reserve0 p.reserve1 a
  in_range0 a f pos = record {
    fee_small = fund.fee_small;
    in_fits = fund.fits0;
    in_pos = fund.pos0;
    out_fits = fund.fits1;
    out_pos = fund.pos1;
    amount_fits = f;
    amount_pos = pos;
  }

  pub in_range1 : (a : ℕ) → Fits 112 a → 0 < a → InRange p.fee p.reserve1 p.reserve0 a
  in_range1 a f pos = record {
    fee_small = fund.fee_small;
    in_fits = fund.fits1;
    in_pos = fund.pos1;
    out_fits = fund.fits0;
    out_pos = fund.pos0;
    amount_fits = f;
    amount_pos = pos;
  }

  pub output_0_to_1 :
      (a : ℕ)
      → Fits 112 a
      → 0 < a
      → calculate_output_0_to_1 p a ≡ ok (exact_output p.fee p.reserve0 p.reserve1 a)
  unfolding calculate_output_0_to_1
  output_0_to_1 a f pos =
      rw (pos→not_zero a pos) rw valid rw fund.constant
        (product_output-eq p.fee p.reserve0 p.reserve1 a (in_range0 a f pos))

  pub output_1_to_0 :
      (a : ℕ)
      → Fits 112 a
      → 0 < a
      → calculate_output_1_to_0 p a ≡ ok (exact_output p.fee p.reserve1 p.reserve0 a)
  unfolding calculate_output_1_to_0
  output_1_to_0 a f pos =
      rw (pos→not_zero a pos) rw valid rw fund.constant
        (product_output-eq p.fee p.reserve1 p.reserve0 a (in_range1 a f pos))

  pub input_0_to_1 :
      (a : ℕ)
      → 0 < a
      → a < p.reserve1
      → calculate_input_0_to_1 p a ≡ ok (exact_input p.fee p.reserve0 p.reserve1 a)
  unfolding calculate_input_0_to_1
  input_0_to_1 a pos below = rw (pos→not_zero a pos) rw valid rw (lt→ltb a p.reserve1 below) (
      product_input-eq p.fee p.reserve0 p.reserve1 a (in_range0 a (omega (arith, fund.fits1)) pos)
        below)

  pub input_1_to_0 :
      (a : ℕ)
      → 0 < a
      → a < p.reserve0
      → calculate_input_1_to_0 p a ≡ ok (exact_input p.fee p.reserve1 p.reserve0 a)
  unfolding calculate_input_1_to_0
  input_1_to_0 a pos below = rw (pos→not_zero a pos) rw valid rw (lt→ltb a p.reserve0 below) (
      product_input-eq p.fee p.reserve1 p.reserve0 a (in_range1 a (omega (arith, fund.fits0)) pos)
        below)
