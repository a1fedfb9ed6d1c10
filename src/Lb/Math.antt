-- ===== src/Lb/Math.antt =====
-- src/lb/math.rs: 128.128 fixed-point prices, fees, packed amounts and rounding shifts.
-- A signed `i32` is an integer; `u128`, `U256` and `U512` are numbers, wrapped by `Uint`.
pub mod Fees
pub mod Shifts
pub mod Price
use evm_dex_pool.Base.{
  ℕ, zero, suc, ◌+◌, ◌-◌, ◌*◌, ◌/◌, ◌%◌, ◌^◌, min, Bool, true, false, not, ◌==◌, ltb, if◌then◌else◌,
  List, take, drop, Outcome, ok, ◌>>=◌,
}
use evm_dex_pool.Base.Int.{ℤ, pos, negsuc, unsigned_abs, is_negative, signed}
use evm_dex_pool.Uint

abbrev pub scale_offset : ℕ
scale_offset = 128

-- `SCALE`, 1.0 in 128.128 fixed point.
abbrev pub scale : ℕ
scale = 2 ^ 128

abbrev pub u256_max : ℕ
u256_max = 2 ^ 256 - 1

abbrev pub precision : ℕ
precision = 1_000_000_000_000_000_000

abbrev pub max_fee : ℕ
max_fee = 100_000_000_000_000_000

abbrev basis_point_max : ℕ
basis_point_max = 10_000

abbrev pub real_id_shift : ℕ
real_id_shift = 2 ^ 23

unfoldable pub get_base : ℕ → ℕ
get_base bin_step = Uint.add 256 scale (Uint.shl 256 bin_step scale_offset / basis_point_max)

-- `id as i32 - REAL_ID_SHIFT`, on the 32-bit patterns.
unfoldable pub get_exponent : ℕ → ℤ
get_exponent id = signed 32 (Uint.sub 32 id real_id_shift)

-- The low 256 bits of the 512-bit product shifted right by 128.
unfoldable pub mul_128x128 : ℕ → ℕ → ℕ
mul_128x128 a b = (a * b) / 2 ^ scale_offset % 2 ^ 256

-- `rounds` bits are left, `bit` is the next one.
unfoldable pub pow_loop : ℕ → ℕ → ℕ → ℕ → ℕ → ℕ
pow_loop zero bit abs_y result squared = result
pow_loop (suc rounds) bit abs_y result squared =
    pow_loop rounds (bit + 1) abs_y
      (if abs_y / 2 ^ bit % 2 == 1 then mul_128x128 result squared else result)
      (mul_128x128 squared squared)

-- `pow_128x128` behind its test for a zero exponent: `x` is inverted where it is above 1.0.
unfoldable pub pow_nonzero : ℕ → ℕ → Bool → ℕ
pow_nonzero x abs_y negative =
    let squared : ℕ = if ltb scale x then u256_max / x else x in
    let invert : Bool = if ltb scale x then not negative else negative in
    let result = pow_loop 20 0 abs_y scale squared in
    if result == 0 then 0 else if invert then u256_max / result else result

unfoldable pub pow_128x128 : ℕ → ℤ → ℕ
pow_128x128 x y =
    if unsigned_abs y == 0 then scale else pow_nonzero x (unsigned_abs y) (is_negative y)

unfoldable pub get_price_from_id : ℕ → ℕ → ℕ
get_price_from_id id bin_step = pow_128x128 (get_base bin_step) (get_exponent id)

unfoldable pub get_base_fee : ℕ → ℕ → ℕ
get_base_fee base_factor bin_step = Uint.mul 128 (Uint.mul 128 base_factor bin_step) 10_000_000_000

unfoldable pub get_variable_fee : ℕ → ℕ → ℕ → ℕ
get_variable_fee volatility_accumulator bin_step variable_fee_control =
    let prod = Uint.mul 128 volatility_accumulator bin_step in
    if variable_fee_control == 0
    then 0
    else Uint.add 128 (Uint.mul 128 (Uint.mul 128 prod prod) variable_fee_control) 99 / 100

unfoldable pub get_total_fee : ℕ → ℕ → ℕ → ℕ → ℕ
unfolding get_base_fee get_variable_fee
get_total_fee base_factor bin_step volatility_accumulator variable_fee_control =
    min
      (Uint.add 128 (get_base_fee base_factor bin_step)
        (get_variable_fee volatility_accumulator bin_step variable_fee_control))
      max_fee

-- The fee contained in an amount that includes fees, rounded up.
unfoldable pub get_fee_amount_from : ℕ → ℕ → Outcome ℕ
get_fee_amount_from amount_with_fees total_fee =
    Uint.to 128 (Uint.add 256 (Uint.mul 256 amount_with_fees total_fee) (precision - 1) / precision)

-- The fee to add to a net amount, rounded up.
unfoldable pub get_fee_amount : ℕ → ℕ → Outcome ℕ
get_fee_amount amount total_fee = do
  let denominator = Uint.sub 128 precision total_fee
  let numerator = Uint.add 256 (Uint.mul 256 amount total_fee) (Uint.sub 128 denominator 1)
  result ← Uint.div numerator denominator
  Uint.to 128 result

-- `bytes[0..16]` is Y, `bytes[16..32]` is X, both big-endian; the pair is (X, Y).
unfoldable pub decode_amounts : List ℕ → ℕ × ℕ
decode_amounts packed =
    (Uint.from_be_bytes (take 16 (drop 16 packed)), Uint.from_be_bytes (take 16 packed))

unfoldable pub decode_amount : List ℕ → Bool → ℕ
unfolding decode_amounts
decode_amount packed decode_x = let (x, y) = decode_amounts packed in if decode_x then x else y

unfoldable pub mul_shift_round_down : ℕ → ℕ → ℕ → ℕ
mul_shift_round_down x y offset = (x * y) / 2 ^ offset % 2 ^ 256

-- The mask keeps the low `offset` bits of the product, all 512 of them from 512 on.
unfoldable pub mul_shift_round_up : ℕ → ℕ → ℕ → ℕ
mul_shift_round_up x y offset =
    let result = mul_shift_round_down x y offset in
    let masked : ℕ = if ltb offset 512 then (x * y) % 2 ^ offset else 0 in
    if ltb 0 masked then Uint.add 256 result 1 else result

-- `U512::from(x) << offset` keeps 512 bits.
unfoldable pub shift_div_round_down : ℕ → ℕ → ℕ → ℕ
shift_div_round_down x offset denominator =
    if denominator == 0 then 0 else Uint.shl 512 x offset / denominator % 2 ^ 256

unfoldable pub shift_div_round_up : ℕ → ℕ → ℕ → ℕ
shift_div_round_up x offset denominator =
    let result = shift_div_round_down x offset denominator in
    if denominator == 0
    then 0
    else if ltb 0 (Uint.shl 512 x offset % denominator)
    then Uint.add 256 result 1
    else result
