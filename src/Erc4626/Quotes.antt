-- ===== src/Erc4626/Quotes.antt =====
-- The quotes of src/erc4626/standard.rs within the ranges of a funded vault.
use evm_dex_pool.Base.{
  ℕ, suc, ◌-◌, ◌*◌, ◌/◌, ◌^◌, ◌≤◌, ◌<◌, ◌≡◌, ◌==◌, ok, Returns, arith, pos→not_zero, ==_refl,
  ==_false, ◌≢◌, Bool-cases, inl, inr, ap, sym, zero_test→eq, dec_le,
}
use evm_dex_pool.Base.Division.{mul_bound, div_bounds, mul-cancel}
use evm_dex_pool.Uint
use evm_dex_pool.Uint.{Fits}
use evm_dex_pool.Erc4626.{
  Erc4626Standard, fee_denominator, terms, converted, calculate_output, calculate_input,
}

-- A vault with both reserves, of two different tokens, with fees of at most 100%.
pub record Funded (p : Erc4626Standard) : Type 0 where
  pub distinct : p.asset_token ≢ p.vault_token
  pub deposit_small : p.deposit_fee ≤ fee_denominator
  pub withdraw_small : p.withdraw_fee ≤ fee_denominator
  pub vault_pos : 0 < p.vault_reserve
  pub asset_pos : 0 < p.asset_reserve
  pub vault_fits : Fits 112 p.vault_reserve
  pub asset_fits : Fits 112 p.asset_reserve

-- The conversion in unbounded numbers.
abbrev pub exact : ℕ → ℕ → ℕ → ℕ → ℕ
exact fee amount over under = amount * over / under * (fee_denominator - fee) / fee_denominator

module _ (fee amount over under : ℕ) (small : fee ≤ fee_denominator) (fits : Fits 112 amount)
    (over_fits : Fits 112 over) (under_pos : 0 < under) where
  top : amount * over ≤ (2 ^ 112 - 1) * (2 ^ 112 - 1)
  top = mul_bound amount over (2 ^ 112 - 1) (2 ^ 112 - 1) (omega arith) (omega arith)

  quotient : amount * over / under ≤ (2 ^ 112 - 1) * (2 ^ 112 - 1)
  quotient = omega (arith, top, div_bounds (amount * over) under under_pos)

  net :
      amount * over / under * (fee_denominator - fee)
      ≤ (2 ^ 112 - 1) * (2 ^ 112 - 1) * fee_denominator
  net =
      mul_bound (amount * over / under) (fee_denominator - fee) ((2 ^ 112 - 1) * (2 ^ 112 - 1))
        fee_denominator quotient (omega arith)

  converted-eq : converted fee amount over under ≡ ok (exact fee amount over under)
  unfolding converted
  converted-eq =
      rw (Uint.mul-eq 256 amount over (omega (arith, top))) rw
        (Uint.div-eq (amount * over) under under_pos) rw
        (Uint.sub-eq 128 fee_denominator fee small (omega arith)) rw
        (Uint.mul-eq 256 (amount * over / under) (fee_denominator - fee) (omega (arith, net)))
        (Uint.div-eq (amount * over / under * (fee_denominator - fee)) fee_denominator
          (omega arith))

  -- No more than the reserves' ratio gives.
  exact-ratio : exact fee amount over under * under ≤ amount * over
  exact-ratio =
      let q = amount * over / under in
      let capped : exact fee amount over under ≤ q = omega (
        arith,
        div_bounds (q * (fee_denominator - fee)) fee_denominator (omega arith),
        mul_bound q (fee_denominator - fee) q fee_denominator (omega arith) (omega arith),
      ) in
      omega (
        arith,
        mul_bound (exact fee amount over under) under q under capped (omega arith),
        div_bounds (amount * over) under under_pos,
      )

  exact_zero : amount ≡ 0 → exact fee amount over under ≡ 0
  exact_zero e =
      let none_over : amount * over ≤ 0 * over =
        mul_bound amount over 0 over (omega (arith, e)) (omega arith) in
      let none_left : exact fee amount over under * under ≤ 0 * under =
        omega (arith, exact-ratio) in
      omega (arith, mul-cancel (exact fee amount over under) 0 under under_pos none_left)

module _ (p : Erc4626Standard) (fund : Funded p) where
  redeem-eq :
      (n : ℕ)
      → Fits 112 n
      → calculate_output p p.vault_token n
        ≡ ok (exact p.withdraw_fee n p.asset_reserve p.vault_reserve)
  unfolding calculate_output terms
  redeem-eq n fits = elim (Bool-cases (n == 0)) [
    | inl z ↦
        rw (==_refl p.vault_token, z)
          (ap ok (
            sym (
              exact_zero p.withdraw_fee n p.asset_reserve p.vault_reserve fund.withdraw_small fits
                fund.asset_fits fund.vault_pos (zero_test→eq n z))))
    | inr pos ↦
        rw (==_refl p.vault_token, pos, pos→not_zero p.vault_reserve fund.vault_pos)
          (converted-eq p.withdraw_fee n p.asset_reserve p.vault_reserve fund.withdraw_small fits
            fund.asset_fits fund.vault_pos)
  ]

  mint-eq :
      (n : ℕ)
      → Fits 112 n
      → calculate_output p p.asset_token n
        ≡ ok (exact p.deposit_fee n p.vault_reserve p.asset_reserve)
  unfolding calculate_output terms
  mint-eq n fits = elim (Bool-cases (n == 0)) [
    | inl z ↦
        rw (==_false p.asset_token p.vault_token fund.distinct, z)
          (ap ok (
            sym (
              exact_zero p.deposit_fee n p.vault_reserve p.asset_reserve fund.deposit_small fits
                fund.vault_fits fund.asset_pos (zero_test→eq n z))))
    | inr pos ↦
        rw
          (
            ==_false p.asset_token p.vault_token fund.distinct,
            pos,
            pos→not_zero p.vault_reserve fund.vault_pos,
          )
          (converted-eq p.deposit_fee n p.vault_reserve p.asset_reserve fund.deposit_small fits
            fund.vault_fits fund.asset_pos)
  ]

  input-eq :
      (n : ℕ)
      → Fits 112 n
      → 0 < n
      → calculate_input p p.vault_token n
        ≡ ok (exact p.withdraw_fee n p.vault_reserve p.asset_reserve)
  unfolding calculate_input terms
  input-eq n fits pos =
      rw (==_refl p.vault_token, pos→not_zero n pos, pos→not_zero p.asset_reserve fund.asset_pos)
        (converted-eq p.withdraw_fee n p.vault_reserve p.asset_reserve fund.withdraw_small fits
          fund.vault_fits fund.asset_pos)

-- The shares that a deposit is quoted, in unbounded numbers.
abbrev pub shares_for : Erc4626Standard → ℕ → ℕ
shares_for p assets = exact p.deposit_fee assets p.vault_reserve p.asset_reserve

-- In a funded vault, for assets of 112 bits whose shares have 112 bits, quoting the deposit
-- succeeds with these shares, and quoting their redemption succeeds with no more assets than were
-- put in.
pub there_and_back :
    (p : Erc4626Standard)
    → Funded p
    → (assets : ℕ) → Fits 112 assets
    → Fits 112 (shares_for p assets)
    → (calculate_output p p.asset_token assets ≡ ok (shares_for p assets))
      × Returns (calculate_output p p.vault_token (shares_for p assets)) (λ back. back ≤ assets)
there_and_back p fund assets fits shares_fit =
    let s = shares_for p assets in
    let back = exact p.withdraw_fee s p.asset_reserve p.vault_reserve in
    let no_more : back * p.vault_reserve ≤ assets * p.vault_reserve = omega (
      arith,
      exact-ratio p.withdraw_fee s p.asset_reserve p.vault_reserve fund.withdraw_small shares_fit
          fund.asset_fits fund.vault_pos,
      exact-ratio p.deposit_fee assets p.vault_reserve p.asset_reserve fund.deposit_small fits
          fund.vault_fits fund.asset_pos,
    ) in
    (
      mint-eq p fund assets fits,
      (
        back,
        redeem-eq p fund s shares_fit,
        mul-cancel back assets p.vault_reserve fund.vault_pos no_more,
      ),
    )

squeeze : (w i o v a : ℕ) → 0 < w → v < a → i * a ≤ w * v → o * a ≤ i * v → o < w
squeeze w i o v a pos less hi ho = elim (dec_le w o) [
  | yes h ↦
      let first : w * a * a ≤ i * v * a =
        mul_bound (w * a) a (i * v) a (omega (arith, mul_bound w a o a h (omega arith), ho))
          (omega arith) in
      let second : i * a * v ≤ w * v * v = mul_bound (i * a) v (w * v) v hi (omega arith) in
      let third : w * (suc v * suc v) ≤ w * (a * a) =
        mul_bound w (suc v * suc v) w (a * a) (omega arith)
          (mul_bound (suc v) (suc v) a a less less) in
      absurd (grind arith)
  | no h ↦ omega arith
]

-- In a funded vault with more assets than shares, the input quoted for a positive number of shares
-- of 112 bits is quoted, as a deposit, fewer shares than were asked for.
pub input_underquotes :
    (p : Erc4626Standard)
    → Funded p
    → (wanted : ℕ) → Fits 112 wanted
    → 0 < wanted
    → p.vault_reserve < p.asset_reserve
    → Returns
        (calculate_input p p.vault_token wanted)
        (λ paid. Returns (calculate_output p p.asset_token paid) (λ shares. shares < wanted))
input_underquotes p fund wanted fits pos less =
    let paid = exact p.withdraw_fee wanted p.vault_reserve p.asset_reserve in
    let ratio =
      exact-ratio p.withdraw_fee wanted p.vault_reserve p.asset_reserve fund.withdraw_small fits
        fund.vault_fits fund.asset_pos in
    let small : paid * p.asset_reserve ≤ wanted * p.asset_reserve = omega (
      arith,
      ratio,
      mul_bound wanted p.vault_reserve wanted p.asset_reserve (omega arith) (omega arith),
    ) in
    let paid_fits : Fits 112 paid =
      omega (arith, mul-cancel paid wanted p.asset_reserve fund.asset_pos small, fits) in
    let shares = exact p.deposit_fee paid p.vault_reserve p.asset_reserve in
    (
      paid,
      input-eq p fund wanted fits pos,
      (
        shares,
        mint-eq p fund paid paid_fits,
        squeeze wanted paid shares p.vault_reserve p.asset_reserve pos less ratio (
            exact-ratio p.deposit_fee paid p.vault_reserve p.asset_reserve fund.deposit_small
              paid_fits fund.vault_fits fund.asset_pos),
      ),
    )
