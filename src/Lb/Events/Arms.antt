-- ===== src/Lb/Events/Arms.antt =====
-- The arms of `LBPool::apply_log`, one function each (src/lb/pool.rs).
use evm_dex_pool.Base.{
  ℕ, ◌≡◌, refl, ◌-◌, ◌^◌, Bool, ltb, ◌==◌, if◌then◌else◌, List, [], ◌∷◌, Option, none, some,
  Outcome, ok, err, Error, fees_exceed_total, credit_overflow, id_too_large, amount_too_large,
  accumulator_too_large,
}
use evm_dex_pool.Uint
use evm_dex_pool.BTreeMap.{BTreeMap}
use evm_dex_pool.Lb.Math.{decode_amounts}
use evm_dex_pool.Lb.Pool.{
  LbPool, FeeParameters, Bin, bin_at, set_bin, update_references, compute_volatility_accumulator,
}

-- The fields of the events that the handlers read; packed amounts are 32 bytes.
pub record SwapData : Type 0 where
  pub id : ℕ
  pub amounts_in : List ℕ
  pub amounts_out : List ℕ
  pub volatility_accumulator : ℕ

pub record BinsData : Type 0 where
  pub ids : List ℕ
  pub amounts : List (List ℕ)

pub record FlashLoanData : Type 0 where
  pub active_id : ℕ
  pub total_fees : List ℕ
  pub protocol_fees : List ℕ

pub record SwapV20 : Type 0 where
  pub id : ℕ
  pub swap_for_y : Bool
  pub amount_in : ℕ
  pub amount_out : ℕ
  pub volatility_accumulated : ℕ

pub record BinV20 : Type 0 where
  pub id : ℕ
  pub amount_x : ℕ
  pub amount_y : ℕ

-- The pool that a handler leaves behind, and its result.
abbrev pub Applied : Type 0
Applied = LbPool × Outcome (Unit {0})

-- `o.ok_or(e)?`: on failure the handler stops with the pool as it stands.
unfoldable pub require {ℓ} : {A : Type ℓ} → Option A → Error → LbPool → (A → Applied) → Applied
require none e p k = (p, err e)
require (some a) e p k = k a

-- What holds when the handler stops and when it goes on holds of the handler.
pub require_rule {ℓ κ} :
    {A : Type ℓ} (P : Applied → Type κ) (o : Option A) (e : Error) (p : LbPool) (k : A → Applied)
    → P (p, err e)
    → ((a : A) → o ≡ some a → P (k a))
    → P (require o e p k)
unfolding require
require_rule P none e p k stop go = stop
require_rule P (some a) e p k stop go = go a refl

-- Zero counts as no timestamp.
unfoldable pub log_timestamp : Option ℕ → ℕ → ℕ
log_timestamp none now = now
log_timestamp (some t) now = if t == 0 then now else t

-- `self.update_bin(id, f(rx, ry))` at the bin's present reserves.
unfoldable pub change_bin : BTreeMap Bin → ℕ → (ℕ → ℕ) → (ℕ → ℕ) → BTreeMap Bin
change_bin bins id f g = set_bin bins id (f (bin_at bins id).0) (g (bin_at bins id).1)

-- `rx.saturating_add(i).saturating_sub(o)`
unfoldable pub moved : ℕ → ℕ → ℕ → ℕ
moved i o r = Uint.saturating_add 128 r i - o

-- The references are taken from the pool before the swap.
unfoldable pub swap : LbPool → SwapData → ℕ → ℕ → Applied
swap p d ts now =
    let (in_x, in_y) = decode_amounts d.amounts_in in
    let (out_x, out_y) = decode_amounts d.amounts_out in
    let (vol_ref, id_ref) = update_references p ts in
    (
      record p {
        bins = change_bin p.bins d.id (moved in_x out_x) (moved in_y out_y);
        volatility_reference = vol_ref;
        id_reference = id_ref;
        active_id = d.id;
        volatility_accumulator = d.volatility_accumulator;
        time_of_last_update = ts;
        last_updated = now;
      },
      ok tt,
    )

unfoldable pub composition_fees : LbPool → ℕ → ℕ → Applied
composition_fees p id ts =
    let (vol_ref, id_ref) = update_references p ts in
    (
      record p {
        volatility_reference = vol_ref;
        id_reference = id_ref;
        volatility_accumulator = compute_volatility_accumulator p id vol_ref id_ref;
        time_of_last_update = ts;
      },
      ok tt,
    )

-- `(*id_u256).try_into().unwrap_or(u32::MAX)`
unfoldable pub clamp_id : ℕ → ℕ
clamp_id id = if ltb id (2 ^ 32) then id else 2 ^ 32 - 1

unfoldable pub add_to : ℕ → ℕ → ℕ
add_to a r = Uint.saturating_add 128 r a

unfoldable pub take_off : ℕ → ℕ → ℕ
take_off a r = r - a

-- The loop over the ids; an id without amounts is skipped.
unfoldable pub change_bins : (ℕ → ℕ → ℕ) → List ℕ → List (List ℕ) → BTreeMap Bin → BTreeMap Bin
change_bins f [] amounts bins = bins
change_bins f (id ∷ ids) [] bins = bins
change_bins f (id ∷ ids) (a ∷ amounts) bins =
    let (x, y) = decode_amounts a in
    change_bins f ids amounts (change_bin bins (clamp_id id) (f x) (f y))

unfoldable pub deposited_to_bins : LbPool → BinsData → ℕ → Applied
deposited_to_bins p d now =
    (record p { bins = change_bins add_to d.ids d.amounts p.bins; last_updated = now }, ok tt)

unfoldable pub withdrawn_from_bins : LbPool → BinsData → ℕ → Applied
withdrawn_from_bins p d now =
    (record p { bins = change_bins take_off d.ids d.amounts p.bins; last_updated = now }, ok tt)

unfoldable pub static_fee_parameters_set : LbPool → FeeParameters → Applied
static_fee_parameters_set p d = (record p { fees = d }, ok tt)

-- The fees less the protocol's share are credited; a log that does not add up is rejected.
unfoldable pub flash_loan : LbPool → FlashLoanData → ℕ → Applied
flash_loan p d now =
    let (total_x, total_y) = decode_amounts d.total_fees in
    let (protocol_x, protocol_y) = decode_amounts d.protocol_fees in
    let (rx, ry) = bin_at p.bins d.active_id in
    require (Uint.checked_sub total_x protocol_x) fees_exceed_total p λ net_x.
      require (Uint.checked_sub total_y protocol_y) fees_exceed_total p λ net_y.
        require (Uint.checked_add 128 rx net_x) credit_overflow p λ new_rx.
          require (Uint.checked_add 128 ry net_y) credit_overflow p λ new_ry. (
            record p { bins = set_bin p.bins d.active_id new_rx new_ry; last_updated = now },
            ok tt,
          )

-- The narrowing of the accumulator comes last, when the rest of the pool is already written.
unfoldable pub swap_v20 : LbPool → SwapV20 → ℕ → ℕ → Applied
swap_v20 p d ts now = require (Uint.try_into 32 d.id) id_too_large p λ id.
    require (Uint.try_into 128 d.amount_in) amount_too_large p λ amount_in.
      require (Uint.try_into 128 d.amount_out) amount_too_large p λ amount_out.
        let (vol_ref, id_ref) = update_references p ts in
        let q = record p {
          bins =
              if d.swap_for_y
              then change_bin p.bins id (add_to amount_in) (take_off amount_out)
              else change_bin p.bins id (take_off amount_out) (add_to amount_in);
          volatility_reference = vol_ref;
          id_reference = id_ref;
          active_id = id;
        } in
        require (Uint.try_into 32 d.volatility_accumulated) accumulator_too_large q λ acc. (
          record q { volatility_accumulator = acc; time_of_last_update = ts; last_updated = now },
          ok tt,
        )

unfoldable pub deposited_to_bin_v20 : LbPool → BinV20 → ℕ → Applied
deposited_to_bin_v20 p d ts = require (Uint.try_into 32 d.id) id_too_large p λ id.
    require (Uint.try_into 128 d.amount_x) amount_too_large p λ add_x.
      require (Uint.try_into 128 d.amount_y) amount_too_large p λ add_y. (
        record p { bins = change_bin p.bins id (add_to add_x) (add_to add_y); last_updated = ts },
        ok tt,
      )

unfoldable pub withdrawn_from_bin_v20 : LbPool → BinV20 → ℕ → Applied
withdrawn_from_bin_v20 p d ts = require (Uint.try_into 32 d.id) id_too_large p λ id.
    require (Uint.try_into 128 d.amount_x) amount_too_large p λ sub_x.
      require (Uint.try_into 128 d.amount_y) amount_too_large p λ sub_y. (
        record p {
          bins = change_bin p.bins id (take_off sub_x) (take_off sub_y);
          last_updated = ts;
        },
        ok tt,
      )
