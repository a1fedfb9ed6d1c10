-- ===== src/Lb/Events/Decoding.antt =====
-- Packed amounts and `decode_amounts` of src/lb/math.rs.
use evm_dex_pool.Base.{
  ℕ, zero, suc, ◌+◌, ◌*◌, ◌/◌, ◌%◌, ◌≤◌, ◌<◌, ◌≡◌, refl, ap, List, [], ◌∷◌, ◌++◌, arith, length,
  take, drop, ◌∙◌, length-append,
}
use evm_dex_pool.Uint
use evm_dex_pool.Uint.{Fits}
use evm_dex_pool.Lb.Math.{decode_amounts}

abbrev AreBytes : List ℕ → Type 0
AreBytes [] = Unit
AreBytes (b ∷ bs) = (b < 256) × AreBytes bs

take-AreBytes : (n : ℕ) (bs : List ℕ) → AreBytes bs → AreBytes (take n bs)
take-AreBytes zero bs h = tt
take-AreBytes (suc n) [] h = tt
take-AreBytes (suc n) (b ∷ bs) h = (h.0, take-AreBytes n bs h.1)

drop-AreBytes : (n : ℕ) (bs : List ℕ) → AreBytes bs → AreBytes (drop n bs)
drop-AreBytes zero bs h = h
drop-AreBytes (suc n) [] h = tt
drop-AreBytes (suc n) (b ∷ bs) h = drop-AreBytes n bs h.1

length-take-le : (n : ℕ) (bs : List ℕ) → length (take n bs) ≤ n
length-take-le zero bs = omega arith
length-take-le (suc n) [] = omega arith
length-take-le (suc n) (b ∷ bs) = omega (arith, length-take-le n bs)

-- The bound that `n` more bytes make of a bound.
scaled : ℕ → ℕ → ℕ
scaled zero bound = bound
scaled (suc n) bound = scaled n (bound * 256)

scaled-ge : (n bound : ℕ) → bound ≤ scaled n bound
unfolding scaled
scaled-ge zero bound = omega arith
scaled-ge (suc n) bound = omega (arith, scaled-ge n (bound * 256))

from_be-lt :
    (n acc bound : ℕ) (bs : List ℕ)
    → length bs ≤ n
    → AreBytes bs
    → acc < bound
    → Uint.from_be acc bs < scaled n bound
unfolding Uint.from_be scaled
from_be-lt n acc bound [] l h k = omega (arith, scaled-ge n bound)
from_be-lt zero acc bound (b ∷ bs) l h k = absurd (omega arith)
from_be-lt (suc n) acc bound (b ∷ bs) l h k =
    from_be-lt n (acc * 256 + b) (bound * 256) bs (omega arith) h.1 (omega (arith, h.0))

half-Fits : (bs : List ℕ) → AreBytes bs → Fits 128 (Uint.from_be_bytes (take 16 bs))
unfolding Uint.from_be_bytes scaled
half-Fits bs h =
    from_be-lt 16 0 1 (take 16 bs) (length-take-le 16 bs) (take-AreBytes 16 bs h) (omega arith)

-- Both amounts are `u128`s.
decode_amounts-Fits :
    (bs : List ℕ) → AreBytes bs → Fits 128 (decode_amounts bs).0 × Fits 128 (decode_amounts bs).1
unfolding decode_amounts
decode_amounts-Fits bs h = (half-Fits (drop 16 bs) (drop-AreBytes 16 bs h), half-Fits bs h)

scaled_div : (n bound x : ℕ) → x < scaled n (bound * 256) → x / 256 < scaled n bound
unfolding scaled
scaled_div zero bound x h = omega arith
scaled_div (suc n) bound x h = scaled_div n (bound * 256) x h

-- The `n` big-endian bytes of a number.
unfoldable pub be_bytes : ℕ → ℕ → List ℕ
be_bytes zero x = []
be_bytes (suc n) x = be_bytes n (x / 256) ++ x % 256 ∷ []

length-be_bytes : (n x : ℕ) → length (be_bytes n x) ≡ n
unfolding be_bytes
length-be_bytes zero x = refl
length-be_bytes (suc n) x =
    omega (arith, length-append (be_bytes n (x / 256)) (x % 256 ∷ []), length-be_bytes n (x / 256))

from_be-append :
    (acc b : ℕ) (bs : List ℕ) → Uint.from_be acc (bs ++ b ∷ []) ≡ Uint.from_be acc bs * 256 + b
unfolding Uint.from_be
from_be-append acc b [] = refl
from_be-append acc b (c ∷ bs) = from_be-append (acc * 256 + c) b bs

from_be-be_bytes : (n x : ℕ) → x < scaled n 1 → Uint.from_be 0 (be_bytes n x) ≡ x
unfolding be_bytes scaled Uint.from_be
from_be-be_bytes zero x h = omega arith
from_be-be_bytes (suc n) x h =
    from_be-append 0 (x % 256) (be_bytes n (x / 256))
    ∙ omega (arith, from_be-be_bytes n (x / 256) (scaled_div n 1 x h))

take-append {ℓ} : {A : Type ℓ} (n : ℕ) (xs ys : List A) → length xs ≡ n → take n (xs ++ ys) ≡ xs
take-append zero [] ys h = refl
take-append zero (x ∷ xs) ys h = absurd (omega arith)
take-append (suc n) [] ys h = absurd (omega arith)
take-append (suc n) (x ∷ xs) ys h = ap (λ t. x ∷ t) (take-append n xs ys (omega arith))

drop-append {ℓ} : {A : Type ℓ} (n : ℕ) (xs ys : List A) → length xs ≡ n → drop n (xs ++ ys) ≡ ys
drop-append zero [] ys h = refl
drop-append zero (x ∷ xs) ys h = absurd (omega arith)
drop-append (suc n) [] ys h = absurd (omega arith)
drop-append (suc n) (x ∷ xs) ys h = drop-append n xs ys (omega arith)

take_all {ℓ} : {A : Type ℓ} (n : ℕ) (xs : List A) → length xs ≡ n → take n xs ≡ xs
take_all zero [] h = refl
take_all zero (x ∷ xs) h = absurd (omega arith)
take_all (suc n) [] h = absurd (omega arith)
take_all (suc n) (x ∷ xs) h = ap (λ t. x ∷ t) (take_all n xs (omega arith))

-- The packing of `PackedUint128Math`: Y in the high half, X in the low half.
abbrev pub pack : ℕ → ℕ → List ℕ
pack x y = be_bytes 16 y ++ be_bytes 16 x

-- Decoding the packing of two 128-bit amounts gives them back.
pub decode_amounts-pack : (x y : ℕ) → Fits 128 x → Fits 128 y → decode_amounts (pack x y) ≡ (x, y)
unfolding decode_amounts Uint.from_be_bytes scaled
decode_amounts-pack x y hx hy =
    let high = length-be_bytes 16 y in
    rw (
      take-append 16 (be_bytes 16 y) (be_bytes 16 x) high,
      drop-append 16 (be_bytes 16 y) (be_bytes 16 x) high,
      take_all 16 (be_bytes 16 x) (length-be_bytes 16 x),
      from_be-be_bytes 16 y hy,
      from_be-be_bytes 16 x hx,
    )
