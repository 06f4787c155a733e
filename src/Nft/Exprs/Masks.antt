-- ===== src/Nft/Exprs/Masks.antt =====
-- internal/nft/apply_linux.go, `atomExprs`: the mask that the loop makes, and a masked comparison against
-- netip's `Contains`.
use native.Mathlib.Nat.{div-mul-le_self, mul-div_left, one-le-pow}
use egresswall.Common.{
  ℕ, ◌-◌, ◌*◌, ◌/◌, ◌^◌, ◌≤◌, ◌<◌, Bool, true, ◌≡◌, ◌↔◌, refl, ap, sym, ◌∙◌, arith,
}
use egresswall.Text.{text_eq, text_eq_iff}
use egresswall.Netip.Bytes.{
  bytes, masks, all_below, all_below_lem, and_bytes, and_bytes-masks, bytes_injective,
}
use egresswall.Nft.Exprs.{mask_of}

abbrev agrees : ℕ → ℕ → Bool
agrees size bits = text_eq (mask_of size bits) (masks size bits)

mask_table4 : all_below 33 (agrees 4) ≡ true
unfolding all_below mask_of masks
mask_table4 = refl

mask_table16 : all_below 129 (agrees 16) ≡ true
unfolding all_below mask_of masks
mask_table16 = refl

pub mask_of4 : (bits : ℕ) → bits ≤ 32 → mask_of 4 bits ≡ masks 4 bits
mask_of4 bits h =
    (text_eq_iff (mask_of 4 bits) (masks 4 bits)).0
      (all_below_lem 33 (agrees 4) bits mask_table4 (omega arith))

pub mask_of16 : (bits : ℕ) → bits ≤ 128 → mask_of 16 bits ≡ masks 16 bits
mask_of16 bits h =
    (text_eq_iff (mask_of 16 bits) (masks 16 bits)).0
      (all_below_lem 129 (agrees 16) bits mask_table16 (omega arith))

clear_lt : (w e a : ℕ) → a < w → a / 2 ^ e * 2 ^ e < w
clear_lt w e a h = omega (arith, div-mul-le_self a (2 ^ e))

clear_injective : (e a b : ℕ) → a / 2 ^ e * 2 ^ e ≡ b / 2 ^ e * 2 ^ e → a / 2 ^ e ≡ b / 2 ^ e
clear_injective e a b h =
    sym (mul-div_left (a / 2 ^ e) (one-le-pow e 2 (omega arith)))
    ∙ ap (λ n. n / 2 ^ e) h
    ∙ mul-div_left (b / 2 ^ e) (one-le-pow e 2 (omega arith))

-- Two numbers of `n` bytes agree under the mask exactly when their first `bits` bits do.
pub masked_iff :
    (n bits a b : ℕ)
    → a < 256 ^ n
    → b < 256 ^ n
    → (and_bytes (bytes n a) (masks n bits) ≡ bytes n (b / 2 ^ (8 * n - bits) * 2 ^ (8 * n - bits)))
      ↔ (a / 2 ^ (8 * n - bits) ≡ b / 2 ^ (8 * n - bits))
masked_iff n bits a b ha hb =
    let e : ℕ = 8 * n - bits in
    (
      λ h. clear_injective e a b (
          bytes_injective n _ _ (clear_lt _ e a ha) (clear_lt _ e b hb)
            (sym (and_bytes-masks n bits a) ∙ h)),
      λ h. and_bytes-masks n bits a ∙ ap (λ q. bytes n (q * 2 ^ e)) h,
    )
