-- ===== src/Netip/Bytes.antt =====
-- `Addr.AsSlice`: an address as bytes in network order, and what masks of leading ones do to them.
use Prim.Native.Nat.{bit_and, min}
use native.Mathlib.Nat.{div-div-eq-div-mul, pow-suc}
use native.Mathlib.Numerals.{towards_suc}
use egresswall.Common.{
  ℕ, zero, suc, ◌+◌, ◌-◌, ◌*◌, ◌/◌, ◌%◌, ◌^◌, ◌≤◌, ◌<◌, Bool, true, ◌&&◌, List, [], ◌∷◌, ◌++◌, ◌≡◌,
  inl, inr, refl, ap, sym, ◌∙◌, arith, length, length-append, leb, ◌==◌, Bool-cases,
}
use egresswall.Netip.{Addr, invalid, v4, v6}

-- The last `n` bytes of a number, the most significant first.
unfoldable pub bytes : ℕ → ℕ → List ℕ
bytes zero a = []
bytes (suc n) a = bytes n (a / 256) ++ (a % 256 ∷ [])

unfoldable pub as_slice : Addr → List ℕ
unfolding bytes
as_slice invalid = []
as_slice (v4 a) = bytes 4 a
as_slice (v6 a z) = bytes 16 a

-- The kernel's bitwise expression with no exclusive or: byte by byte.
unfoldable pub and_bytes : List ℕ → List ℕ → List ℕ
and_bytes (x ∷ xs) (m ∷ ms) = bit_and x m ∷ and_bytes xs ms
and_bytes _ _ = []

-- A byte of `k` leading ones, and `n` bytes of `bits` leading ones.
abbrev pub mask_byte : ℕ → ℕ
mask_byte k = 256 - 2 ^ (8 - k)

unfoldable pub masks : ℕ → ℕ → List ℕ
masks zero bits = []
masks (suc n) bits = masks n bits ++ (mask_byte (min 8 (bits - 8 * n)) ∷ [])

unfoldable pub all_below : ℕ → (ℕ → Bool) → Bool
all_below zero p = true
all_below (suc n) p = p n && all_below n p

pub all_below_lem : (n : ℕ) (p : ℕ → Bool) (x : ℕ) → all_below n p ≡ true → x < n → p x ≡ true
unfolding all_below
all_below_lem zero p x h lt = absurd (omega arith)
all_below_lem (suc n) p x h lt = ground (arith, all_below_lem n p x)

mask_table :
    all_below 9 (λ k. all_below 256 (λ x. bit_and x (mask_byte k) == x / 2 ^ (8 - k) * 2 ^ (8 - k)))
    ≡ true
unfolding all_below
mask_table = refl

bit_and-mask_byte :
    (k x : ℕ) → k ≤ 8 → x < 256 → bit_and x (mask_byte k) ≡ x / 2 ^ (8 - k) * 2 ^ (8 - k)
bit_and-mask_byte k x hk hx = ground (
  arith,
  all_below_lem 9
      (λ j. all_below 256 (λ y. bit_and y (mask_byte j) == y / 2 ^ (8 - j) * 2 ^ (8 - j))) k
      mask_table,
  all_below_lem 256 (λ y. bit_and y (mask_byte k) == y / 2 ^ (8 - k) * 2 ^ (8 - k)) x,
)

pub length-bytes : (n a : ℕ) → length (bytes n a) ≡ n
unfolding bytes
length-bytes zero a = refl
length-bytes (suc n) a =
    omega (arith, length-append (bytes n (a / 256)) (a % 256 ∷ []), length-bytes n (a / 256))

and_bytes-append :
    (xs ms : List ℕ) (x m : ℕ)
    → length xs ≡ length ms
    → and_bytes (xs ++ (x ∷ [])) (ms ++ (m ∷ [])) ≡ and_bytes xs ms ++ (bit_and x m ∷ [])
unfolding and_bytes
and_bytes-append [] [] x m h = refl
and_bytes-append [] (n ∷ ms) x m h = ground arith
and_bytes-append (y ∷ xs) [] x m h = ground arith
and_bytes-append (y ∷ xs) (n ∷ ms) x m h =
    ap (λ l. bit_and y n ∷ l) (and_bytes-append xs ms x m (omega arith))

length-masks : (n bits : ℕ) → length (masks n bits) ≡ n
unfolding masks
length-masks zero bits = refl
length-masks (suc n) bits =
    let last : List ℕ = mask_byte (min 8 (bits - 8 * n)) ∷ [] in
    omega (arith, length-append (masks n bits) last, length-masks n bits)

-- Clearing fewer than eight bits touches the last byte only.
clear_last :
    (e a : ℕ)
    → e < 8
    → (a / 2 ^ e * 2 ^ e / 256 ≡ a / 256) × (a / 2 ^ e * 2 ^ e % 256 ≡ a % 256 / 2 ^ e * 2 ^ e)
clear_last zero a h = omega arith
clear_last (suc zero) a h = omega arith
clear_last (suc (suc zero)) a h = omega arith
clear_last (suc (suc (suc zero))) a h = omega arith
clear_last (suc (suc (suc (suc zero)))) a h = omega arith
clear_last (suc (suc (suc (suc (suc zero))))) a h = omega arith
clear_last (suc (suc (suc (suc (suc (suc zero)))))) a h = omega arith
clear_last (suc (suc (suc (suc (suc (suc (suc zero))))))) a h = omega arith
clear_last (suc (suc (suc (suc (suc (suc (suc (suc e)))))))) a h = absurd (omega arith)

pow_add8 : (e : ℕ) → 2 ^ (e + 8) ≡ 256 * 2 ^ e
pow_add8 e = simp towards_suc (omega arith)

-- Clearing eight bits or more clears the last byte.
clear_more :
    (e a : ℕ)
    → (a / 2 ^ (e + 8) * 2 ^ (e + 8) / 256 ≡ a / 256 / 2 ^ e * 2 ^ e)
      × (a / 2 ^ (e + 8) * 2 ^ (e + 8) % 256 ≡ 0)
clear_more e a =
    let whole : a / 2 ^ (e + 8) * 2 ^ (e + 8) ≡ a / 256 / 2 ^ e * 2 ^ e * 256 =
      rw (pow_add8 e, ← div-div-eq-div-mul a 256 (2 ^ e)) (grind arith) in
    rw whole (omega arith, omega arith)

snoc_eq : (n p q x y : ℕ) → p ≡ q → x ≡ y → bytes n p ++ (x ∷ []) ≡ bytes n q ++ (y ∷ [])
snoc_eq n p q x y h k = cc

-- The last byte of a mask that ends before it, and of one that reaches into it.
mask_before :
    (n bits a : ℕ)
    → bits ≤ 8 * n
    → bit_and (a % 256) (mask_byte (min 8 (bits - 8 * n)))
      ≡ a / 2 ^ (8 * suc n - bits) * 2 ^ (8 * suc n - bits) % 256
mask_before n bits a h =
    let none_left : bits - 8 * n ≡ 0 = omega arith in
    let far : 8 * suc n - bits ≡ (8 * n - bits) + 8 = omega arith in
    rw (none_left, far)
      (bit_and-mask_byte 0 (a % 256) (omega arith) (omega arith)
        ∙ omega (arith, (clear_more (8 * n - bits) a).1))

mask_within :
    (n bits a : ℕ)
    → 8 * n < bits
    → bit_and (a % 256) (mask_byte (min 8 (bits - 8 * n)))
      ≡ a / 2 ^ (8 * suc n - bits) * 2 ^ (8 * suc n - bits) % 256
mask_within n bits a h =
    let k : ℕ = min 8 (bits - 8 * n) in
    let e : 8 * suc n - bits ≡ 8 - k = omega arith in
    rw e (
      bit_and-mask_byte k (a % 256) (omega arith) (omega arith)
      ∙ sym (clear_last (8 - k) a (omega arith)).1)

front_before :
    (n bits a : ℕ)
    → bits ≤ 8 * n
    → a / 256 / 2 ^ (8 * n - bits) * 2 ^ (8 * n - bits)
      ≡ a / 2 ^ (8 * suc n - bits) * 2 ^ (8 * suc n - bits) / 256
front_before n bits a h =
    let far : 8 * suc n - bits ≡ (8 * n - bits) + 8 = omega arith in
    rw far (sym (clear_more (8 * n - bits) a).0)

front_within :
    (n bits a : ℕ)
    → 8 * n < bits
    → a / 256 / 2 ^ (8 * n - bits) * 2 ^ (8 * n - bits)
      ≡ a / 2 ^ (8 * suc n - bits) * 2 ^ (8 * suc n - bits) / 256
front_within n bits a h =
    let full : 8 * n - bits ≡ 0 = omega arith in
    rw full (omega (arith, (clear_last (8 * suc n - bits) a (omega arith)).0))

-- What the mask leaves is the bytes of the number with the bits behind the first `bits` cleared.
pub and_bytes-masks :
    (n bits a : ℕ)
    → and_bytes (bytes n a) (masks n bits) ≡ bytes n (a / 2 ^ (8 * n - bits) * 2 ^ (8 * n - bits))
unfolding bytes masks
and_bytes-masks zero bits a = unfold and_bytes in refl
and_bytes-masks (suc n) bits a =
    let here : ℕ = mask_byte (min 8 (bits - 8 * n)) in
    let e : ℕ = 8 * suc n - bits in
    and_bytes-append (bytes n (a / 256)) (masks n bits) (a % 256) here
      (length-bytes n (a / 256) ∙ sym (length-masks n bits))
    ∙ ap (λ l. l ++ (bit_and (a % 256) here ∷ [])) (and_bytes-masks n bits (a / 256))
    ∙ elim (Bool-cases (leb bits (8 * n))) [
      | inl few ↦
          snoc_eq n _ _ _ _ (front_before n bits a (ground arith))
            (mask_before n bits a (ground arith))
      | inr more ↦
          snoc_eq n _ _ _ _ (front_within n bits a (ground arith))
            (mask_within n bits a (ground arith))
    ]

snoc_injective :
    (xs ys : List ℕ) (x y : ℕ)
    → length xs ≡ length ys
    → xs ++ (x ∷ []) ≡ ys ++ (y ∷ [])
    → (xs ≡ ys) × (x ≡ y)
snoc_injective [] [] x y len h = ground arith
snoc_injective [] (z ∷ ys) x y len h = absurd (omega arith)
snoc_injective (z ∷ xs) [] x y len h = absurd (omega arith)
snoc_injective (z ∷ xs) (w ∷ ys) x y len h = ground (arith, snoc_injective xs ys x y)

pub bytes_injective : (n a b : ℕ) → a < 256 ^ n → b < 256 ^ n → bytes n a ≡ bytes n b → a ≡ b
unfolding bytes
bytes_injective zero a b ha hb h = omega arith
bytes_injective (suc n) a b ha hb h =
    let (front, last) =
      snoc_injective (bytes n (a / 256)) (bytes n (b / 256)) (a % 256) (b % 256)
        (length-bytes n (a / 256) ∙ sym (length-bytes n (b / 256))) h in
    let quotients : a / 256 ≡ b / 256 =
      bytes_injective n (a / 256) (b / 256) (omega (arith, pow-suc 256 n))
        (omega (arith, pow-suc 256 n)) front in
    omega arith
