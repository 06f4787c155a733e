-- ===== src/Nft/Exprs/Address.antt =====
-- internal/nft/apply_linux.go, `atomExprs`: the test of the address.
use egresswall.Common.{
  ℕ, ◌*◌, ◌/◌, ◌-◌, ◌^◌, ◌≤◌, ◌<◌, true, List, [], ◌∷◌, ◌++◌, Option, none, some, ◌≡◌, ◌⊎◌, inl,
  inr, refl, ap, sym, ◌∙◌, subst, arith, any, length, if◌then◌else◌, Bool-cases, ltb, ◌==◌, ok,
}
use egresswall.Text.{Text, text_eq}
use egresswall.Netip.{Addr, v4, v6, Prefix, contains, masked}
use egresswall.Netip.Bytes.{
  bytes, as_slice, and_bytes, masks, and_bytes-masks, length-bytes, bytes_injective,
}
use egresswall.Nft.Plan.{Family, ipv4, ipv6}
use egresswall.Nft.Kernel.{Flow, SetState, family_hits, address_hits}
use egresswall.Nft.Exprs.{
  network, cmp_eq, lookup, bitwise, load, Expr, Handle, CgroupStat, prefix_exprs, set_exprs,
  address_exprs, daddr_load, mask_of,
}
use egresswall.Nft.Exprs.Machine.{Traffic, run, at_start, Carries, OfFamily, SoundAddress}
use egresswall.Nft.Exprs.Masks.{mask_of4, mask_of16, masked_iff}
use egresswall.Nft.Exprs.Guards.{IsGuard, at_start_iff, IsGuard-eq, IsGuard-nothing}

compare_masked :
    (n bits a b : ℕ)
    → a < 256 ^ n
    → b < 256 ^ n
    → at_start
        (and_bytes (bytes n a) (masks n bits))
        (bytes n (b / 2 ^ (8 * n - bits) * 2 ^ (8 * n - bits)))
      ≡ (b / 2 ^ (8 * n - bits) == a / 2 ^ (8 * n - bits))
compare_masked n bits a b ha hb =
    let cleared : List ℕ = bytes n (b / 2 ^ (8 * n - bits) * 2 ^ (8 * n - bits)) in
    ground (
      arith,
      at_start_iff (and_bytes (bytes n a) (masks n bits)) cleared (
          ap (λ l. length l) (and_bytes-masks n bits a)
          ∙ length-bytes n _
          ∙ sym (length-bytes n _)),
      masked_iff n bits a b ha hb,
    )

compare_whole :
    (n bits a b : ℕ)
    → a < 256 ^ n
    → b < 256 ^ n
    → 8 * n ≤ bits
    → at_start (bytes n a) (bytes n (b / 2 ^ (8 * n - bits) * 2 ^ (8 * n - bits)))
      ≡ (b / 2 ^ (8 * n - bits) == a / 2 ^ (8 * n - bits))
compare_whole n bits a b ha hb h =
    let all : 8 * n - bits ≡ 0 = omega arith in
    let same : b / 1 * 1 ≡ b = omega arith in
    rw (all, same)
      (ground (
        arith,
        at_start_iff (bytes n a) (bytes n b) (length-bytes n a ∙ sym (length-bytes n b)),
        bytes_injective n a b ha hb,
        ap (bytes n),
      ))

-- Loading `n` bytes of the address, masking them where the prefix is short, and comparing.
masked-IsGuard :
    (t : Traffic) (at n bits a b : ℕ)
    → t.header network at n ≡ bytes n a
    → mask_of n bits ≡ masks n bits
    → a < 256 ^ n
    → b < 256 ^ n
    → IsGuard t
        (load network at n
          ∷ ((if ltb bits (n * 8) then bitwise (mask_of n bits) ∷ [] else [])
              ++ (cmp_eq (bytes n (b / 2 ^ (8 * n - bits) * 2 ^ (8 * n - bits))) ∷ [])))
        (b / 2 ^ (8 * n - bits) == a / 2 ^ (8 * n - bits))
unfolding run
masked-IsGuard t at n bits a b header mask ha hb es reg logged =
    elim (Bool-cases (ltb bits (n * 8))) [
      | inl short ↦ (
        and_bytes (bytes n a) (masks n bits),
        rw (short, header, mask, run) (rw (compare_masked n bits a b ha hb) refl),
      )
      | inr whole ↦ (
        bytes n a,
        rw (whole, header, run) (rw (compare_whole n bits a b ha hb (ground arith)) refl),
      )
    ]

abbrev prefix_of : Addr → ℕ → Prefix
prefix_of a bits = record { addr = a; bits = bits }

prefix4-IsGuard :
    (t : Traffic) (a b bits : ℕ)
    → t.header network 16 4 ≡ bytes 4 a
    → a < 2 ^ 32
    → b < 2 ^ 32
    → bits ≤ 32
    → IsGuard t
        (prefix_exprs ipv4 (prefix_of (v4 b) bits))
        (contains (prefix_of (v4 b) bits) (v4 a))
unfolding prefix_exprs contains masked as_slice daddr_load
prefix4-IsGuard t a b bits header ha hb hbits =
    masked-IsGuard t 16 4 bits a b header (mask_of4 bits hbits) ha hb

prefix6-IsGuard :
    (t : Traffic) (a b bits : ℕ)
    → t.header network 24 16 ≡ bytes 16 a
    → a < 2 ^ 128
    → b < 2 ^ 128
    → bits ≤ 128
    → IsGuard t
        (prefix_exprs ipv6 (prefix_of (v6 b []) bits))
        (contains (prefix_of (v6 b []) bits) (v6 a []))
unfolding prefix_exprs contains masked as_slice daddr_load
prefix6-IsGuard t a b bits header ha hb hbits =
    masked-IsGuard t 24 16 bits a b header (mask_of16 bits hbits) ha hb

prefix_is : (p : Prefix) (a : Addr) → p.addr ≡ a → p ≡ prefix_of a p.bits
prefix_is p a h = ap (λ x. prefix_of x p.bits) h

module _ (t : Traffic) (names : List Text) (sets : SetState) (stat : Text → CgroupStat) (f : Flow)
    (c : Carries names sets stat f t) where
  prefix-IsGuard :
      (g : Family) (p : Prefix)
      → OfFamily g p
      → family_hits g f.dst ≡ true
      → IsGuard t (prefix_exprs g p) (contains p f.dst)
  prefix-IsGuard g p (inl (b, g4, addr, hb, hbits)) fits = elim c.address [
    | inl (a, dst, ha, family, header) ↦
        rw (g4, prefix_is p (v4 b) addr, dst) (prefix4-IsGuard t a b p.bits header ha hb hbits)
    | inr (a, dst, ha, family, header) ↦ absurd (ground arith)
  ]
  prefix-IsGuard g p (inr (b, g6, addr, hb, hbits)) fits = elim c.address [
    | inl (a, dst, ha, family, header) ↦ absurd (ground arith)
    | inr (a, dst, ha, family, header) ↦
        rw (g6, prefix_is p (v6 b []) addr, dst) (prefix6-IsGuard t a b p.bits header ha hb hbits)
  ]

  -- Loading the address and looking it up.
  lookup-IsGuard :
      (g : Family) (set : Text)
      → (g ≡ ipv4) ⊎ (g ≡ ipv6)
      → family_hits g f.dst ≡ true
      → any (text_eq set) names ≡ true
      → IsGuard t (daddr_load g ∷ lookup set ∷ []) (sets set f.dst)
  unfolding run daddr_load as_slice
  lookup-IsGuard g set known fits there es reg logged = elim c.address [
    | inl (a, dst, ha, family, header) ↦ (
      bytes 4 a,
      (let g4 : g ≡ ipv4 = ground arith in
          let held : t.holds set (bytes 4 a) ≡ sets set f.dst =
            ap (λ d. t.holds set (as_slice d)) (sym dst) ∙ c.members set there in
          rw (g4, header, held) refl),
    )
    | inr (a, dst, ha, family, header) ↦ (
      bytes 16 a,
      (let g6 : g ≡ ipv6 = ground arith in
          let held : t.holds set (bytes 16 a) ≡ sets set f.dst =
            ap (λ d. t.holds set (as_slice d)) (sym dst) ∙ c.members set there in
          rw (g6, header, held) refl),
    )
  ]

  pub address-IsGuard :
      (h : Handle) (g : Family) (p : Option Prefix) (set : Text) (part : List Expr)
      → h.sets ≡ names
      → SoundAddress g p set
      → family_hits g f.dst ≡ true
      → address_exprs h g p set ≡ ok part
      → IsGuard t part (address_hits sets p set f.dst)
  unfolding address_exprs set_exprs
  address-IsGuard h g (some p) set part same sound fits made =
      IsGuard-eq t (prefix_exprs g p) part (contains p f.dst) (contains p f.dst) (ground arith) refl
        (prefix-IsGuard g p sound fits)
  address-IsGuard h g none [] part same sound fits made =
      IsGuard-eq t [] part true true (ground arith) refl (IsGuard-nothing t)
  address-IsGuard h g none (x ∷ set) part same sound fits made =
      IsGuard-eq t (daddr_load g ∷ lookup (x ∷ set) ∷ []) part (sets (x ∷ set) f.dst)
        (sets (x ∷ set) f.dst) (ground arith) refl
        (lookup-IsGuard g (x ∷ set) (ground arith) fits
          (subst (λ ns. any (text_eq (x ∷ set)) ns ≡ true) same (ground arith)))
