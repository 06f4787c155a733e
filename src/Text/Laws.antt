-- ===== src/Text/Laws.antt =====
-- The text tests against their meaning: a prefix or a suffix is there when the text splits so.
use egresswall.Common.{
  ℕ, ◌+◌, ◌-◌, true, List, inl, inr, ◌⊎◌, [], ◌∷◌, ◌++◌, ◌≡◌, refl, sym, ap, ◌∙◌, ◌↔◌, arith,
  length, length-append, take, drop, drop-length-append, take-append-drop,
}
use egresswall.Text.{Text, split, count_byte, text_eq, text_eq_iff, has_prefix, has_suffix}

abbrev pub BeginsWith : Text → Text → Type 0
BeginsWith s p = (rest : Text) × (s ≡ p ++ rest)

abbrev pub EndsIn : Text → Text → Type 0
EndsIn s suf = (front : Text) × (s ≡ front ++ suf)

has_prefix→ : (s p : Text) → has_prefix s p ≡ true → BeginsWith s p
unfolding has_prefix
has_prefix→ s [] h = (s, refl)
has_prefix→ [] (y ∷ p) h = cc
has_prefix→ (x ∷ s) (y ∷ p) h =
    let (rest, e) = has_prefix→ s p (ground arith) in (rest, ground arith)

has_prefix← : (p rest : Text) → has_prefix (p ++ rest) p ≡ true
unfolding has_prefix
has_prefix← [] rest = refl
has_prefix← (y ∷ p) rest = ground (arith, has_prefix← p rest)

pub has_prefix_append : (p rest : Text) → has_prefix (p ++ rest) p ≡ true
has_prefix_append = has_prefix←

pub has_prefix_iff : (s p : Text) → (has_prefix s p ≡ true) ↔ BeginsWith s p
has_prefix_iff s p = (has_prefix→ s p, λ (rest, e). rw e (has_prefix← p rest))

has_suffix→ : (s suf : Text) → has_suffix s suf ≡ true → EndsIn s suf
unfolding has_suffix
has_suffix→ s suf h =
    let k : ℕ = length s - length suf in
    let e : drop k s ≡ suf = ground (arith, text_eq_iff (drop k s) suf) in
    (take k s, sym (take-append-drop k s) ∙ ap (λ t. take k s ++ t) e)

has_suffix← : (front suf : Text) → has_suffix (front ++ suf) suf ≡ true
unfolding has_suffix
has_suffix← front suf =
    let n : length (front ++ suf) - length suf ≡ length front =
      omega (arith, length-append front suf) in
    let e : drop (length (front ++ suf) - length suf) (front ++ suf) ≡ suf =
      rw n (drop-length-append front suf) in
    ground (
      arith,
      length-append front suf,
      text_eq_iff (drop (length (front ++ suf) - length suf) (front ++ suf)) suf,
    )

pub has_suffix_iff : (s suf : Text) → (has_suffix s suf ≡ true) ↔ EndsIn s suf
has_suffix_iff s suf = (has_suffix→ s suf, λ (front, e). rw e (has_suffix← front suf))

pub text_eq_self : (s : Text) → text_eq s s ≡ true
text_eq_self s = (text_eq_iff s s).1 refl

-- A text has one part more than it has separators.
pub length-split : (b : ℕ) (s : Text) → length (split b s) ≡ count_byte b s + 1
unfolding split count_byte
length-split b [] = refl
length-split b (c ∷ s) = elim (parts_cases (split b s)) [
  | inl none_left ↦ absurd (ground (arith, length-split b s))
  | inr (part, parts, h) ↦ ground (arith, length-split b s)
]
  where
    parts_cases : (ps : List Text) → (ps ≡ []) ⊎ ((p : Text) × (rest : List Text) × (ps ≡ p ∷ rest))
    parts_cases [] = inl refl
    parts_cases (p ∷ rest) = inr (p, rest, refl)
