-- ===== src/Common/Maps.antt =====
-- Go maps as association lists: `m[k] = v` overwrites in place or adds, a read takes the first entry.
use mathlib.Core.Path.{◌≡◌, refl}
use mathlib.Core.Bool.{Bool}
use mathlib.Core.List.{List, [], ◌∷◌}
use mathlib.Core.Option.{Option, none, some}
use mathlib.Core.Logic.{inl, inr}
use native.Mathlib.Omega.{arith}
use egresswall.Common.Tests.{Key, Bool-cases, if◌then◌else◌}

module _ {ℓ κ} {K : Type ℓ} {V : Type κ} ⦃key : Key K⦄ where
  unfoldable pub get : K → List (K × V) → Option V
  get k [] = none
  get k ((j, v) ∷ m) = if key.same j k then some v else get k m

  unfoldable pub put : K → V → List (K × V) → List (K × V)
  put k v [] = (k, v) ∷ []
  put k v ((j, w) ∷ m) = if key.same j k then (k, v) ∷ m else (j, w) ∷ put k v m

  -- `for k, v := range m { if drop(k, v) { delete(m, k) } }`
  unfoldable pub delete_if : (V → Bool) → List (K × V) → List (K × V)
  delete_if drop [] = []
  delete_if drop ((j, w) ∷ m) =
      let rest = delete_if drop m in if drop w then rest else (j, w) ∷ rest

  pub get-put :
      (k j : K) (v : V) (m : List (K × V))
      → get j (put k v m) ≡ (if key.same k j then some v else get j m)
  unfolding get put
  get-put k j v [] = refl
  get-put k j v ((i, w) ∷ m) =
      ground (arith, key.same_iff k j, key.same_iff i k, key.same_iff i j, get-put k j v m)

abbrev pub unless {ℓ} : {V : Type ℓ} → (V → Bool) → Option V → Option V
unless d none = none
unless d (some v) = if d v then none else some v

module _ {K V : Type 0} ⦃key : Key K⦄ where
  -- No key has two entries.
  unfoldable pub IsMap : List (K × V) → Type 0
  IsMap [] = Unit
  IsMap ((j, w) ∷ m) = (get j m ≡ none) × IsMap m

  pub put-IsMap : (k : K) (v : V) (m : List (K × V)) → IsMap m → IsMap (put k v m)
  unfolding IsMap get put
  put-IsMap k v [] h = (refl, tt)
  put-IsMap k v ((j, w) ∷ m) (fresh, h) = elim (Bool-cases (key.same j k)) [
    | inl same ↦ rw (same) (ground (arith, key.same_iff j k), h)
    | inr differ ↦
        rw (differ)
          (ground (arith, get-put k j v m, key.same_iff j k, key.same_iff k j), put-IsMap k v m h)
  ]

  get-delete_if-none :
      (k : K) (d : V → Bool) (m : List (K × V)) → get k m ≡ none → get k (delete_if d m) ≡ none
  unfolding get delete_if
  get-delete_if-none k d [] h = refl
  get-delete_if-none k d ((j, w) ∷ m) h = ground (arith, get-delete_if-none k d m)

  pub delete_if-IsMap : (d : V → Bool) (m : List (K × V)) → IsMap m → IsMap (delete_if d m)
  unfolding IsMap delete_if
  delete_if-IsMap d [] h = tt
  delete_if-IsMap d ((j, w) ∷ m) (fresh, h) = elim (Bool-cases (d w)) [
    | inl dropped ↦ rw (dropped) (delete_if-IsMap d m h)
    | inr kept ↦ rw (kept) (get-delete_if-none j d m fresh, delete_if-IsMap d m h)
  ]

  pub get-delete_if :
      (k : K) (d : V → Bool) (m : List (K × V))
      → IsMap m
      → get k (delete_if d m) ≡ unless d (get k m)
  unfolding IsMap get delete_if
  get-delete_if k d [] h = refl
  get-delete_if k d ((j, w) ∷ m) (fresh, h) =
      ground (arith, key.same_iff j k, get-delete_if k d m h, get-delete_if-none k d m)
