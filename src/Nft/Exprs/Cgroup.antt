-- ===== src/Nft/Exprs/Cgroup.antt =====
-- internal/nft/apply_linux.go, `atomExprs`: the test of the cgroup.
use egresswall.Common.{
  ℕ, true, false, ◌||◌, List, [], ◌∷◌, some, ◌≡◌, ◌⊎◌, ◌↔◌, inl, inr, refl, sym, ◌∙◌, subst, arith,
  length, Bool-cases, Option-cases, is_nil, ok,
}
use egresswall.Text.{Text, split}
use egresswall.Text.Laws.{length-split}
use egresswall.Policy.Domain.{cgroup_within}
use egresswall.Nft.Plan.{Atom}
use egresswall.Nft.Kernel.{Flow, SetState}
use egresswall.Nft.Exprs.{
  cmp_eq, socket_cgroup, Expr, CgroupStat, inode, absent, unreadable, native_bytes, cgroup_id,
  cgroup_level, cgroup_exprs,
}
use egresswall.Nft.Exprs.Machine.{Traffic, run, at_start, Carries}
use egresswall.Nft.Exprs.Guards.{
  IsGuard, at_start_iff, IsGuard-eq, IsGuard-nothing, length-native_bytes,
}

CgroupStat-cases : (s : CgroupStat) → ((n : ℕ) × (s ≡ inode n)) ⊎ ((s ≡ absent) ⊎ (s ≡ unreadable))
CgroupStat-cases (inode n) = inl (n, refl)
CgroupStat-cases absent = inr (inl refl)
CgroupStat-cases unreadable = inr (inr refl)

module _ (t : Traffic) (names : List Text) (sets : SetState) (stat : Text → CgroupStat) (f : Flow)
    (c : Carries names sets stat f t) where
  cgroup_level_lem : (path : Text) → length (split b'/' path) ≡ cgroup_level path
  unfolding cgroup_level
  cgroup_level_lem path = length-split b'/' path

  -- The cgroup at the level that the expression asks for.
  cgroup_there :
      (path : Text) (n : ℕ)
      → is_nil path ≡ false
      → stat path ≡ inode n
      → (t.cgroup_at (cgroup_level path) ≡ some (native_bytes 8 n))
        ↔ (cgroup_within f.cgroup path ≡ true)
  cgroup_there path n named known =
      subst
        (λ level.
          (t.cgroup_at level ≡ some (native_bytes 8 n)) ↔ (cgroup_within f.cgroup path ≡ true))
        (cgroup_level_lem path) (c.cgroup path n named known)

  socket-IsGuard :
      (path : Text) (n : ℕ)
      → is_nil path ≡ false
      → stat path ≡ inode n
      → IsGuard t
          (socket_cgroup (cgroup_level path) ∷ cmp_eq (native_bytes 8 n) ∷ [])
          (cgroup_within f.cgroup path)
  unfolding run
  socket-IsGuard path n named known es reg logged =
      elim (Option-cases (t.cgroup_at (cgroup_level path))) [
        | inl outside ↦ (
          reg,
          (let no_match : cgroup_within f.cgroup path ≡ false =
                ground (arith, cgroup_there path n named known) in
              rw (outside, no_match, run) refl),
        )
        | inr (id, there) ↦ (
          id,
          (let same : at_start id (native_bytes 8 n) ≡ cgroup_within f.cgroup path = ground (
            arith,
            cgroup_there path n named known,
            at_start_iff id (native_bytes 8 n)
                (c.cgroup_size (cgroup_level path) id there ∙ sym (length-native_bytes 8 n)),
          ) in
              rw (there, same, run) refl),
        )
      ]

  pub cgroup-IsGuard :
      (a : Atom) (part : List Expr)
      → cgroup_exprs stat a ≡ ok part
      → IsGuard t part (is_nil a.cgroup || cgroup_within f.cgroup a.cgroup)
  unfolding cgroup_exprs cgroup_id
  cgroup-IsGuard a part made = elim (Bool-cases (is_nil a.cgroup)) [
    | inl free ↦ IsGuard-eq t [] part true _ (ground arith) (ground arith) (IsGuard-nothing t)
    | inr bound ↦ elim (CgroupStat-cases (stat a.cgroup)) [
      | inl (n, known) ↦
          IsGuard-eq t (socket_cgroup (cgroup_level a.cgroup) ∷ cmp_eq (native_bytes 8 n) ∷ []) part
            (cgroup_within f.cgroup a.cgroup) _ (ground arith) (ground arith)
            (socket-IsGuard a.cgroup n bound known)
      | inr (inl gone) ↦ absurd (ground arith)
      | inr (inr bad) ↦ absurd (ground arith)
    ]
  ]
