-- ===== src/Nft/Apply/Outcomes.antt =====
-- internal/nft/apply_linux.go, `atomExprs`: which errors it has, and when.
use egresswall.Common.{
  Bool, true, false, not, ◌||◌, List, ◌≡◌, ◌⊎◌, inl, inr, refl, arith, is_nil, ok, err, bind-eq-ok,
  Result-cases,
}
use egresswall.Text.{Text}
use egresswall.Nft.Plan.{Atom}
use egresswall.Nft.Exprs.{
  Expr, Message, NftError, cgroup_missing, unknown_set, CgroupStat, Handle, cgroup_id, cgroup_exprs,
  address_exprs, set_exprs, proto_exprs, tcp_or_udp, atom_exprs,
}
use egresswall.Nft.Apply.{atom_rule}
use egresswall.Nft.Apply.Chains.{is_absent}

abbrev pub found : (Text → CgroupStat) → Atom → Bool
found stat a = is_nil a.cgroup || not (is_absent (stat a.cgroup))

pub cgroup_exprs-missing :
    (stat : Text → CgroupStat) (a : Atom)
    → cgroup_exprs stat a ≡ err cgroup_missing
    → found stat a ≡ false
unfolding cgroup_exprs cgroup_id
cgroup_exprs-missing stat a h = ground arith

pub cgroup_exprs-ok :
    (stat : Text → CgroupStat) (a : Atom) (es : List Expr)
    → cgroup_exprs stat a ≡ ok es
    → found stat a ≡ true
unfolding cgroup_exprs cgroup_id
cgroup_exprs-ok stat a es h = ground arith

address_exprs-missing :
    (h : Handle) (a : Atom) (e : NftError)
    → address_exprs h a.family a.prefix a.set ≡ err e
    → e ≡ unknown_set a.set
unfolding address_exprs set_exprs
address_exprs-missing h a e made = ground arith

proto_exprs-missing :
    (refuses : Message → Bool) (h : Handle) (a : Atom)
    → ¬ (proto_exprs refuses h a ≡ err cgroup_missing)
unfolding proto_exprs tcp_or_udp
proto_exprs-missing refuses h a made = ground arith

pub atom_exprs-missing :
    (stat : Text → CgroupStat) (refuses : Message → Bool) (h : Handle) (a : Atom)
    → atom_exprs stat refuses h a ≡ err cgroup_missing
    → found stat a ≡ false
unfolding atom_exprs
atom_exprs-missing stat refuses h a made = elim (Result-cases (cgroup_exprs stat a)) [
  | inl (cg, cg_ok) ↦ elim (Result-cases (address_exprs h a.family a.prefix a.set)) [
    | inl (ad, ad_ok) ↦ elim (Result-cases (proto_exprs refuses h a)) [
      | inl ((after, pr), pr_ok) ↦ absurd (ground arith)
      | inr (e, bad) ↦ absurd (ground (arith, proto_exprs-missing refuses h a))
    ]
    | inr (e, bad) ↦ absurd (ground (arith, address_exprs-missing h a e bad))
  ]
  | inr (e, bad) ↦ cgroup_exprs-missing stat a (ground arith)
]

pub atom_exprs-found :
    (stat : Text → CgroupStat) (refuses : Message → Bool) (h after : Handle) (a : Atom)
    (es : List Expr)
    → atom_exprs stat refuses h a ≡ ok (after, es)
    → found stat a ≡ true
unfolding atom_exprs
atom_exprs-found stat refuses h after a es made =
    let (cg, cg_made, rest) = bind-eq-ok (cgroup_exprs stat a) _ made in
    cgroup_exprs-ok stat a cg cg_made

pub NftError-cases :
    (e : NftError)
    → (e ≡ cgroup_missing) ⊎ ((h : Handle) (c : Text) (a : Atom) → atom_rule c h a (err e) ≡ err e)
unfolding atom_rule
NftError-cases cgroup_missing = inl refl
NftError-cases _ = inr (λ h c a. refl)
