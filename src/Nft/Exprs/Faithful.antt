-- ===== src/Nft/Exprs/Faithful.antt =====
-- internal/nft/apply_linux.go, `atomExprs`: the expressions of an atom mean what the atom says.
use egresswall.Common.{
  ℕ, ◌+◌, Bool, true, not, ◌&&◌, ◌||◌, List, [], ◌∷◌, ◌++◌, none, some, ◌≡◌, refl, ◌∙◌, arith, ◌==◌,
  leb, if◌then◌else◌, ◌⊎◌, Bool-cases, inl, inr, is_nil, ok, bind-eq-ok,
}
use egresswall.Text.{Text, codes, text_eq_iff}
use egresswall.Policy.{Verdict, deny, allow}
use egresswall.Policy.Domain.{cgroup_within}
use egresswall.Nft.Plan.{Atom, log_prefix}
use egresswall.Nft.Kernel.{Flow, SetState, family_hits, address_hits, atom_hits}
use egresswall.Nft.Exprs.{
  Expr, Message, add_anonymous_set, tcp_or_udp, anon_name, Handle, CgroupStat, cgroup_exprs,
  family_exprs, address_exprs, proto_exprs, port_exprs, verdict_exprs, atom_exprs,
}
use egresswall.Nft.Exprs.Machine.{
  Traffic, Ending, accepted, refused, run, Carries, Loaded, IsSendable,
}
use egresswall.Nft.Exprs.Guards.{
  IsGuard, family-IsGuard, proto_test, proto-IsGuard, port-IsGuard, verdict_end,
}
use egresswall.Nft.Exprs.Address.{address-IsGuard}
use egresswall.Nft.Exprs.Cgroup.{cgroup-IsGuard}

abbrev pub ending_of : Verdict → Text → Ending
ending_of allow rule = accepted
ending_of deny rule = refused (some (log_prefix rule))

-- The rule ends so exactly when the test holds.
abbrev Ends : Traffic → Ending → List Expr → Bool → Type 0
Ends t e es test = (reg : List ℕ) → run t es reg none ≡ (if test then some e else none)

then-Ends :
    (t : Traffic) (e : Ending) (part rest : List Expr) (test test' : Bool)
    → IsGuard t part test
    → (test ≡ true → Ends t e rest test')
    → Ends t e (part ++ rest) (test && test')
then-Ends t e part rest test test' guard ends reg =
    let (after, step) = guard rest reg none in
    step
    ∙ elim (Bool-cases test) [ inl holds ↦ rw holds (ends holds after) | inr fails ↦ rw fails refl ]

-- What the call returned, part by part.
record Parts (stat : Text → CgroupStat) (refuses : Message → Bool) (h : Handle) (a : Atom)
    (after : Handle) (es : List Expr) : Type 0 where
  cgroup : List Expr
  address : List Expr
  proto : List Expr
  cgroup_made : cgroup_exprs stat a ≡ ok cgroup
  address_made : address_exprs h a.family a.prefix a.set ≡ ok address
  proto_made : proto_exprs refuses h a ≡ ok (after, proto)
  whole :
      es
      ≡ cgroup
        ++ (family_exprs a.family
            ++ (address ++ (proto ++ (port_exprs a.port ++ verdict_exprs a.verdict a.rule))))

Parts-of :
    (stat : Text → CgroupStat) (refuses : Message → Bool) (h after : Handle) (a : Atom)
    (es : List Expr)
    → atom_exprs stat refuses h a ≡ ok (after, es)
    → Parts stat refuses h a after es
unfolding atom_exprs
Parts-of stat refuses h after a es made =
    let (cg, cg_made, then1) = bind-eq-ok (cgroup_exprs stat a) _ made in
    let (ad, ad_made, then2) = bind-eq-ok (address_exprs h a.family a.prefix a.set) _ then1 in
    let ((h', pr), pr_made, then3) = bind-eq-ok (proto_exprs refuses h a) _ then2 in
    record {
      cgroup = cg;
      address = ad;
      proto = pr;
      cgroup_made = cg_made;
      address_made = ad_made;
      proto_made = ground arith;
      whole = ground arith;
    }

proto_after :
    (refuses : Message → Bool) (h after : Handle) (a : Atom) (part : List Expr)
    → proto_exprs refuses h a ≡ ok (after, part)
    → (after ≡ h)
      ⊎ ((name : Text) × (elements : List (List ℕ)) × (after.messages
            ≡ h.messages ++ (add_anonymous_set name elements ∷ []))
          × (after.sets ≡ h.sets)
          × (after.missing ≡ h.missing))
unfolding proto_exprs tcp_or_udp
proto_after refuses h after a part made =
    elim (Bool-cases (is_nil a.proto && not (a.port.hi == 0))) [
      | inl either ↦ inr (
        anon_name (h.anon + 1),
        ((6 ∷ []) ∷ (17 ∷ []) ∷ []),
        ground arith,
        ground arith,
        ground arith,
      )
      | inr one ↦ inl (ground arith)
    ]

-- What the call leaves in the handle: an anonymous set more, or nothing.
pub atom_exprs-after :
    (stat : Text → CgroupStat) (refuses : Message → Bool) (h after : Handle) (a : Atom)
    (es : List Expr)
    → atom_exprs stat refuses h a ≡ ok (after, es)
    → (after ≡ h)
      ⊎ ((name : Text) × (elements : List (List ℕ)) × (after.messages
            ≡ h.messages ++ (add_anonymous_set name elements ∷ []))
          × (after.sets ≡ h.sets)
          × (after.missing ≡ h.missing))
atom_exprs-after stat refuses h after a es made =
    let p = Parts-of stat refuses h after a es made in
    proto_after refuses h after a p.proto p.proto_made

tests_lem :
    (sets : SetState) (f : Flow) (a : Atom)
    → (f.proto ≡ codes "tcp") ⊎ (f.proto ≡ codes "udp")
    → ((is_nil a.cgroup || cgroup_within f.cgroup a.cgroup)
        && (family_hits a.family f.dst
            && (address_hits sets a.prefix a.set f.dst
                && (proto_test a f
                    && ((a.port.hi == 0 || (leb a.port.lo f.port && leb f.port a.port.hi))
                        && true)))))
      ≡ atom_hits sets f a
unfolding atom_hits
tests_lem sets f a known =
    ground (arith, text_eq_iff f.proto (codes "tcp"), text_eq_iff f.proto (codes "udp"))

verdict-Ends :
    (t : Traffic) (v : Verdict) (rule : Text)
    → Ends t (ending_of v rule) (verdict_exprs v rule) true
verdict-Ends t allow rule reg = verdict_end t allow rule reg
verdict-Ends t deny rule reg = verdict_end t deny rule reg

-- The expressions that atomExprs makes for an atom end the rule exactly when the atom matches the flow:
-- they accept for an allow rule, and else log the prefix of the rule and reject; when the atom does not
-- match they give no verdict. This is for atoms as Build makes them, traffic that carries the flow, and
-- sets that hold its address as `sets` says.
pub run-atom_exprs :
    (stat : Text → CgroupStat) (refuses : Message → Bool) (h after : Handle) (a : Atom)
    (es : List Expr) (sets : SetState) (f : Flow) (t : Traffic)
    → IsSendable a
    → Carries h.sets sets stat f t
    → Loaded after.messages t
    → atom_exprs stat refuses h a ≡ ok (after, es)
    → run t es [] none ≡ (if atom_hits sets f a then some (ending_of a.verdict a.rule) else none)
run-atom_exprs stat refuses h after a es sets f t sendable c loaded made =
    let p = Parts-of stat refuses h after a es made in
    let e : Ending = ending_of a.verdict a.rule in
    let ends : Ends t e
        (p.cgroup
          ++ (family_exprs a.family
              ++ (p.address ++ (p.proto ++ (port_exprs a.port ++ verdict_exprs a.verdict a.rule)))))
        _ =
      then-Ends t e _ _ _ _ (cgroup-IsGuard t h.sets sets stat f c a p.cgroup p.cgroup_made) (λ _.
        then-Ends t e _ _ _ _ (family-IsGuard t h.sets sets stat f a.family c) (λ fits.
          then-Ends t e _ _ _ _
            (address-IsGuard t h.sets sets stat f c h a.family a.prefix a.set p.address refl
              sendable.address fits p.address_made)
            (λ _.
              then-Ends t e _ _ _ _
                (proto-IsGuard t h.sets sets stat f refuses h after a p.proto c loaded
                  sendable.proto p.proto_made)
                (λ _.
                  then-Ends t e _ _ _ _
                    (port-IsGuard t h.sets sets stat f a.port c sendable.ports.0 sendable.ports.1)
                    (λ _. verdict-Ends t a.verdict a.rule))))) in
    rw (p.whole, ← tests_lem sets f a (ground (arith, c.transport))) (ends [])
