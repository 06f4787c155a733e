-- ===== src/Nft/Apply/Body.antt =====
-- internal/nft/apply_linux.go, `chainBody`: the rules of a chain decide as the atoms of the plan do.
use egresswall.Common.{
  ℕ, Bool, true, false, not, ◌&&◌, List, [], ◌∷◌, any, All, Option, none, some, ◌≡◌, inl, inr, refl,
  ap, sym, ◌∙◌, subst, arith, if◌then◌else◌, ok, err, each_ok, bind-eq-ok, ok-injective, Bool-cases,
  Result-cases,
}
use egresswall.Text.{Text, text_eq}
use egresswall.Netip.{Addr, v4, v6, Prefix, contains, is4}
use egresswall.Netip.Bytes.{and_bytes}
use egresswall.Nft.Plan.{Atom, Plan, family_of, in_chain, log_prefix}
use egresswall.Nft.Kernel.{Flow, SetState, family_hits, atom_hits, first_hit}
use egresswall.Nft.Exprs.{
  Expr, CgroupStat, Handle, atom_exprs, established_accept, refuse, native_bytes,
}
use egresswall.Nft.Exprs.Machine.{
  Traffic, Ending, accepted, refused, run, at_start, Carries, IsSendable,
}
use egresswall.Nft.Exprs.Faithful.{ending_of, run-atom_exprs}
use egresswall.Nft.Apply.{
  System, housekeeping, housekeeping_atom, rule, housekeeping_step, add_missing, atom_rule,
  atom_step,
}
use egresswall.Nft.Apply.Chains.{
  or_else, loaded, loaded_atoms, hit_ending, when, Adds, Adds-trans, Adds-skip, rule_Adds,
  after_Adds, Loaded-append,
}
use egresswall.Nft.Apply.Outcomes.{found, atom_exprs-missing, atom_exprs-found, NftError-cases}

-- What the loop has done after the atom.
module _ (sys : System) (t : Traffic) (c d : Text) (sets : SetState) (f : Flow) where
  abbrev pub atom_end : Bool → Atom → Option Ending
  atom_end fwd a = when (text_eq d c) (
      if loaded sys.stat fwd a && atom_hits sets f a
      then some (ending_of a.verdict a.rule)
      else none)

  made_Adds :
      (h after : Handle) (a : Atom) (es : List Expr)
      → IsSendable a
      → Carries h.sets sets sys.stat f t
      → atom_exprs sys.stat sys.refuses h a ≡ ok (after, es)
      → Adds t c h (rule d es after) (
          when
            (text_eq d c)
            (if atom_hits sets f a then some (ending_of a.verdict a.rule) else none))
  unfolding rule
  made_Adds h after a es sendable carries made =
      Adds-trans t c h after (rule d es after) none _
        (after_Adds t c sys.stat sys.refuses h after a es made)
        (rule_Adds t c d after es _ (λ l.
          run-atom_exprs sys.stat sys.refuses h after a es sets f t sendable carries
            (Loaded-append t after.messages _ l) made))

  step_Adds :
      (fwd : Bool) (h h' : Handle) (a : Atom)
      → IsSendable a
      → Carries h.sets sets sys.stat f t
      → atom_step sys d fwd h a ≡ ok h'
      → Adds t c h h' (atom_end fwd a)
  unfolding atom_step atom_rule add_missing
  step_Adds fwd h h' a sendable carries done = elim (Bool-cases (in_chain a fwd)) [
    | inl wanted ↦ elim (Result-cases (atom_exprs sys.stat sys.refuses h a)) [
      | inl ((after, es), made) ↦
          (let there : found sys.stat a ≡ true =
              atom_exprs-found sys.stat sys.refuses h after a es made in
            let same : rule d es after ≡ h' = ground arith in
            subst (λ x. Adds t c h x (atom_end fwd a)) same
              (rw (wanted, there) (made_Adds h after a es sendable carries made)))
      | inr (e, bad) ↦ elim (NftError-cases e) [
        | inl gone ↦
            (let lost : found sys.stat a ≡ false =
                atom_exprs-missing sys.stat sys.refuses h a (bad ∙ ap err gone) in
              let same : add_missing a.cgroup h ≡ h' = ground arith in
              subst (λ x. Adds t c h x (atom_end fwd a)) same
                (rw (wanted, lost)
                  (Adds-skip t c h (add_missing a.cgroup h) _ (ground arith) (ground arith))))
        | inr other ↦ absurd (ground (arith, other h d a))
      ]
    ]
    | inr left ↦
        (let same : h ≡ h' = ground arith in
          subst (λ x. Adds t c h x (atom_end fwd a)) same (rw left (Adds-skip t c h h _ refl refl)))
  ]

when_step :
    (mine : Bool) (sets : SetState) (f : Flow) (stat : Text → CgroupStat) (fwd : Bool) (a : Atom)
    (rest : List Atom)
    → or_else
        (when mine (
          if loaded stat fwd a && atom_hits sets f a
          then some (ending_of a.verdict a.rule)
          else none))
        (when mine (hit_ending (first_hit sets f (loaded_atoms stat fwd rest))))
      ≡ when mine (hit_ending (first_hit sets f (loaded_atoms stat fwd (a ∷ rest))))
unfolding first_hit
when_step mine sets f stat fwd a rest = elim (Bool-cases mine) [
  | inl judged ↦ elim (Bool-cases (loaded stat fwd a)) [
    | inl there ↦ elim (Bool-cases (atom_hits sets f a)) [
      | inl hit ↦ rw (judged, there, hit) refl
      | inr miss ↦ rw (judged, there, miss) refl
    ]
    | inr gone ↦ rw (judged, gone) refl
  ]
  | inr other ↦ rw other refl
]

module _ (sys : System) (t : Traffic) (c d : Text) (sets : SetState) (f : Flow) where
  pub atoms_Adds :
      (fwd : Bool) (atoms : List Atom) (h h' : Handle)
      → All IsSendable atoms
      → Carries h.sets sets sys.stat f t
      → each_ok (atom_step sys d fwd) h atoms ≡ ok h'
      → Adds t c h h'
          (when (text_eq d c) (hit_ending (first_hit sets f (loaded_atoms sys.stat fwd atoms))))
  unfolding each_ok first_hit
  atoms_Adds fwd [] h h' all carries done =
      subst (λ x. Adds t c h x (when (text_eq d c) none)) (ok-injective done)
        (Adds-skip t c h h (text_eq d c) refl refl)
  atoms_Adds fwd (a ∷ rest) h h' (sendable, all) carries done =
      let (m, here, later) = bind-eq-ok (atom_step sys d fwd h a) _ done in
      let first : Adds t c h m (atom_end sys t c d sets f fwd a) =
        step_Adds sys t c d sets f fwd h m a sendable carries here in
      let carried : Carries m.sets sets sys.stat f t =
        subst (λ names. Carries names sets sys.stat f t) (sym first.same_sets) carries in
      subst (λ e. Adds t c h h' e) (when_step (text_eq d c) sets f sys.stat fwd a rest)
        (Adds-trans t c h m h' _ _ first (atoms_Adds fwd rest m h' all carried later))

  pub housekeeping_Adds :
      (p : Prefix) (h h' : Handle)
      → IsSendable (housekeeping_atom p)
      → Carries h.sets sets sys.stat f t
      → housekeeping_step sys d h p ≡ ok h'
      → Adds t c h h' (
          when
            (text_eq d c)
            (if atom_hits sets f (housekeeping_atom p) then some accepted else none))
  unfolding housekeeping_step
  housekeeping_Adds p h h' sendable carries done =
      let ((after, es), made, last) =
        bind-eq-ok (atom_exprs sys.stat sys.refuses h (housekeeping_atom p)) _ done in
      let e : Option Ending =
        when (text_eq d c)
          (if atom_hits sets f (housekeeping_atom p) then some accepted else none) in
      subst (λ x. Adds t c h x e) (ok-injective last)
        (made_Adds sys t c d sets f h after (housekeeping_atom p) es sendable carries made)

pub atom_hits-housekeeping_atom :
    (sets : SetState) (f : Flow) (p : Prefix)
    → atom_hits sets f (housekeeping_atom p) ≡ contains p f.dst
unfolding atom_hits contains family_of is4
atom_hits-housekeeping_atom sets f p = agree p.bits p.addr f.dst
  where
    agree :
        (bits : ℕ) (a ip : Addr)
        → (family_hits (family_of (record { addr = a; bits = bits })) ip
            && (contains (record { addr = a; bits = bits }) ip && true))
          ≡ contains (record { addr = a; bits = bits }) ip
    agree bits (v4 a) (v4 b) = ground arith
    agree bits (v6 a z) (v6 b w) = ground arith
    agree bits a ip = ground arith

pub housekeeping_atom-IsSendable : All (λ p. IsSendable (housekeeping_atom p)) housekeeping
unfolding family_of is4
housekeeping_atom-IsSendable = (
  record {
    proto = inl refl;
    ports = (omega arith, omega arith);
    address = inr (0xfe800000000000000000000000000000, refl, refl, omega arith, omega arith);
  },
  (
    record {
      proto = inl refl;
      ports = (omega arith, omega arith);
      address = inr (0xff000000000000000000000000000000, refl, refl, omega arith, omega arith);
    },
    (
      record {
        proto = inl refl;
        ports = (omega arith, omega arith);
        address = inl (0xe0000000, refl, refl, omega arith, omega arith);
      },
      tt,
    ),
  ),
)

-- The kernel's states with a bit of established or related.
abbrev pub established : Traffic → Bool
established t = not (at_start (and_bytes t.state (native_bytes 4 6)) (native_bytes 4 0))

-- What the body of a chain does with a packet, said by the plan.
abbrev pub body_end : (Text → CgroupStat) → Plan → Bool → SetState → Flow → Traffic → Option Ending
body_end stat p fwd sets f t =
    if established t
    then some accepted
    else if any (λ q. contains q f.dst) housekeeping
    then some accepted
    else or_else (hit_ending (first_hit sets f (loaded_atoms stat fwd p.atoms)))
        (if p.default_deny then some (refused (some (log_prefix []))) else none)

pub run-established_accept :
    (t : Traffic)
    → run t established_accept [] none ≡ (if established t then some accepted else none)
unfolding run established_accept
run-established_accept t = ground arith

pub run-refuse :
    (t : Traffic) (name : Text)
    → run t (refuse name) [] none ≡ some (refused (some (log_prefix name)))
unfolding run refuse
run-refuse t name = refl
