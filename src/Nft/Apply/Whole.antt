-- ===== src/Nft/Apply/Whole.antt =====
-- internal/nft/apply_linux.go: what a packet meets in the chains of a loaded plan, from the first rule on.
use egresswall.Common.{
  Bool, true, false, ◌||◌, List, [], ◌∷◌, any, All, Option, none, some, ◌≡◌, inl, inr, refl, ap,
  sym, ◌∙◌, subst, arith, if◌then◌else◌, ok, each_ok, bind-eq-ok, ok-injective, Bool-cases,
}
use egresswall.Text.{Text, text_eq}
use egresswall.Netip.{Prefix, contains}
use egresswall.Nft.Plan.{Plan, log_prefix}
use egresswall.Nft.Kernel.{Flow, SetState, atom_hits, first_hit}
use egresswall.Nft.Exprs.{Handle, established_accept, refuse}
use egresswall.Nft.Exprs.Machine.{Traffic, Ending, accepted, refused, Carries, IsSendable}
use egresswall.Nft.Apply.{
  System, housekeeping, housekeeping_atom, rule, housekeeping_step, atom_step, chain_body,
}
use egresswall.Nft.Apply.Chains.{
  or_else, loaded_atoms, hit_ending, when, Adds, Adds-trans, Adds-skip, rule_Adds,
}
use egresswall.Nft.Apply.Body.{
  atoms_Adds, housekeeping_Adds, atom_hits-housekeeping_atom, housekeeping_atom-IsSendable,
  established, body_end, run-established_accept, run-refuse,
}

-- Accepted where the test holds.
abbrev pub spared : Bool → Option Ending
spared b = if b then some accepted else none

pub when-or_else :
    (b : Bool) (x y : Option Ending) → or_else (when b x) (when b y) ≡ when b (or_else x y)
when-or_else true x y = refl
when-or_else false x y = refl

module _ (sys : System) (t : Traffic) (c d : Text) (sets : SetState) (f : Flow) where
  prefixes_Adds :
      (ps : List Prefix) (h h' : Handle)
      → All (λ p. IsSendable (housekeeping_atom p)) ps
      → Carries h.sets sets sys.stat f t
      → each_ok (housekeeping_step sys d) h ps ≡ ok h'
      → Adds t c h h' (when (text_eq d c) (spared (any (λ q. contains q f.dst) ps)))
  unfolding each_ok
  prefixes_Adds [] h h' all carries done =
      subst (λ x. Adds t c h x (when (text_eq d c) none)) (ok-injective done)
        (Adds-skip t c h h (text_eq d c) refl refl)
  prefixes_Adds (p ∷ ps) h h' (sendable, all) carries done =
      let (m, here, later) = bind-eq-ok (housekeeping_step sys d h p) _ done in
      let first = housekeeping_Adds sys t c d sets f p h m sendable carries here in
      let carried : Carries m.sets sets sys.stat f t =
        subst (λ names. Carries names sets sys.stat f t) (sym first.same_sets) carries in
      subst (λ e. Adds t c h h' e)
        (when-or_else (text_eq d c) _ _
          ∙ ap (when (text_eq d c)) (
              either (atom_hits sets f (housekeeping_atom p)) (contains p f.dst) _
                (atom_hits-housekeeping_atom sets f p)))
        (Adds-trans t c h m h' _ _ first (prefixes_Adds ps m h' all carried later))
    where
      either :
          (hit hit' later : Bool)
          → hit ≡ hit'
          → or_else (spared hit) (spared later) ≡ spared (hit' || later)
      either hit hit' later same = ground arith

  default_end : Plan → Option Ending
  default_end p = if p.default_deny then some (refused (some (log_prefix []))) else none

  last_Adds :
      (p : Plan) (h : Handle)
      → Adds t c h
          (if p.default_deny then rule d (refuse []) h else h)
          (when (text_eq d c) (default_end p))
  unfolding default_end
  last_Adds p h = elim (Bool-cases p.default_deny) [
    | inl denied ↦ rw denied (rule_Adds t c d h (refuse []) _ (λ l. run-refuse t []))
    | inr open_policy ↦ rw open_policy (Adds-skip t c h h (text_eq d c) refl refl)
  ]

  body_end-or_else :
      (p : Plan) (fwd : Bool)
      → or_else (when (text_eq d c) (spared (established t))) (
          or_else (when (text_eq d c) (spared (any (λ q. contains q f.dst) housekeeping))) (
            or_else
              (when
                (text_eq d c)
                (hit_ending (first_hit sets f (loaded_atoms sys.stat fwd p.atoms))))
              (when (text_eq d c) (default_end p))))
        ≡ when (text_eq d c) (body_end sys.stat p fwd sets f t)
  unfolding default_end
  body_end-or_else p fwd =
      join (text_eq d c) (established t) (any (λ q. contains q f.dst) housekeeping)
        (hit_ending (first_hit sets f (loaded_atoms sys.stat fwd p.atoms))) (default_end p)
    where
      join :
          (b one two : Bool) (x y : Option Ending)
          → or_else
              (when b (spared one))
              (or_else (when b (spared two)) (or_else (when b x) (when b y)))
            ≡ when b (if one then some accepted else if two then some accepted else or_else x y)
      join true true two x y = refl
      join true false true x y = refl
      join true false false x y = refl
      join false one two x y = refl

  pub chain_body-Adds :
      (p : Plan) (fwd : Bool) (h h' : Handle)
      → All IsSendable p.atoms
      → Carries h.sets sets sys.stat f t
      → chain_body sys d p fwd h ≡ ok h'
      → Adds t c h h' (when (text_eq d c) (body_end sys.stat p fwd sets f t))
  unfolding chain_body
  chain_body-Adds p fwd h h' all carries made =
      let start : Handle = rule d established_accept h in
      let (kept, first, then1) =
        bind-eq-ok (each_ok (housekeeping_step sys d) start housekeeping) _ made in
      let (done, second, last) = bind-eq-ok (each_ok (atom_step sys d fwd) kept p.atoms) _ then1 in
      let zero =
        rule_Adds t c d h established_accept (spared (established t))
          (λ l. run-established_accept t) in
      let carried = λ (m : Handle) (same : m.sets ≡ h.sets).
        subst (λ names. Carries names sets sys.stat f t) (sym same) carries in
      let one =
        prefixes_Adds housekeeping start kept housekeeping_atom-IsSendable
          (carried start zero.same_sets) first in
      let two =
        atoms_Adds sys t c d sets f fwd p.atoms kept done all
          (carried kept (one.same_sets ∙ zero.same_sets)) second in
      let three : Adds t c done h' (when (text_eq d c) (default_end p)) =
        subst (λ x. Adds t c done x (when (text_eq d c) (default_end p))) (ok-injective last)
          (last_Adds p done) in
      subst (λ e. Adds t c h h' e) (body_end-or_else p fwd)
        (Adds-trans t c h start h' _ _ zero
          (Adds-trans t c start kept h' _ _ one (Adds-trans t c kept done h' _ _ two three)))
