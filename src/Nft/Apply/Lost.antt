-- ===== src/Nft/Apply/Lost.antt =====
-- internal/nft/apply_linux.go, `Missing`: which cgroups the loaded chains leave out.
use egresswall.Common.{
  Bool, true, false, not, ◌&&◌, ◌||◌, List, [], ◌∷◌, ◌++◌, any, ◌≡◌, inl, inr, refl, ap, sym, ◌∙◌,
  arith, if◌then◌else◌, is_nil, ok, err, each_ok, bind-eq-ok, ok-injective, Bool-cases,
  Result-cases,
}
use egresswall.Text.{Text, text_eq, text_eq_iff}
use egresswall.Netip.{Prefix}
use egresswall.Nft.Plan.{Atom, Plan, SetDef, in_chain}
use egresswall.Nft.Exprs.{
  Expr, Message, add_table, add_chain, forward, no_connection, CgroupStat, Handle, push, refuse,
  established_accept, atom_exprs,
}
use egresswall.Common.{any_iff, ◌↔◌}
use egresswall.Policy.Evaluate.{sort_texts}
use egresswall.Nft.Refines.{Any-sort_texts}
use egresswall.Nft.Exprs.Faithful.{atom_exprs-after}
use egresswall.Nft.Apply.{
  System, housekeeping, housekeeping_atom, rule, housekeeping_step, add_missing, atom_rule,
  atom_step, chain_body, delete_own, define_set, chain_policy, chain_name, forward_chain,
  output_rules, bridge_rules, bridge_prefixes, forward_rules, flush, apply, missing,
}
use egresswall.Nft.Apply.Chains.{is_absent}
use egresswall.Nft.Apply.Outcomes.{found, atom_exprs-missing, atom_exprs-found, NftError-cases}

-- The atom names this cgroup, which does not exist.
abbrev pub lost : (Text → CgroupStat) → Text → Atom → Bool
lost stat cg a = not (is_nil a.cgroup) && (is_absent (stat a.cgroup) && text_eq cg a.cgroup)

abbrev noted : Text → Handle → Bool
noted cg h = any (text_eq cg) h.missing

noted-add_missing :
    (cg other : Text) (h : Handle)
    → noted cg (add_missing other h) ≡ (noted cg h || text_eq cg other)
unfolding add_missing
noted-add_missing cg other h = elim (Bool-cases (text_eq cg other)) [
  | inl same ↦ ground (
    arith,
    (text_eq_iff cg other).0 same,
    ap (λ x. any (text_eq x) h.missing) ((text_eq_iff cg other).0 same),
  )
  | inr differ ↦ ground arith
]

atom_exprs-kept :
    (stat : Text → CgroupStat) (refuses : Message → Bool) (h after : Handle) (a : Atom)
    (es : List Expr)
    → atom_exprs stat refuses h a ≡ ok (after, es)
    → after.missing ≡ h.missing
atom_exprs-kept stat refuses h after a es made =
    elim (atom_exprs-after stat refuses h after a es made) [
      | inl same ↦ ap (λ x. x.missing) same
      | inr (name, elements, grown, sets, kept) ↦ kept
    ]

module _ (sys : System) (cg : Text) where
  noted-atom_step :
      (c : Text) (fwd : Bool) (h h' : Handle) (a : Atom)
      → atom_step sys c fwd h a ≡ ok h'
      → noted cg h' ≡ (noted cg h || (in_chain a fwd && lost sys.stat cg a))
  unfolding atom_step atom_rule rule
  noted-atom_step c fwd h h' a done = elim (Bool-cases (in_chain a fwd)) [
    | inl wanted ↦ elim (Result-cases (atom_exprs sys.stat sys.refuses h a)) [
      | inl ((after, es), made) ↦ ground (
        arith,
        atom_exprs-kept sys.stat sys.refuses h after a es made,
        atom_exprs-found sys.stat sys.refuses h after a es made,
      )
      | inr (e, bad) ↦ elim (NftError-cases e) [
        | inl gone ↦
            (let same : add_missing a.cgroup h ≡ h' = ground arith in
              let none_there : found sys.stat a ≡ false =
                atom_exprs-missing sys.stat sys.refuses h a (bad ∙ ap err gone) in
              ap (noted cg) (sym same) ∙ noted-add_missing cg a.cgroup h ∙ ground arith)
        | inr other ↦ absurd (ground (arith, other h c a))
      ]
    ]
    | inr left ↦ ground arith
  ]

  noted-atoms :
      (c : Text) (fwd : Bool) (atoms : List Atom) (h h' : Handle)
      → each_ok (atom_step sys c fwd) h atoms ≡ ok h'
      → noted cg h' ≡ (noted cg h || any (λ a. in_chain a fwd && lost sys.stat cg a) atoms)
  unfolding each_ok
  noted-atoms c fwd [] h h' done = rw (← ok-injective done) (ground arith)
  noted-atoms c fwd (a ∷ atoms) h h' done =
      let (m, here, later) = bind-eq-ok (atom_step sys c fwd h a) _ done in
      ground (arith, noted-atom_step c fwd h m a here, noted-atoms c fwd atoms m h' later)

  noted-prefixes :
      (c : Text) (ps : List Prefix) (h h' : Handle)
      → each_ok (housekeeping_step sys c) h ps ≡ ok h'
      → noted cg h' ≡ noted cg h
  unfolding each_ok housekeeping_step rule
  noted-prefixes c [] h h' done = rw (← ok-injective done) refl
  noted-prefixes c (p ∷ ps) h h' done =
      let (m, here, later) = bind-eq-ok (housekeeping_step sys c h p) _ done in
      let ((after, es), made, last) =
        bind-eq-ok (atom_exprs sys.stat sys.refuses h (housekeeping_atom p)) _ here in
      noted-prefixes c ps m h' later
      ∙ ap (noted cg) (sym (ok-injective last))
      ∙ ap (any (text_eq cg))
          (atom_exprs-kept sys.stat sys.refuses h after (housekeeping_atom p) es made)

  noted-chain_body :
      (c : Text) (p : Plan) (fwd : Bool) (h h' : Handle)
      → chain_body sys c p fwd h ≡ ok h'
      → noted cg h' ≡ (noted cg h || any (λ a. in_chain a fwd && lost sys.stat cg a) p.atoms)
  unfolding chain_body rule
  noted-chain_body c p fwd h h' made =
      let (kept, first, then1) =
        bind-eq-ok (each_ok (housekeeping_step sys c) (rule c established_accept h) housekeeping) _
          made in
      let (done, second, last) = bind-eq-ok (each_ok (atom_step sys c fwd) kept p.atoms) _ then1 in
      let same : noted cg h' ≡ noted cg done =
        ap (noted cg) (sym (ok-injective last)) ∙ last_rule p.default_deny done in
      ground (
        arith,
        noted-prefixes c housekeeping (rule c established_accept h) kept first,
        noted-atoms c fwd p.atoms kept done second,
      )
    where
      last_rule :
          (b : Bool) (done : Handle)
          → noted cg (if b then rule c (refuse []) done else done) ≡ noted cg done
      last_rule true done = refl
      last_rule false done = refl

  output_loses :
      (atoms : List Atom)
      → any (λ a. in_chain a false && lost sys.stat cg a) atoms ≡ any (lost sys.stat cg) atoms
  unfolding in_chain
  output_loses [] = refl
  output_loses (a ∷ atoms) = ground (arith, output_loses atoms)

  forward_loses :
      (atoms : List Atom) → any (λ a. in_chain a true && lost sys.stat cg a) atoms ≡ false
  unfolding in_chain
  forward_loses [] = refl
  forward_loses (a ∷ atoms) = ground (arith, forward_loses atoms)

  noted-bridge_rules : (ps : List Text) (h : Handle) → noted cg (bridge_rules ps h) ≡ noted cg h
  unfolding bridge_rules rule
  noted-bridge_rules [] h = refl
  noted-bridge_rules (p ∷ ps) h = noted-bridge_rules ps _

  noted-forward_rules :
      (p : Plan) (h h' : Handle) → forward_rules sys p h ≡ ok h' → noted cg h' ≡ noted cg h
  unfolding forward_rules
  noted-forward_rules p h h' made = elim (Bool-cases p.forward) [
    | inl wanted ↦
        (let with_chain : Handle = push h (add_chain forward_chain forward (chain_policy p)) in
          let start : Handle = bridge_rules bridge_prefixes with_chain in
          let body : chain_body sys forward_chain p true start ≡ ok h' = ground arith in
          ground (
            arith,
            noted-chain_body forward_chain p true start h' body,
            forward_loses p.atoms,
            noted-bridge_rules bridge_prefixes with_chain,
          ))
    | inr unwanted ↦ (let same : h ≡ h' = ground arith in ap (noted cg) (sym same))
  ]

  noted-define_sets :
      (defs : List SetDef) (h h' : Handle)
      → each_ok (define_set sys) h defs ≡ ok h'
      → noted cg h' ≡ noted cg h
  unfolding each_ok define_set
  noted-define_sets [] h h' made = rw (← ok-injective made) refl
  noted-define_sets (d ∷ defs) h h' made =
      let (m, here, later) = bind-eq-ok (define_set sys h d) _ made in
      noted-define_sets defs m h' later ∙ ground arith

  noted-apply :
      (p : Plan) (h : Handle) → apply sys p ≡ ok h → noted cg h ≡ any (lost sys.stat cg) p.atoms
  unfolding apply output_rules flush rule
  noted-apply p h made =
      let (start, deleted, then1) =
        bind-eq-ok (if sys.connects then delete_own sys else err no_connection) _ made in
      let blank : Handle = record {
        sets = [];
        anon = 0;
        missing = [];
        messages = start ++ (add_table ∷ []);
      } in
      let (defined, sets_made, then2) =
        bind-eq-ok (each_ok (define_set sys) blank p.sets) _ then1 in
      let (out, out_made, then3) = bind-eq-ok (output_rules sys p defined) _ then2 in
      let (done, done_made, flushed) = bind-eq-ok (forward_rules sys p out) _ then3 in
      let same : done ≡ h = ground arith in
      ap (noted cg) (sym same)
      ∙ (noted-forward_rules p out done done_made
          ∙ (noted-chain_body chain_name p false _ out out_made
              ∙ ground
                  (arith, noted-define_sets p.sets blank defined sets_made, output_loses p.atoms)))

  noted-missing : (h : Handle) → (any (text_eq cg) (missing h) ≡ true) ↔ (noted cg h ≡ true)
  unfolding missing
  noted-missing h =
      let listed = any_iff (λ x. cg ≡ x) (text_eq cg) (text_eq_iff cg) (sort_texts h.missing) in
      let kept = any_iff (λ x. cg ≡ x) (text_eq cg) (text_eq_iff cg) h.missing in
      ground (arith, listed, kept, Any-sort_texts (λ x. cg ≡ x) h.missing)

  -- After a load, Missing lists a cgroup exactly when a rule of the plan names it and it does not exist.
  pub missing-apply :
      (p : Plan) (h : Handle)
      → apply sys p ≡ ok h
      → (any (text_eq cg) (missing h) ≡ true) ↔ (any (lost sys.stat cg) p.atoms ≡ true)
  missing-apply p h made = ground (arith, noted-missing h, noted-apply p h made)
