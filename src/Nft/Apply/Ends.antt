-- ===== src/Nft/Apply/Ends.antt =====
-- internal/nft/apply_linux.go, `Apply`: how the batch that it flushes decides a packet, in either chain.
use egresswall.Common.{
  Bool, true, false, ◌&&◌, ◌||◌, List, [], ◌∷◌, ◌++◌, any, All, Option, none, some, ◌≡◌, inl, inr,
  refl, ap, sym, ◌∙◌, subst, arith, if◌then◌else◌, ok, Bool-cases,
}
use egresswall.Text.{Text, codes, text_eq}
use egresswall.Policy.{Verdict}
use egresswall.Nft.Plan.{Plan}
use egresswall.Nft.Kernel.{Flow, SetState}
use egresswall.Nft.Exprs.{
  add_chain, Hook, output, forward, Handle, push, loopback_accept, oif_prefix_accept,
}
use egresswall.Nft.Exprs.Machine.{Traffic, Ending, accepted, run, at_start, Carries, IsSendable}
use egresswall.Nft.Apply.{
  System, chain_name, forward_chain, bridge_prefixes, rule, chain_body, chain_policy, output_rules,
  bridge_rules, forward_rules,
}
use egresswall.Nft.Apply.Chains.{or_else, fate, when, Adds, Adds-trans, Adds-skip, rule_Adds}
use egresswall.Nft.Apply.Body.{body_end}
use egresswall.Nft.Apply.Whole.{spared, when-or_else, chain_body-Adds}

abbrev pub loopback : Text
loopback = codes "lo" ++ (0 ∷ 0 ∷ 0 ∷ 0 ∷ 0 ∷ 0 ∷ 0 ∷ 0 ∷ 0 ∷ 0 ∷ 0 ∷ 0 ∷ 0 ∷ 0 ∷ [])

chain_Adds :
    (t : Traffic) (c d : Text) (k : Hook) (v : Verdict) (h : Handle)
    → Adds t c h (push h (add_chain d k v)) (when (text_eq d c) none)
unfolding fate
chain_Adds t c d k v h = record {
  more = add_chain d k v ∷ [];
  grown = refl;
  same_sets = refl;
  more_fate = λ l. never (text_eq d c);
}
  where
    never : (b : Bool) → none ≡ when b none
    never true = refl
    never false = refl

run-loopback_accept :
    (t : Traffic) → run t loopback_accept [] none ≡ spared (at_start t.interface loopback)
unfolding run loopback_accept
run-loopback_accept t = refl

run-oif_prefix_accept :
    (t : Traffic) (pfx : Text)
    → run t (oif_prefix_accept pfx) [] none ≡ spared (at_start t.interface pfx)
unfolding run oif_prefix_accept
run-oif_prefix_accept t pfx = refl

or_else-spared :
    (b : Bool) (e : Option Ending) → or_else (spared b) e ≡ (if b then some accepted else e)
or_else-spared true e = refl
or_else-spared false e = refl

bridge_Adds :
    (t : Traffic) (c : Text) (ps : List Text) (h : Handle)
    → Adds t c h
        (bridge_rules ps h)
        (when (text_eq forward_chain c) (spared (any (λ p. at_start t.interface p) ps)))
unfolding bridge_rules
bridge_Adds t c [] h = Adds-skip t c h h (text_eq forward_chain c) refl refl
bridge_Adds t c (p ∷ ps) h =
    subst (λ e. Adds t c h (bridge_rules (p ∷ ps) h) e)
      (when-or_else (text_eq forward_chain c) _ _
        ∙ ap (when (text_eq forward_chain c))
            (either (at_start t.interface p) (any (λ q. at_start t.interface q) ps)))
      (Adds-trans t c h _ _ _ _
        (rule_Adds t c forward_chain h (oif_prefix_accept p) _ (λ l. run-oif_prefix_accept t p))
        (bridge_Adds t c ps (rule forward_chain (oif_prefix_accept p) h)))
  where
    either : (b later : Bool) → or_else (spared b) (spared later) ≡ spared (b || later)
    either true later = refl
    either false later = refl

ends :
    (b first : Bool) (e : Option Ending)
    → or_else (when b none) (or_else (when b (spared first)) (when b e))
      ≡ when b (if first then some accepted else e)
ends true true e = refl
ends true false e = refl
ends false first e = refl

module _ (sys : System) (t : Traffic) (sets : SetState) (f : Flow) where
  -- What the output chain does, said by the plan, and what the forward chain does.
  abbrev pub output_end : Plan → Option Ending
  output_end p =
      if at_start t.interface loopback then some accepted else body_end sys.stat p false sets f t

  abbrev pub forward_end : Plan → Option Ending
  forward_end p =
      if any (λ q. at_start t.interface q) bridge_prefixes
      then some accepted
      else body_end sys.stat p true sets f t

module _ (sys : System) (t : Traffic) (c : Text) (sets : SetState) (f : Flow) where
  pub output_rules-Adds :
      (p : Plan) (h h' : Handle)
      → All IsSendable p.atoms
      → Carries h.sets sets sys.stat f t
      → output_rules sys p h ≡ ok h'
      → Adds t c h h' (when (text_eq chain_name c) (output_end sys t sets f p))
  unfolding output_rules
  output_rules-Adds p h h' all carries made =
      let with_chain : Handle = push h (add_chain chain_name output (chain_policy p)) in
      let start : Handle = rule chain_name loopback_accept with_chain in
      let one = chain_Adds t c chain_name output (chain_policy p) h in
      let two =
        rule_Adds t c chain_name with_chain loopback_accept _ (λ l. run-loopback_accept t) in
      let three =
        chain_body-Adds sys t c chain_name sets f p false start h' all
          (subst (λ names. Carries names sets sys.stat f t) (sym (two.same_sets ∙ one.same_sets))
            carries)
          made in
      subst (λ e. Adds t c h h' e) (ends (text_eq chain_name c) (at_start t.interface loopback) _)
        (Adds-trans t c h with_chain h' _ _ one (Adds-trans t c with_chain start h' _ _ two three))

  forwarded_Adds :
      (p : Plan) (h h' : Handle)
      → All IsSendable p.atoms
      → Carries h.sets sets sys.stat f t
      → chain_body sys forward_chain p true
          (bridge_rules bridge_prefixes (push h (add_chain forward_chain forward (chain_policy p))))
        ≡ ok h'
      → Adds t c h h' (when (text_eq forward_chain c) (forward_end sys t sets f p))
  forwarded_Adds p h h' all carries made =
      let with_chain : Handle = push h (add_chain forward_chain forward (chain_policy p)) in
      let start : Handle = bridge_rules bridge_prefixes with_chain in
      let one = chain_Adds t c forward_chain forward (chain_policy p) h in
      let two = bridge_Adds t c bridge_prefixes with_chain in
      let three =
        chain_body-Adds sys t c forward_chain sets f p true start h' all
          (subst (λ names. Carries names sets sys.stat f t) (sym (two.same_sets ∙ one.same_sets))
            carries)
          made in
      subst (λ e. Adds t c h h' e)
        (ends (text_eq forward_chain c) (any (λ q. at_start t.interface q) bridge_prefixes) _)
        (Adds-trans t c h with_chain h' _ _ one (Adds-trans t c with_chain start h' _ _ two three))

  pub forward_rules-Adds :
      (p : Plan) (h h' : Handle)
      → All IsSendable p.atoms
      → Carries h.sets sets sys.stat f t
      → forward_rules sys p h ≡ ok h'
      → Adds t c h h' (when (p.forward && text_eq forward_chain c) (forward_end sys t sets f p))
  unfolding forward_rules
  forward_rules-Adds p h h' all carries made = elim (Bool-cases p.forward) [
    | inl wanted ↦ rw wanted (forwarded_Adds p h h' all carries (ground arith))
    | inr unwanted ↦
        (let same : h ≡ h' = ground arith in
          rw unwanted (subst (λ x. Adds t c h x none) same (Adds-skip t c h h false refl refl)))
  ]
