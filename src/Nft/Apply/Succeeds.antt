-- ===== src/Nft/Apply/Succeeds.antt =====
-- internal/nft/apply_linux.go, `Apply`: it loads the plan of every policy where the system refuses nothing.
use egresswall.Common.{
  ℕ, Bool, true, false, List, [], ◌∷◌, ◌++◌, map, any, All, Option, none, some, ◌≡◌, ◌≢◌, ◌⊎◌, inl,
  inr, refl, ◌∙◌, arith, if◌then◌else◌, is_nil, ok, err, each_ok_total, ok-bind, Bool-cases, ◌==◌,
}
use egresswall.Text.{Text, text_eq, text_eq_iff}
use egresswall.Netip.{Prefix}
use egresswall.Policy.{RuleSet}
use egresswall.Nft.Plan.{Atom, SetDef, Plan, in_chain}
use egresswall.Nft.Sets.{Defined, LooksUp, build-LooksUp}
use egresswall.Nft.Exprs.{
  Expr, Message, Handle, Kernel, CgroupStat, inode, absent, unreadable, cgroup_missing,
  no_connection, delete_table, add_table, add_chain, output, forward, push, cgroup_id, cgroup_exprs,
  address_exprs, set_exprs, proto_exprs, tcp_or_udp, atom_exprs, established_accept, refuse,
  loopback_accept,
}
use egresswall.Nft.Apply.{
  System, housekeeping, rule, housekeeping_step, add_missing, atom_rule, atom_step, chain_body,
  delete_own, own_tables, define_set, chain_policy, output_rules, bridge_rules, bridge_prefixes,
  chain_name, forward_chain, forward_rules, flush, apply,
}
use egresswall.Nft.Apply.Decides.{define_sets-names}
use egresswall.Nft.Apply.Evaluated.{plan_of}

-- The library takes everything, tables can be listed, and every cgroup path is there or is not.
pub record IsWilling (sys : System) : Type 0 where
  pub connects : sys.connects ≡ true
  pub lists : (names : List Text) × (sys.tables ≡ some names)
  pub takes : (m : Message) → sys.refuses m ≡ false
  pub flushes : (ms : List Message) → sys.flushes ms ≡ true
  pub stats : (path : Text) → sys.stat path ≢ unreadable

any-Defined :
    (name : Text) (defs : List SetDef)
    → Defined name defs
    → any (text_eq name) (map (λ d. d.name) defs) ≡ true
any-Defined name [] h = absurd h
any-Defined name (d ∷ defs) h = ground (arith, text_eq_iff name d.name, any-Defined name defs)

CgroupStat-known : (s : CgroupStat) → s ≢ unreadable → ((n : ℕ) × (s ≡ inode n)) ⊎ (s ≡ absent)
CgroupStat-known (inode n) h = inl (n, refl)
CgroupStat-known absent h = inr refl
CgroupStat-known unreadable h = absurd (h refl)

-- The result is one that the loop over the atoms goes on with.
abbrev Goes : Handle → Kernel (Handle × List Expr) → Type 0
Goes h r =
    ((after : Handle) × (es : List Expr) × (r ≡ ok (after, es)) × (after.sets ≡ h.sets))
    ⊎ (r ≡ err cgroup_missing)

module _ (sys : System) (willing : IsWilling sys) where
  cgroup_goes :
      (a : Atom)
      → ((es : List Expr) × (cgroup_exprs sys.stat a ≡ ok es))
        ⊎ ((cgroup_exprs sys.stat a ≡ err cgroup_missing) × (is_nil a.cgroup ≡ false))
  unfolding cgroup_exprs cgroup_id
  cgroup_goes a = elim (Bool-cases (is_nil a.cgroup)) [
    | inl free ↦ rw free (inl ([], refl))
    | inr named ↦ elim (CgroupStat-known (sys.stat a.cgroup) (willing.stats a.cgroup)) [
      | inl (n, there) ↦ rw (named, cgroup_id, there) (inl (_, refl))
      | inr gone ↦ rw (named, cgroup_id, gone) (inr (refl, refl))
    ]
  ]

  address_goes :
      (h : Handle) (defs : List SetDef) (a : Atom)
      → LooksUp defs a
      → h.sets ≡ map (λ d. d.name) defs
      → (es : List Expr) × (address_exprs h a.family a.prefix a.set ≡ ok es)
  unfolding address_exprs set_exprs
  address_goes h defs a looks same = by_address a.prefix
    where
      by_address :
          (p : Option Prefix) → (es : List Expr) × (address_exprs h a.family p a.set ≡ ok es)
      by_address (some p) = (_, refl)
      by_address none = elim (Bool-cases (is_nil a.set)) [
        | inl nothing ↦ rw nothing (_, refl)
        | inr named ↦
            (let there : any (text_eq a.set) h.sets ≡ true =
                rw same (ground (arith, any-Defined a.set defs)) in
              rw (named, there) (_, refl))
      ]

  proto_goes :
      (h : Handle) (a : Atom)
      → (after : Handle) × (es : List Expr) × (proto_exprs sys.refuses h a ≡ ok (after, es))
        × (after.sets ≡ h.sets)
  unfolding proto_exprs tcp_or_udp
  proto_goes h a = elim (Bool-cases (is_nil a.proto)) [
    | inl free ↦ elim (Bool-cases (a.port.hi == 0)) [
      | inl none_wanted ↦ rw (free, none_wanted) (h, [], refl, refl)
      | inr wanted ↦ rw (free, wanted, willing.takes) (_, _, refl, refl)
    ]
    | inr named ↦ rw named (h, _, refl, refl)
  ]

  atom-Goes :
      (h : Handle) (defs : List SetDef) (a : Atom)
      → LooksUp defs a
      → h.sets ≡ map (λ d. d.name) defs
      → Goes h (atom_exprs sys.stat sys.refuses h a)
  unfolding atom_exprs
  atom-Goes h defs a looks same = elim (cgroup_goes a) [
    | inr (gone, _) ↦ inr (rw gone refl)
    | inl (cg, cg_ok) ↦
        (let (ad, ad_ok) = address_goes h defs a looks same in
          let (after, pr, pr_ok, kept) = proto_goes h a in
          rw (cg_ok, ad_ok, pr_ok) (inl (after, _, refl, kept)))
  ]

  atom_step_total :
      (c : Text) (fwd : Bool) (defs : List SetDef) (h : Handle) (a : Atom)
      → h.sets ≡ map (λ d. d.name) defs
      → LooksUp defs a
      → (t : Handle) × (atom_step sys c fwd h a ≡ ok t) × (t.sets ≡ map (λ d. d.name) defs)
  unfolding atom_step atom_rule add_missing rule
  atom_step_total c fwd defs h a same looks = elim (Bool-cases (in_chain a fwd)) [
    | inr left ↦ rw left (h, refl, same)
    | inl wanted ↦ elim (atom-Goes h defs a looks same) [
      | inl (after, es, made, kept) ↦ rw (wanted, made) (rule c es after, refl, kept ∙ same)
      | inr gone ↦ rw (wanted, gone) (add_missing a.cgroup h, refl, ground arith)
    ]
  ]

  housekeeping_step_total :
      (c : Text) (names : List Text) (h : Handle) (p : Prefix)
      → h.sets ≡ names
      → Unit {0}
      → (t : Handle) × (housekeeping_step sys c h p ≡ ok t) × (t.sets ≡ names)
  unfolding housekeeping_step rule atom_exprs cgroup_exprs address_exprs proto_exprs
  housekeeping_step_total c names h p same _ = (_, refl, same)

  define_set_total :
      (h : Handle) (d : SetDef)
      → Unit {0}
      → Unit {0}
      → (t : Handle) × (define_set sys h d ≡ ok t) × Unit {0}
  unfolding define_set
  define_set_total h d _ _ = rw (willing.takes) (_, refl, tt)

  chain_body_total :
      (c : Text) (p : Plan) (fwd : Bool) (h : Handle)
      → All (LooksUp p.sets) p.atoms
      → h.sets ≡ map (λ d. d.name) p.sets
      → (t : Handle) × (chain_body sys c p fwd h ≡ ok t) × (t.sets ≡ map (λ d. d.name) p.sets)
  unfolding chain_body rule
  chain_body_total c p fwd h looks same =
      let names : List Text = map (λ d. d.name) p.sets in
      let (kept, kept_made, kept_same) =
        each_ok_total (λ (x : Handle). x.sets ≡ names) (λ q. Unit {0}) (housekeeping_step sys c)
          (housekeeping_step_total c names) housekeeping (rule c established_accept h)
          (tt, (tt, (tt, tt))) same in
      let (done, done_made, done_same) =
        each_ok_total (λ (x : Handle). x.sets ≡ names) (LooksUp p.sets) (atom_step sys c fwd)
          (atom_step_total c fwd p.sets) p.atoms kept looks kept_same in
      rw (kept_made, done_made) (last p.default_deny done done_same)
    where
      last :
          (b : Bool) (done : Handle)
          → done.sets ≡ map (λ d. d.name) p.sets
          → (t : Handle) × (◌≡◌ {A = Kernel Handle}
              (ok (if b then rule c (refuse []) done else done))
              (ok t))
            × (t.sets ≡ map (λ d. d.name) p.sets)
      last true done e = (_, refl, e)
      last false done e = (_, refl, e)

  bridge_rules-sets : (ps : List Text) (h : Handle) → (bridge_rules ps h).sets ≡ h.sets
  unfolding bridge_rules rule
  bridge_rules-sets [] h = refl
  bridge_rules-sets (p ∷ ps) h = bridge_rules-sets ps _

  forward_rules_total :
      (p : Plan) (h : Handle)
      → All (LooksUp p.sets) p.atoms
      → h.sets ≡ map (λ d. d.name) p.sets
      → (t : Handle) × (forward_rules sys p h ≡ ok t)
  unfolding forward_rules
  forward_rules_total p h looks same =
      let with_chain : Handle = push h (add_chain forward_chain forward (chain_policy p)) in
      let (t, made, _) =
        chain_body_total forward_chain p true (bridge_rules bridge_prefixes with_chain) looks
          (bridge_rules-sets bridge_prefixes with_chain ∙ same) in
      either p.forward t made
    where
      either :
          {r : Kernel Handle} (b : Bool) (t : Handle)
          → r ≡ ok t
          → (x : Handle) × ((if b then r else ok h) ≡ ok x)
      either true t made = (t, made)
      either false t made = (h, refl)

  connected :
      (names : List Text)
      → sys.tables ≡ some names
      → (if sys.connects then delete_own sys else err no_connection)
        ≡ ok (map (λ t. delete_table) (own_tables names))
  unfolding delete_own
  connected names lists = ground (arith, willing.connects)

  flushed : (h : Handle) → flush sys h ≡ ok h
  unfolding flush
  flushed h = ground (arith, willing.flushes h.messages)

  -- Where the library takes every message and batch, the tables can be listed, and every cgroup path is
  -- there or is not, Apply loads the plan of Build: no atom of it looks up a set that is not defined.
  pub apply-succeeds :
      (s : RuleSet) (fwd : Bool) → (h : Handle) × (apply sys (plan_of s fwd) ≡ ok h)
  unfolding apply output_rules
  apply-succeeds s fwd =
      let p : Plan = plan_of s fwd in
      let (listed, lists) = willing.lists in
      let start : Handle = record {
        sets = [];
        anon = 0;
        missing = [];
        messages = map (λ t. delete_table) (own_tables listed) ++ (add_table ∷ []);
      } in
      let (defined, defined_made, _) =
        each_ok_total (λ x. Unit {0}) (λ d. Unit {0}) (define_set sys) define_set_total p.sets start
          (units p.sets) tt in
      let same = define_sets-names sys p.sets start defined defined_made in
      let (out, out_made, out_same) =
        chain_body_total chain_name p false
          (rule chain_name loopback_accept
            (push defined (add_chain chain_name output (chain_policy p))))
          (build-LooksUp s) same in
      let (done, done_made) = forward_rules_total p out (build-LooksUp s) out_same in
      (
        done,
        ok-bind _ _ _ (connected listed lists)
            ∙ ok-bind _ _ defined defined_made
            ∙ ok-bind _ _ out out_made
            ∙ ok-bind _ _ done done_made
            ∙ flushed done,
      )
    where
      units : (xs : List SetDef) → All {0, 0} (λ x. Unit {0}) xs
      units [] = tt
      units (x ∷ xs) = (tt, units xs)
