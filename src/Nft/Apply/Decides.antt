-- ===== src/Nft/Apply/Decides.antt =====
-- internal/nft/apply_linux.go, `Apply`: the loaded chains decide new connections as the plan does.
use egresswall.Common.{
  Bool, true, false, ◌&&◌, List, [], ◌∷◌, ◌++◌, append_assoc, append-nil, map, All, Option, none,
  some, ◌≡◌, inl, inr, refl, ap, sym, ◌∙◌, subst, arith, if◌then◌else◌, ok, err, each_ok,
  bind-eq-ok, ok-injective, Option-cases,
}
use egresswall.Text.{Text, text_eq}
use egresswall.Nft.Plan.{SetDef, Plan}
use egresswall.Nft.Kernel.{Flow, SetState}
use egresswall.Nft.Exprs.{Message, delete_table, add_table, add_set, Handle, push, no_connection}
use egresswall.Nft.Exprs.Machine.{Traffic, Ending, Carries, Loaded, IsSendable}
use egresswall.Nft.Apply.{
  System, chain_name, forward_chain, delete_own, own_tables, define_set, output_rules,
  forward_rules, flush, apply,
}
use egresswall.Nft.Apply.Chains.{or_else, fate, fate-append, when, Adds-trans}
use egresswall.Nft.Apply.Ends.{output_end, forward_end, output_rules-Adds, forward_rules-Adds}

or_else-none : (e : Option Ending) → or_else e none ≡ e
or_else-none none = refl
or_else-none (some e) = refl

define_set-push :
    (sys : System) (h m : Handle) (d : SetDef)
    → define_set sys h d ≡ ok m
    → m ≡ push (record h { sets = h.sets ++ d.name ∷ [] }) (add_set d.name d.family)
unfolding define_set
define_set-push sys h m d here = ground arith

-- The sets of the handle are then the ones that the plan defines.
pub define_sets-names :
    (sys : System) (defs : List SetDef) (h h' : Handle)
    → each_ok (define_set sys) h defs ≡ ok h'
    → h'.sets ≡ h.sets ++ map (λ d. d.name) defs
unfolding each_ok
define_sets-names sys [] h h' made = rw (← ok-injective made) (sym (append-nil h.sets))
define_sets-names sys (d ∷ defs) h h' made =
    let (m, here, later) = bind-eq-ok (define_set sys h d) _ made in
    define_sets-names sys defs m h' later
    ∙ ap (λ x. x.sets ++ map (λ e. e.name) defs) (define_set-push sys h m d here)
    ∙ append_assoc h.sets (d.name ∷ []) _

-- Their messages are no rules of the chain.
define_sets-fate :
    (sys : System) (t : Traffic) (c : Text) (defs : List SetDef) (h h' : Handle)
    → each_ok (define_set sys) h defs ≡ ok h'
    → fate t c h'.messages ≡ fate t c h.messages
unfolding each_ok fate
define_sets-fate sys t c [] h h' made = rw (← ok-injective made) refl
define_sets-fate sys t c (d ∷ defs) h h' made =
    let (m, here, later) = bind-eq-ok (define_set sys h d) _ made in
    define_sets-fate sys t c defs m h' later
    ∙ ap (λ x. fate t c x.messages) (define_set-push sys h m d here)
    ∙ fate-append t c h.messages (add_set d.name d.family ∷ [])
    ∙ or_else-none (fate t c h.messages)

deletions :
    (t : Traffic) (c : Text) (names : List Text) (ms : List Message)
    → fate t c (map (λ n. delete_table) names ++ ms) ≡ fate t c ms
unfolding fate
deletions t c [] ms = refl
deletions t c (n ∷ names) ms = deletions t c names ms

start_fate :
    (sys : System) (t : Traffic) (c : Text) (start : List Message)
    → (if sys.connects then delete_own sys else err no_connection) ≡ ok start
    → fate t c (start ++ (add_table ∷ [])) ≡ none
unfolding delete_own fate
start_fate sys t c start made = elim (Option-cases sys.tables) [
  | inl failed ↦ absurd (ground arith)
  | inr (names, listed) ↦
      (let same : map (λ n. delete_table) (own_tables names) ≡ start = ground arith in
        rw (← same) (deletions t c (own_tables names) (add_table ∷ [])))
]

module _ (sys : System) (p : Plan) (sets : SetState) (f : Flow) (t : Traffic) (h : Handle)
    (made : apply sys p ≡ ok h) (all : All IsSendable p.atoms)
    (carries : Carries (map (λ d. d.name) p.sets) sets sys.stat f t)
    (there : Loaded h.messages t) where
  apply_end :
      (c : Text)
      → fate t c h.messages
        ≡ or_else
            (when (text_eq chain_name c) (output_end sys t sets f p))
            (when (p.forward && text_eq forward_chain c) (forward_end sys t sets f p))
  unfolding apply flush
  apply_end c =
      let (start, deleted, then1) =
        bind-eq-ok (if sys.connects then delete_own sys else err no_connection) _ made in
      let blank : Handle = record {
        sets = [];
        anon = 0;
        missing = [];
        messages = start ++ (add_table ∷ []);
      } in
      let (defined, sets_made, then2) =
        bind-eq-ok (each_ok (define_set sys) blank p.sets) _ then1 in
      let (out, out_made, then3) = bind-eq-ok (output_rules sys p defined) _ then2 in
      let (done, done_made, flushed) = bind-eq-ok (forward_rules sys p out) _ then3 in
      let same : done ≡ h = ground arith in
      let names = define_sets-names sys p.sets blank defined sets_made in
      let quiet = define_sets-fate sys t c p.sets blank defined sets_made in
      let carried = subst (λ ns. Carries ns sets sys.stat f t) (sym names) carries in
      let one = output_rules-Adds sys t c sets f p defined out all carried out_made in
      let two =
        forward_rules-Adds sys t c sets f p out done all
          (subst (λ ns. Carries ns sets sys.stat f t) (sym one.same_sets) carried) done_made in
      let both = Adds-trans t c defined out done _ _ one two in
      let l : Loaded done.messages t = subst (λ x. Loaded x.messages t) (sym same) there in
      ap (λ x. fate t c x.messages) (sym same)
      ∙ (ap (fate t c) both.grown
          ∙ (fate-append t c defined.messages both.more
              ∙ rw (quiet, start_fate sys t c start deleted) (both.more_fate l)))

  -- The output chain that Apply loads without an error, with its anonymous sets loaded as they are in its
  -- messages, for atoms whose prefixes and ports fit the registers and a packet over tcp or udp that carries
  -- the flow, with the state of the sets and the cgroups: a packet to the loopback interface, of a known connection or to a
  -- housekeeping address is accepted; else the first atom that matches decides, of those whose cgroup
  -- there is; with none it is refused under the prefix of the default where the default is deny, and else
  -- left to the policy of the chain.
  pub apply-output_end : fate t chain_name h.messages ≡ output_end sys t sets f p
  apply-output_end =
      apply_end chain_name
      ∙ alone (output_end sys t sets f p) (forward_end sys t sets f p) p.forward
    where
      alone : (e x : Option Ending) (b : Bool) → or_else e (when (b && false) x) ≡ e
      alone e x b = ground arith

  -- The forward chain that Apply loads without an error where it is asked for, with its anonymous sets
  -- loaded as they are in its messages, for atoms whose prefixes and ports fit the registers and a packet
  -- over tcp or udp that carries the flow, with the state of the sets and the cgroups: a packet to a bridge, of a known connection
  -- or to a housekeeping address is accepted; else the first atom that matches decides, of those that name
  -- no cgroup; with none it is refused under the prefix of the default where the default is deny, and else
  -- left to the policy of the chain.
  pub apply-forward_end :
      p.forward ≡ true → fate t forward_chain h.messages ≡ forward_end sys t sets f p
  apply-forward_end wanted = apply_end forward_chain ∙ rw wanted refl
