-- ===== src/Nft/Apply/Chains.antt =====
-- internal/nft/apply_linux.go: what the chains that Apply loads do with a packet, rule by rule.
use egresswall.Common.{
  Bool, true, false, not, ◌&&◌, ◌||◌, List, [], ◌∷◌, ◌++◌, append_assoc, append-nil,
  Any-append_left, Option, none, some, ◌≡◌, inl, inr, refl, ap, sym, ◌∙◌, subst, if◌then◌else◌,
  is_nil, ok, Bool-cases,
}
use egresswall.Text.{Text, text_eq}
use egresswall.Nft.Plan.{Atom, in_chain}
use egresswall.Nft.Exprs.{
  Expr, Message, add_anonymous_set, add_rule, CgroupStat, absent, Handle, atom_exprs,
}
use egresswall.Nft.Exprs.Machine.{Traffic, Ending, run, Loaded}
use egresswall.Nft.Exprs.Faithful.{ending_of, atom_exprs-after}
use egresswall.Nft.Apply.{rule}

abbrev pub or_else : Option Ending → Option Ending → Option Ending
or_else none later = later
or_else (some e) later = some e

-- What the rules of a chain do with a packet, in their order; none leaves it to the chain's policy.
unfoldable pub fate : Traffic → Text → List Message → Option Ending
fate t c [] = none
fate t c (add_rule d exprs ∷ ms) =
    let rest = fate t c ms in if text_eq d c then or_else (run t exprs [] none) rest else rest
fate t c (m ∷ ms) = fate t c ms

or_else_assoc : (a b c : Option Ending) → or_else (or_else a b) c ≡ or_else a (or_else b c)
or_else_assoc none b c = refl
or_else_assoc (some e) b c = refl

pub fate-append :
    (t : Traffic) (c : Text) (ms ns : List Message)
    → fate t c (ms ++ ns) ≡ or_else (fate t c ms) (fate t c ns)
unfolding fate
fate-append t c [] ns = refl
fate-append t c (add_rule d exprs ∷ ms) ns = elim (Bool-cases (text_eq d c)) [
  | inl same ↦
      rw (same, fate-append t c ms ns)
        (sym (or_else_assoc (run t exprs [] none) (fate t c ms) (fate t c ns)))
  | inr other ↦ rw other (fate-append t c ms ns)
]
fate-append t c (_ ∷ ms) ns = fate-append t c ms ns

abbrev pub is_absent : CgroupStat → Bool
is_absent absent = true
is_absent _ = false

-- Whether the chain has a rule for the atom.
abbrev pub loaded : (Text → CgroupStat) → Bool → Atom → Bool
loaded stat fwd a = in_chain a fwd && (is_nil a.cgroup || not (is_absent (stat a.cgroup)))

abbrev pub loaded_atoms : (Text → CgroupStat) → Bool → List Atom → List Atom
loaded_atoms stat fwd [] = []
loaded_atoms stat fwd (a ∷ rest) =
    let later = loaded_atoms stat fwd rest in if loaded stat fwd a then a ∷ later else later

abbrev pub hit_ending : Option Atom → Option Ending
hit_ending none = none
hit_ending (some a) = some (ending_of a.verdict a.rule)

abbrev pub when : Bool → Option Ending → Option Ending
when b e = if b then e else none

-- From one state of the handle to a later one, the batch grows by messages with this fate, for a packet
-- that finds the anonymous sets of the batch.
pub record Adds (t : Traffic) (c : Text) (h h' : Handle) (e : Option Ending) : Type 0 where
  pub more : List Message
  pub grown : h'.messages ≡ h.messages ++ more
  pub same_sets : h'.sets ≡ h.sets
  pub more_fate : Loaded h'.messages t → fate t c more ≡ e

pub Loaded-append : (t : Traffic) (ms ns : List Message) → Loaded (ms ++ ns) t → Loaded ms t
Loaded-append t ms ns l name elements there = l name elements (Any-append_left _ ms ns there)

pub Adds-trans :
    (t : Traffic) (c : Text) (h h1 h2 : Handle) (e1 e2 : Option Ending)
    → Adds t c h h1 e1
    → Adds t c h1 h2 e2
    → Adds t c h h2 (or_else e1 e2)
Adds-trans t c h h1 h2 e1 e2 a b =
    let grown : h2.messages ≡ h.messages ++ (a.more ++ b.more) =
      b.grown ∙ ap (λ ms. ms ++ b.more) a.grown ∙ append_assoc h.messages a.more b.more in
    record {
      more = a.more ++ b.more;
      grown = grown;
      same_sets = b.same_sets ∙ a.same_sets;
      more_fate = λ l.
          let early : Loaded h1.messages t =
            Loaded-append t h1.messages b.more (subst (λ ms. Loaded ms t) b.grown l) in
          fate-append t c a.more b.more ∙ rw (a.more_fate early, b.more_fate l) refl;
    }

-- Where the batch stays.
pub Adds-skip :
    (t : Traffic) (c : Text) (h h' : Handle) (b : Bool)
    → h'.messages ≡ h.messages
    → h'.sets ≡ h.sets
    → Adds t c h h' (when b none)
unfolding fate
Adds-skip t c h h' b same sets = record {
  more = [];
  grown = same ∙ sym (append-nil h.messages);
  same_sets = sets;
  more_fate = λ l. never b;
}
  where
    never : (b : Bool) → none ≡ when b none
    never true = refl
    never false = refl

pub Adds-nothing : (t : Traffic) (c : Text) (h : Handle) → Adds t c h h none
unfolding fate
Adds-nothing t c h = record {
  more = [];
  grown = sym (append-nil h.messages);
  same_sets = refl;
  more_fate = λ l. refl;
}

pub rule_Adds :
    (t : Traffic) (c d : Text) (h : Handle) (exprs : List Expr) (e : Option Ending)
    → (Loaded (rule d exprs h).messages t → run t exprs [] none ≡ e)
    → Adds t c h (rule d exprs h) (when (text_eq d c) e)
unfolding fate rule
rule_Adds t c d h exprs e ends = record {
  more = add_rule d exprs ∷ [];
  grown = refl;
  same_sets = refl;
  more_fate = λ l. rw (ends l) (last_or e (text_eq d c));
}
  where
    last_or : (e : Option Ending) (b : Bool) → (if b then or_else e none else none) ≡ when b e
    last_or none b = refl
    last_or (some e) b = refl

pub after_Adds :
    (t : Traffic) (c : Text) (stat : Text → CgroupStat) (refuses : Message → Bool)
    (h after : Handle) (a : Atom) (es : List Expr)
    → atom_exprs stat refuses h a ≡ ok (after, es)
    → Adds t c h after none
unfolding fate
after_Adds t c stat refuses h after a es made =
    elim (atom_exprs-after stat refuses h after a es made) [
      | inl same ↦ subst (λ x. Adds t c h x none) (sym same) (Adds-nothing t c h)
      | inr (name, elements, grown, sets, _) ↦ record {
        more = add_anonymous_set name elements ∷ [];
        grown = grown;
        same_sets = sets;
        more_fate = λ l. refl;
      }
    ]
