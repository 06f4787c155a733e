-- ===== src/Learn/Write/Hits.antt =====
-- internal/learn/write.go, `WritePolicy`: the hits of the rules that are written.
use egresswall.Common.{
  ℕ, ◌+◌, List, [], ◌∷◌, Option, none, some, ◌≡◌, inl, inr, refl, arith, Bool-cases,
}
use egresswall.Common.Maps.{get, put}
use egresswall.Text.{Text, text_key}
use egresswall.Learn.{Entry}
use egresswall.Learn.Write.{
  Observed, HostRule, Written, merge, rule_for, is_metadata, group_entry, group_entries,
}

unfoldable pub rule_hits : List (Text × HostRule) → ℕ
rule_hits [] = 0
rule_hits ((host, r) ∷ rest) = r.hits + rule_hits rest

unfoldable pub entry_hits : List Observed → ℕ
entry_hits [] = 0
entry_hits (o ∷ rest) = o.entry.hits + entry_hits rest

abbrev hits_of : Option HostRule → ℕ
hits_of none = 0
hits_of (some r) = r.hits

rule_hits-put :
    (host : Text) (r : HostRule) (rules : List (Text × HostRule))
    → rule_hits (put host r rules) + hits_of (get host rules) ≡ r.hits + rule_hits rules
unfolding rule_hits put get
rule_hits-put host r [] = omega arith
rule_hits-put host r ((other, q) ∷ rules) = ground (arith, rule_hits-put host r rules)

rule_for-hits : (o : Option HostRule) (e : Entry) → (rule_for o e).hits ≡ hits_of o
rule_for-hits none e = refl
rule_for-hits (some r) e = refl

hits-group_entry :
    (w : Written) (o : Observed)
    → (group_entry w o).metadata_hits + rule_hits (group_entry w o).rules
      ≡ w.metadata_hits + rule_hits w.rules + o.entry.hits
unfolding group_entry merge
hits-group_entry w o = elim (Bool-cases (is_metadata o.entry)) [
  | inl metadata ↦ rw metadata (omega arith)
  | inr plain ↦ rw plain (
      let r : HostRule = merge (rule_for (get o.entry.host w.rules) o.entry) o in
      omega (
        arith,
        rule_hits-put o.entry.host r w.rules,
        rule_for-hits (get o.entry.host w.rules) o.entry,
      ))
]

-- No hit is lost: those of the rules that are written and of the metadata address together are those of
-- the entries.
pub hits-group_entries :
    (w : Written) (entries : List Observed)
    → (group_entries w entries).metadata_hits + rule_hits (group_entries w entries).rules
      ≡ w.metadata_hits + rule_hits w.rules + entry_hits entries
unfolding group_entries entry_hits
hits-group_entries w [] = omega arith
hits-group_entries w (o ∷ rest) =
    omega (arith, hits-group_entries (group_entry w o) rest, hits-group_entry w o)
