-- ===== src/Learn/Write/Metadata.antt =====
-- internal/learn/write.go, `WritePolicy`: the metadata address gets no rule.
use egresswall.Common.{
  true, false, List, [], ◌∷◌, ◌++◌, All, All-implies, some, ◌≡◌, ◌≢◌, ◌⊎◌, inl, inr, refl, arith,
  Bool-cases, Option-cases,
}
use egresswall.Common.Maps.{get, put}
use egresswall.Text.{Text, codes, text_eq, text_eq_iff, text_key}
use egresswall.Learn.{Entry}
use egresswall.Learn.Write.{
  Observed, HostRule, Written, port_list, proto_line, proto_of, comment_of, merge, rule_for,
  is_metadata, metadata_ip, group_entry, group_entries, Formats, rule_text,
}
use egresswall.Learn.Write.Grouped.{nothing_written}

-- The rule of a host, where the metadata address is no such rule's but one of a name.
abbrev Sound : Text × HostRule → Type 0
Sound (host, r) = (r.host ≡ host) × ((r.domain ≡ true) ⊎ (host ≢ metadata_ip))

All-put :
    {V : Type 0} (P : Text × V → Type 0) (k : Text) (v : V) (m : List (Text × V))
    → P (k, v)
    → All P m
    → All P (put k v m)
unfolding put
All-put P k v [] new old = (new, tt)
All-put P k v ((j, w) ∷ m) new (here, old) = elim (Bool-cases (text_eq j k)) [
  | inl same ↦ rw (same, put) (new, old)
  | inr other ↦ rw (other, put) (here, All-put P k v m new old)
]

All-get :
    {V : Type 0} (P : Text × V → Type 0) (k : Text) (v : V) (m : List (Text × V))
    → All P m
    → get k m ≡ some v
    → P (k, v)
unfolding get
All-get P k v [] all there = cc
All-get P k v ((j, w) ∷ m) (here, old) there = ground (arith, text_eq_iff j k, All-get P k v m old)

-- The rule that an entry is merged into, which is one of its host.
rule_for-Sound :
    (rules : List (Text × HostRule)) (e : Entry)
    → All Sound rules
    → is_metadata e ≡ false
    → Sound (e.host, rule_for (get e.host rules) e)
rule_for-Sound rules e all plain = elim (Option-cases (get e.host rules)) [
  | inl fresh ↦ rw fresh (refl, ground (arith, text_eq_iff e.host metadata_ip))
  | inr (r, there) ↦ rw there (All-get Sound e.host r rules all there)
]

group_entry-Sound :
    (w : Written) (o : Observed) → All Sound w.rules → All Sound (group_entry w o).rules
unfolding group_entry merge
group_entry-Sound w o all = elim (Bool-cases (is_metadata o.entry)) [
  | inl metadata ↦ rw (metadata, group_entry) all
  | inr plain ↦
      rw (plain, group_entry)
        (All-put Sound o.entry.host (merge (rule_for (get o.entry.host w.rules) o.entry) o) w.rules
          (rule_for-Sound w.rules o.entry all plain) all)
]

group_entries-Sound :
    (w : Written) (entries : List Observed)
    → All Sound w.rules
    → All Sound (group_entries w entries).rules
unfolding group_entries
group_entries-Sound w [] all = all
group_entries-Sound w (o ∷ rest) all =
    group_entries-Sound (group_entry w o) rest (group_entry-Sound w o all)

-- The text of a rule that allows the host, under the key, and then lists the ports.
abbrev pub allowing : Formats → Text → Text → Text → Text
allowing fs key host rest =
    codes "  - name: "
    ++ (fs.quote host
        ++ (codes "\n"
            ++ (key ++ (fs.quote host ++ (codes "]\n" ++ (codes "    ports: [" ++ rest))))))

-- A rule whose text allows a name, or an address other than the one of the metadata service.
abbrev pub IsHarmless : Formats → Text × HostRule → Type 0
IsHarmless fs (_, r) =
    (host : Text) × (rest : Text) × ((rule_text fs r
        ≡ allowing fs (codes "    domains: [") host rest)
      ⊎ ((rule_text fs r ≡ allowing fs (codes "    cidrs: [") host rest) × (host ≢ metadata_ip)))

rule_text-IsHarmless : (fs : Formats) (e : Text × HostRule) → Sound e → IsHarmless fs e
unfolding rule_text
rule_text-IsHarmless fs (host, r) (same, safe) = (
  r.host,
  port_list fs r.ports
      ++ (codes "]\n"
          ++ (proto_line (proto_of r.protos)
              ++ (codes "    comment: " ++ (fs.quote (comment_of fs r) ++ codes "\n")))),
  elim (Bool-cases r.domain) [
    | inl named ↦ inl (rw (named, rule_text) refl)
    | inr plain ↦ inr (rw (plain, rule_text) refl, ground arith)
  ],
)

-- Whatever was observed, each rule that is written under `allow` is the text of one that allows a name,
-- or an address that is not the metadata address 169.254.169.254.
pub group_entries-All-IsHarmless :
    (fs : Formats) (entries : List Observed)
    → All (IsHarmless fs) (group_entries nothing_written entries).rules
group_entries-All-IsHarmless fs entries =
    All-implies Sound (IsHarmless fs) (group_entries nothing_written entries).rules
      (rule_text-IsHarmless fs) (group_entries-Sound nothing_written entries tt)
