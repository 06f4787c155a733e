-- ===== src/Learn/Write/Grouped.antt =====
-- internal/learn/write.go, `WritePolicy`: what the rules say of the observed destinations.
use egresswall.Common.{
  ◌≤◌, Bool, true, false, List, [], ◌∷◌, All, All-implies, Any, Any-append_left, Any-append_right,
  some, ◌≡◌, inl, inr, refl, ◌∙◌, subst, arith, if◌then◌else◌, Bool-cases, Option-cases,
}
use egresswall.Common.Maps.{get, get-put}
use egresswall.Text.{Text, text_eq, text_eq_iff, text_key}
use egresswall.Learn.{Entry}
use egresswall.Learn.Write.{
  Observed, HostRule, Written, merge, rule_for, is_metadata, group_entry, group_entries, proto_of,
}

-- The rule speaks for the entry: its port is listed, its protocol is one of those seen, and it was seen
-- within the times of the rule.
pub record Speaks (r : HostRule) (e : Entry) : Type 0 where
  pub port : Any (λ p. p ≡ e.port) r.ports
  pub proto : get e.proto r.protos ≡ some true
  pub first : r.first ≤ e.first
  pub last : e.last ≤ r.last

abbrev pub Grouped : Written → Entry → Type 0
Grouped w e = (r : HostRule) × (get e.host w.rules ≡ some r) × (r.host ≡ e.host) × Speaks r e

Speaks-merge_new : (r : HostRule) (o : Observed) → Speaks (merge r o) o.entry
unfolding merge
Speaks-merge_new r o = record {
  port = Any-append_right _ r.ports (o.entry.port ∷ []) (inl refl);
  proto = ground (
    arith,
    get-put o.entry.proto o.entry.proto true r.protos,
    text_eq_iff o.entry.proto o.entry.proto,
  );
  first = ground arith;
  last = ground arith;
}

Speaks-merge_old : (r : HostRule) (o : Observed) (e : Entry) → Speaks r e → Speaks (merge r o) e
unfolding merge
Speaks-merge_old r o e h = record {
  port = Any-append_left _ r.ports (o.entry.port ∷ []) h.port;
  proto = ground (arith, h.proto, get-put o.entry.proto e.proto true r.protos);
  first = ground (arith, h.first);
  last = ground (arith, h.last);
}

-- Every rule stands under its own host.
abbrev pub AtHosts : Written → Type 0
AtHosts w = (host : Text) (r : HostRule) → get host w.rules ≡ some r → r.host ≡ host

rule_for-host :
    (w : Written) (e : Entry) → AtHosts w → (rule_for (get e.host w.rules) e).host ≡ e.host
rule_for-host w e h = elim (Option-cases (get e.host w.rules)) [
  | inl fresh ↦ rw fresh refl
  | inr (r, there) ↦ rw there (h e.host r there)
]

get-group_entry :
    (w : Written) (o : Observed) (host : Text)
    → is_metadata o.entry ≡ false
    → get host (group_entry w o).rules ≡ (
        if text_eq o.entry.host host
        then some (merge (rule_for (get o.entry.host w.rules) o.entry) o)
        else get host w.rules)
unfolding group_entry
get-group_entry w o host plain = rw plain (get-put o.entry.host host _ w.rules)

metadata-group_entry :
    (w : Written) (o : Observed) → is_metadata o.entry ≡ true → (group_entry w o).rules ≡ w.rules
unfolding group_entry
metadata-group_entry w o metadata = rw metadata refl

group_entry-AtHosts : (w : Written) (o : Observed) → AtHosts w → AtHosts (group_entry w o)
unfolding merge
group_entry-AtHosts w o h host r there = elim (Bool-cases (is_metadata o.entry)) [
  | inl metadata ↦
      h host r (subst (λ rules. get host rules ≡ some r) (metadata-group_entry w o metadata) there)
  | inr plain ↦ ground (
    arith,
    get-group_entry w o host plain,
    rule_for-host w o.entry h,
    h host r,
    text_eq_iff o.entry.host host,
  )
]

group_entry-Grouped_new :
    (w : Written) (o : Observed)
    → AtHosts w
    → is_metadata o.entry ≡ false
    → Grouped (group_entry w o) o.entry
unfolding merge
group_entry-Grouped_new w o h plain =
    let r : HostRule = rule_for (get o.entry.host w.rules) o.entry in
    (
      merge r o,
      ground (arith, get-group_entry w o o.entry.host plain, text_eq_iff o.entry.host o.entry.host),
      rule_for-host w o.entry h,
      Speaks-merge_new r o,
    )

group_entry-Grouped_old :
    (w : Written) (o : Observed) (e : Entry) → Grouped w e → Grouped (group_entry w o) e
unfolding merge
group_entry-Grouped_old w o e (r, there, host, speaks) = elim (Bool-cases (is_metadata o.entry)) [
  | inl metadata ↦ (r, rw (metadata-group_entry w o metadata) there, host, speaks)
  | inr plain ↦ elim (Bool-cases (text_eq o.entry.host e.host)) [
    | inl same ↦
        (let e1 : o.entry.host ≡ e.host = (text_eq_iff o.entry.host e.host).0 same in
          let found : rule_for (get o.entry.host w.rules) o.entry ≡ r = rw (e1, there) refl in
          (
            merge r o,
            get-group_entry w o e.host plain ∙ rw (same, found) refl,
            host,
            Speaks-merge_old r o e speaks,
          ))
    | inr other ↦ (r, get-group_entry w o e.host plain ∙ rw (other, there) refl, host, speaks)
  ]
]

group_entries-Grouped_old :
    (w : Written) (entries : List Observed) (e : Entry)
    → Grouped w e
    → Grouped (group_entries w entries) e
unfolding group_entries
group_entries-Grouped_old w [] e h = h
group_entries-Grouped_old w (o ∷ rest) e h =
    group_entries-Grouped_old (group_entry w o) rest e (group_entry-Grouped_old w o e h)

group_entries-Grouped_from :
    (w : Written) (entries : List Observed)
    → AtHosts w
    → All (λ o. is_metadata o.entry ≡ false → Grouped (group_entries w entries) o.entry) entries
unfolding group_entries
group_entries-Grouped_from w [] h = tt
group_entries-Grouped_from w (o ∷ rest) h = (
  λ plain.
      group_entries-Grouped_old (group_entry w o) rest o.entry
        (group_entry-Grouped_new w o h plain),
  group_entries-Grouped_from (group_entry w o) rest (group_entry-AtHosts w o h),
)

abbrev pub nothing_written : Written
nothing_written = record { rules = []; metadata_hits = 0 }

-- Where the rule of a host is written with a protocol, that is the protocol of every entry it speaks for.
proto_of-Speaks :
    (r : HostRule) (e : Entry) (p : Text) → Speaks r e → proto_of r.protos ≡ some p → p ≡ e.proto
unfolding proto_of get
proto_of-Speaks r e p h = by_protos r.protos h.proto
  where
    by_protos :
        (protos : List (Text × Bool))
        → get e.proto protos ≡ some true
        → proto_of protos ≡ some p
        → p ≡ e.proto
    by_protos [] there line = cc
    by_protos ((q, seen) ∷ []) there line = ground (arith, text_eq_iff q e.proto)
    by_protos (a ∷ b ∷ more) there line = cc

-- The rule that is written for the host of the entry allows its port and its protocol, and its times span
-- those of the entry.
pub record IsCovered (w : Written) (e : Entry) : Type 0 where
  pub rule : HostRule
  pub there : get e.host w.rules ≡ some rule
  pub host : rule.host ≡ e.host
  pub port : Any (λ p. p ≡ e.port) rule.ports
  pub proto : (p : Text) → proto_of rule.protos ≡ some p → p ≡ e.proto
  pub first : rule.first ≤ e.first
  pub last : e.last ≤ rule.last

Grouped-IsCovered : (w : Written) (e : Entry) → Grouped w e → IsCovered w e
Grouped-IsCovered w e (r, there, host, speaks) = record {
  rule = r;
  there = there;
  host = host;
  port = speaks.port;
  proto = λ p line. proto_of-Speaks r e p speaks line;
  first = speaks.first;
  last = speaks.last;
}

-- Every observed destination but the metadata address has a rule of its host that lists its port, whose
-- protocol, where one is written, is its own, and which spans the times at which it was seen.
pub group_entries-IsCovered :
    (entries : List Observed)
    → All
        (λ o.
          is_metadata o.entry ≡ false → IsCovered (group_entries nothing_written entries) o.entry)
        entries
unfolding get
group_entries-IsCovered entries =
    All-implies _ _ entries (λ o grouped plain. Grouped-IsCovered _ o.entry (grouped plain))
      (group_entries-Grouped_from nothing_written entries (λ host r there. cc))
