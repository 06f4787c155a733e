-- ===== src/Learn/Write.antt =====
-- internal/learn/write.go: the policy file that `WritePolicy` makes of the observed destinations.
-- Formats is how strconv and time print, `decode` what yaml.v3 reads; a file is written by `write`.
pub mod Hits
pub mod Grouped
pub mod Metadata
mod Tests
use egresswall.Common.{
  ℕ, ◌+◌, Bool, true, false, not, ◌&&◌, ◌||◌, List, [], ◌∷◌, ◌++◌, map, any, Option, none, some,
  ltb, ◌==◌, if◌then◌else◌, is_nil, Result, ok, err,
}
use egresswall.Common.Maps.{get, put}
use egresswall.Text.{Text, codes, text_eq, text_lt, text_key, itoa, join}
use egresswall.Policy.{Policy}
use egresswall.Policy.Compile.{compile}
use egresswall.Learn.{Entry}

-- An entry with its origins, which a map of the observer holds until Entries copies them.
pub record Observed : Type 0 where
  pub entry : Entry
  pub origins : List (Text × ℕ)

-- `rule` in WritePolicy. The protocols are the keys of a map.
pub record HostRule : Type 0 where
  pub host : Text
  pub domain : Bool
  pub ports : List ℕ
  pub protos : List (Text × Bool)
  pub first : ℕ
  pub last : ℕ
  pub hits : ℕ
  pub from : List (Text × ℕ)

-- `byHost` and `rules` share their rules, so they are one map, in the order of `rules`.
pub record Written : Type 0 where
  pub rules : List (Text × HostRule)
  pub metadata_hits : ℕ

abbrev pub metadata_ip : Text
metadata_ip = codes "169.254.169.254"

abbrev pub count_of : Option ℕ → ℕ
count_of none = 0
count_of (some n) = n

-- `for cg, n := range e.Origins { r.from[cg] += n }`
unfoldable pub add_origins : List (Text × ℕ) → List (Text × ℕ) → List (Text × ℕ)
add_origins from [] = from
add_origins from ((origin, n) ∷ rest) =
    add_origins (put origin (count_of (get origin from) + n) from) rest

abbrev pub new_rule : Entry → HostRule
new_rule e = record {
  host = e.host;
  domain = e.domain;
  ports = [];
  protos = [];
  first = e.first;
  last = 0;
  hits = 0;
  from = [];
}

unfoldable pub merge : HostRule → Observed → HostRule
merge r o = record r {
  ports = r.ports ++ (o.entry.port ∷ []);
  protos = put o.entry.proto true r.protos;
  hits = r.hits + o.entry.hits;
  from = add_origins r.from o.origins;
  first = if ltb o.entry.first r.first then o.entry.first else r.first;
  last = if ltb r.last o.entry.last then o.entry.last else r.last;
}

abbrev pub rule_for : Option HostRule → Entry → HostRule
rule_for none e = new_rule e
rule_for (some r) e = r

abbrev pub is_metadata : Entry → Bool
is_metadata e = not e.domain && text_eq e.host metadata_ip

unfoldable pub group_entry : Written → Observed → Written
group_entry w o =
    if is_metadata o.entry
    then record w { metadata_hits = w.metadata_hits + o.entry.hits }
    else record w {
      rules = put o.entry.host (merge (rule_for (get o.entry.host w.rules) o.entry) o) w.rules;
    }

unfoldable pub group_entries : Written → List Observed → Written
group_entries w [] = w
group_entries w (o ∷ rest) = group_entries (group_entry w o) rest

-- How strconv.Quote, time.Time.Format, with either layout, and time.Duration.Round print.
pub record Formats : Type 0 where
  pub quote : Text → Text
  pub date : ℕ → Text
  pub stamp : ℕ → Text
  pub span : ℕ → ℕ → Text

-- The loop of portList, with the ports already written.
unfoldable pub port_texts : Formats → List ℕ → List ℕ → List Text
port_texts fs seen [] = []
port_texts fs seen (p ∷ ports) =
    let again = any (λ q. q == p) seen in
    let rest = port_texts fs (if again then seen else p ∷ seen) ports in
    if again then rest else fs.quote (itoa p) ∷ rest

unfoldable pub port_list : Formats → List ℕ → Text
port_list fs ports = join (codes ", ") (port_texts fs [] ports)

-- The order of originsText: busiest first, the unknown origin last among equals, then by name.
unfoldable pub origin_before : Text × ℕ → Text × ℕ → Bool
origin_before a b =
    if not (a.1 == b.1)
    then ltb b.1 a.1
    else if is_nil a.0 && not (is_nil b.0) || not (is_nil a.0) && is_nil b.0
    then is_nil b.0
    else text_lt a.0 b.0

unfoldable pub insert_origin : Text × ℕ → List (Text × ℕ) → List (Text × ℕ)
insert_origin a [] = a ∷ []
insert_origin a (b ∷ rest) =
    let later = insert_origin a rest in if origin_before b a then b ∷ later else a ∷ b ∷ rest

unfoldable pub sort_origins : List (Text × ℕ) → List (Text × ℕ)
sort_origins [] = []
sort_origins (a ∷ rest) = insert_origin a (sort_origins rest)

abbrev pub origin_text : Text × ℕ → Text
origin_text (name, n) =
    (if is_nil name then codes "unknown process" else name) ++ (codes " (" ++ (itoa n ++ codes ")"))

unfoldable pub origins_text : List (Text × ℕ) → Text
origins_text from = join (codes ", ") (map origin_text (sort_origins from))

-- The protocol line, which a rule has when one protocol was seen.
unfoldable pub proto_of : List (Text × Bool) → Option Text
proto_of ((p, seen) ∷ []) = some p
proto_of _ = none

abbrev pub proto_line : Option Text → Text
proto_line none = []
proto_line (some p) = codes "    proto: " ++ (p ++ codes "\n")

unfoldable pub comment_of : Formats → HostRule → Text
comment_of fs r =
    let seen =
      codes "first "
      ++ (fs.stamp r.first
          ++ (codes ", last "
              ++ (fs.stamp r.last ++ (codes ", " ++ (itoa r.hits ++ codes " hits"))))) in
    let from = origins_text r.from in
    (if r.domain then seen else codes "no dns name seen for this address; " ++ seen)
    ++ (if is_nil from then [] else codes "; from " ++ from)

unfoldable pub rule_text : Formats → HostRule → Text
rule_text fs r =
    codes "  - name: "
    ++ (fs.quote r.host
        ++ (codes "\n"
            ++ ((if r.domain then codes "    domains: [" else codes "    cidrs: [")
                ++ (fs.quote r.host
                    ++ (codes "]\n"
                        ++ (codes "    ports: ["
                            ++ (port_list fs r.ports
                                ++ (codes "]\n"
                                    ++ (proto_line (proto_of r.protos)
                                        ++ (codes "    comment: "
                                            ++ (fs.quote (comment_of fs r) ++ codes "\n")))))))))))

unfoldable pub rules_text : Formats → List (Text × HostRule) → Text
rules_text fs [] = []
rules_text fs ((host, r) ∷ rest) = rule_text fs r ++ rules_text fs rest

unfoldable pub metadata_comment : ℕ → Text
metadata_comment n =
    if ltb 0 n
    then codes "    comment: \"seen "
      ++ (itoa n
          ++ codes
              " times during learn; denied anyway, drop this rule only if the host truly needs IMDS\"\n")
    else codes "    comment: \"never seen during learn, which is how it should stay\"\n"

unfoldable pub policy_text : Formats → ℕ → ℕ → Written → Text
policy_text fs started now w =
    codes "# written by egresswall learn on "
    ++ (fs.date now
        ++ (codes " after "
            ++ (fs.span started now
                ++ (codes " of traffic\n"
                    ++ (codes
                          "# every rule below is something this host actually did; review, then enforce\n"
                        ++ (codes "version: 1\ndefault: deny\n\n"
                            ++ (codes "deny:\n  - name: cloud-metadata\n"
                                ++ (metadata_comment w.metadata_hits
                                    ++ (codes "    cidrs: [\"169.254.169.254\"]\n\n"
                                        ++ (codes "allow:\n"
                                            ++ ((if is_nil w.rules then codes "  []\n" else [])
                                                ++ rules_text fs w.rules)))))))))))

pub data WriteError : Type 0 where
  does_not_load write_failed : WriteError

-- `policy.Parse` gives no error.
unfoldable pub loads : (Text → Option Policy) → Text → Bool
loads decode text = elim (decode text) [
  | none ↦ false
  | some p ↦ elim (compile p) [ ok s ↦ true | err e ↦ false ]
]

-- What has reached the file.
unfoldable pub write_policy :
    Formats
    → (Text → Option Policy)
    → (Text → Bool)
    → List Observed
    → ℕ
    → ℕ
    → Result WriteError Text
write_policy fs decode write entries started now =
    let text =
      policy_text fs started now
        (group_entries (record { rules = []; metadata_hits = 0 }) entries) in
    if not (loads decode text)
    then err does_not_load
    else if write text
    then ok text
    else err write_failed
