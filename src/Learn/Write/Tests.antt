-- ===== src/Learn/Write/Tests.antt =====
-- A small observation written as a policy, and instances of the theorems on it.
use egresswall.Common.{ℕ, ◌+◌, Bool, true, false, List, [], ◌∷◌, ◌++◌, All, ◌≡◌, refl}
use egresswall.Text.{Text, codes, itoa, text_lt, join}
use egresswall.Learn.Write.{
  Observed, is_metadata, group_entries, Formats, port_list, port_texts, origins_text, sort_origins,
  insert_origin, origin_before, metadata_ip,
}
use egresswall.Learn.Write.Hits.{rule_hits, entry_hits, hits-group_entries}
use egresswall.Learn.Write.Grouped.{nothing_written, IsCovered, group_entries-IsCovered}
use egresswall.Learn.Write.Metadata.{IsHarmless, group_entries-All-IsHarmless}

abbrev seen : Text → Bool → ℕ → ℕ → ℕ → Observed
seen host domain port first hits = record {
  entry = record {
    host = host;
    domain = domain;
    port = port;
    proto = codes "tcp";
    first = first;
    last = first + 5;
    hits = hits;
  };
  origins = (codes "app", hits) ∷ [];
}

abbrev three : List Observed
three =
    seen (codes "pypi.org") true 443 7 2
    ∷ seen metadata_ip false 80 8 4
    ∷ seen (codes "pypi.org") true 80 3 1
    ∷ []

-- Everything between quotes, and times as numbers.
abbrev plain_formats : Formats
plain_formats = record {
  quote = λ s. codes "'" ++ (s ++ codes "'");
  date = itoa;
  stamp = itoa;
  span = λ from to. itoa to;
}

port_lists : port_list plain_formats (443 ∷ 80 ∷ 443 ∷ []) ≡ codes "'443', '80'"
unfolding port_list port_texts itoa join
port_lists = refl

origin_lists :
    origins_text ((codes "b", 1) ∷ ([], 3) ∷ (codes "a", 3) ∷ (codes "c", 9) ∷ [])
    ≡ codes "c (9), a (3), unknown process (3), b (1)"
unfolding origins_text sort_origins insert_origin origin_before text_lt itoa join
origin_lists = refl

hits-group_entries_example :
    (group_entries nothing_written three).metadata_hits
      + rule_hits (group_entries nothing_written three).rules
    ≡ 0 + rule_hits [] + entry_hits three
hits-group_entries_example = hits-group_entries nothing_written three

group_entries-IsCovered_example :
    All
      (λ o. is_metadata o.entry ≡ false → IsCovered (group_entries nothing_written three) o.entry)
      three
group_entries-IsCovered_example = group_entries-IsCovered three

group_entries-All-IsHarmless_example :
    All (IsHarmless plain_formats) (group_entries nothing_written three).rules
group_entries-All-IsHarmless_example = group_entries-All-IsHarmless plain_formats three
