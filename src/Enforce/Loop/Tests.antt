-- ===== src/Enforce/Loop/Tests.antt =====
-- Three packets to a destination that the sample policy denies, in a dry run.
use egresswall.Common.{ℕ, ◌*◌, true, false, [], ◌∷◌, none, some, ◌≡◌, refl}
use egresswall.Text.{codes}
use egresswall.Dns.{new}
use egresswall.Dns.Message.{second}
use egresswall.Dns.Sample.{toy}
use egresswall.Policy.Tests.{sample_set}
use egresswall.Nft.Plan.{build}
use egresswall.Nft.Exprs.{absent}
use egresswall.Enforce.{learn_min_ttl}
use egresswall.Enforce.Loop.{Options, World, frame, Daemon, rounds, dest_text}
use egresswall.Enforce.Loop.Spaced.{IsQuiet, rounds-IsQuiet}

-- A UDP packet from 10.0.0.1:51200 to 8.8.8.8:443 at that many seconds.
abbrev sent_at : ℕ → World
sent_at n = record {
  now = n * second;
  read =
      frame
        (0x45 ∷ 0 ∷ 0 ∷ 28 ∷ 0 ∷ 0 ∷ 0 ∷ 0 ∷ 64 ∷ 17 ∷ 0 ∷ 0 ∷ 10 ∷ 0 ∷ 0 ∷ 1 ∷ 8 ∷ 8 ∷ 8 ∷ 8 ∷ 200
          ∷ 0 ∷ 1 ∷ 187 ∷ 0 ∷ 8 ∷ 0 ∷ 0 ∷ [])
        true;
  owner = λ ip port proto. [];
  resolve = λ name. none;
  system = record {
    stat = λ path. absent;
    connects = true;
    tables = some [];
    refuses = λ m. false;
    flushes = λ ms. true;
    order = λ names. names;
  };
}

abbrev started : Daemon
started = record {
  dns = new learn_min_ttl;
  handle = none;
  seen = [];
  alerts = [];
  lines = [];
  last_sweep = 0;
  last_check = 0;
}

abbrev dry : Options
dry = record { dry_run = true; verbose = false; webhook = true }

dest_texts :
    dest_text (codes "1.2.3.4") (codes "a.b") 53 (codes "udp") ≡ codes "1.2.3.4 (a.b):53 udp"
unfolding dest_text egresswall.Text.itoa
dest_texts = refl

rounds-IsQuiet_example :
    IsQuiet dry sample_set (
      rounds toy dry sample_set
        (build sample_set)
        (sent_at 1 ∷ sent_at 6 ∷ sent_at 12 ∷ [])
        started)
rounds-IsQuiet_example =
    rounds-IsQuiet toy dry sample_set (build sample_set) (sent_at 1 ∷ sent_at 6 ∷ sent_at 12 ∷ [])
      started (record { spaced = tt; founded = tt; noted = tt })
