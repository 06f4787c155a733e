-- ===== src/Lib.antt =====
-- egresswall: learn where a Linux host talks, then refuse everything else.
--
-- A policy file names destinations: deny rules, allow rules and a default. `egresswall check` asks the
-- policy for one destination; `egresswall enforce` compiles it into an nftables plan, fills the address
-- sets of the plan from the DNS answers it sees, and reads refusals back from the kernel log;
-- `egresswall learn` watches packets and writes the policy that would allow what it saw.
--
-- The parts, and the files that model them:
-- - internal/policy/policy.go: Policy (the types), Policy/Domain (NormalizeDomain, NormalizeCgroup,
--   CgroupWithin), Policy/Compile (Parse, Compile, compileRule, parsePortRange) and Policy/Evaluate
--   (Evaluate, match, Rules, DomainRules). Set is `RuleSet`; an error is a value that holds what the
--   message of the source prints. Policy/Covers says when a rule covers a destination without the
--   loops of the code, Policy/Precedence which rule decides; Policy/Compiled, Policy/WellFormed and
--   Policy/Names are about what Compile accepts, what it makes, and the names of rules.
-- - internal/nft/plan.go: Nft/Plan (Build, SetFor, LogPrefix, inChain). Nft/Kernel is the kernel that
--   runs the plan: an address set is a function from its name to its members, and the first atom that
--   matches gives the verdict. Nft/Rendered is the text of the plan. Nft/Hits and Nft/Refines compare it with Evaluate, Nft/Sets is about
--   the sets that the plan defines.
-- - internal/packet/packet.go: Packet (Parse and its parts; a frame is a list of bytes), Packet/Safety
--   and Packet/Fields.
-- - internal/dnswatch/cache.go: Dns (the cache; a map is an association list), Dns/Message (Parse and
--   Observe over the package dnsmessage), Dns/Lookups, Dns/Loop and Dns/Mapped.
-- - internal/learn/learn.go: Learn (Packet, record and Sweep), Learn/Replies (the two reply tables),
--   Learn/Counts and Learn/Run (the maps of entries, addresses and origins).
-- - internal/kmsg/kmsg.go: Kmsg (ParseLine), Kmsg/Values (the fields), Kmsg/Prefix, where it meets the
--   prefix that the plan has the kernel write, and Kmsg/Device, with the way in which /dev/kmsg shows a
--   message as a parameter.
-- - internal/alert/alert.go and webhook.go: Alert (Send, one turn of the loop for an event or for the
--   timer, post and Close; the channel is a list with a bound), Alert/Ledger and Alert/Settled.
-- - internal/procs/procs.go and lookup_linux.go: Procs (parseNetLine, cgroupFromProc and findInode over
--   the contents of the files), and Procs/Search.
-- - internal/nft/apply_linux.go: Nft/Exprs (atomExprs and the expressions of each rule; a handle holds
--   its batch of messages) and Nft/Apply (Apply, chainBody, AddAddrs, Missing, Close and Remove). The
--   library google/nftables and os.Stat are the record System. Nft/Exprs/Machine says what nf_tables
--   does with the expressions of a rule; Masks, Guards, Address, Cgroup, Faithful and Sendable lead
--   from the expressions of an atom to the atom. Nft/Apply/Chains to Decides follow the batch of Apply,
--   Evaluated ends at Evaluate of the policy; Succeeds, Lost and Elements are about success,
--   Missing and AddAddrs.
-- - internal/learn/write.go: Learn/Write (WritePolicy, with the text of the file) and
--   Learn/Write/Hits, Grouped and Metadata.
-- - cmd/egresswall/enforce.go: Enforce (feed, and what AddAddrs leaves in the sets; elements do not time
--   out in the model), Enforce/Feed, Enforce/Decision, Enforce/Loop (the main loop with report, seed and
--   the reload) and, below it, Silent and Spaced.
-- - cmd/egresswall/main.go: Command (parseDest).
-- Common holds the tests, lists, maps and results that the parts share, Text the Go strings with what
-- the program uses of strings and strconv, Netip the package net/netip. The Tests of each part hold runs
-- of the tests of the source and an instance of each result.
--
-- Numbers: a port is a natural number, cut to 16 bits where the source parses it; addresses are their 32
-- or 128 bits; times and durations are natural numbers of nanoseconds that do not overflow. Texts are
-- lists of bytes; lower case, trimming and fields are those of ASCII, so names with other letters are
-- outside the model.
-- Fuel: the decimal digits of n take at most n + 1 rounds; the loop of the DNS Parse has one round more
-- than the answers that the parser has left, which is enough because each round uses one of them up.
-- Retries: a post makes at most the two attempts of the source; the answers are an argument.
-- Parameters: the YAML decoder is a function from a text to a policy or an error; the package dnsmessage
-- is a record of its calls, with a number of answers left that reading or skipping one makes smaller.
-- What the netlink library refuses, what os.Stat finds, the order in which a map is visited, the owner
-- of a local port, the resolver, the clock, and how strconv.Quote and time print are arguments as well.
--
-- Not modelled: the texts of errors, the raw socket, the log device, /proc and
-- the flags and output of the commands, which are I/O; the locks, for each operation is one step; the
-- loop of `egresswall learn` and the end of the commands.
pub mod Common
pub mod Text
pub mod Netip
pub mod Policy
pub mod Packet
pub mod Dns
pub mod Nft
pub mod Kmsg
pub mod Procs
pub mod Learn
pub mod Alert
pub mod Enforce
pub mod Command
