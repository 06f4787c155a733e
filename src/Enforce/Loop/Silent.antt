-- ===== src/Enforce/Loop/Silent.antt =====
-- cmd/egresswall/enforce.go: the parts of the main loop that report nothing.
use egresswall.Common.{
  ◌-◌, ◌*◌, Bool, true, false, not, List, [], ◌∷◌, map, Option, none, some, ◌≡◌, refl, ◌∙◌, arith,
  ltb, if◌then◌else◌, is_nil, ok, err,
}
use egresswall.Text.{Text, text_key}
use egresswall.Netip.{Addr, unmap}
use egresswall.Dns.{Answer, record_answer}
use egresswall.Dns.Message.{DnsError, second}
use egresswall.Policy.{RuleSet, CompiledRule}
use egresswall.Policy.Evaluate.{rules_view}
use egresswall.Nft.Plan.{Plan}
use egresswall.Nft.Exprs.{Handle, Kernel}
use egresswall.Nft.Apply.{apply, add_addrs, missing}
use egresswall.Enforce.{feed, learn_min_ttl}
use egresswall.Enforce.Loop.{
  say, World, Daemon, seed_failed, reloaded, reload_failed, inactive, adding_failed, feed_handle,
  feed_daemon, on_answer, seed_name, seed_names, seed_rules, seed, warn_missing, appeared, reload,
  check_cgroups, sweep,
}

-- What the loop does besides reporting leaves the alerts and the times of the last reports.
abbrev pub Silent : Daemon → Daemon → Type 0
Silent d d' = (d'.alerts ≡ d.alerts) × (d'.seen ≡ d.seen)

module _ (s : RuleSet) (w : World) where
  feed_handle-Silent : (a : Answer) (h : Handle) (d : Daemon) → Silent d (feed_handle s w a h d)
  unfolding feed_handle
  feed_handle-Silent a h d = by_result (add_addrs w.system h (feed s a))
    where
      by_result :
          (r : Kernel Handle)
          → Silent d (elim r [
            | ok after ↦ record d { handle = some after }
            | err e ↦ say (adding_failed a.name) d
          ])
      by_result (ok after) = (refl, refl)
      by_result (err e) = (refl, refl)

  feed_daemon-Silent : (a : Answer) (d : Daemon) → Silent d (feed_daemon s w a d)
  unfolding feed_daemon
  feed_daemon-Silent a d = by_handle d.handle
    where
      by_handle :
          (o : Option Handle) → Silent d (elim o [ none ↦ d | some h ↦ feed_handle s w a h d ])
      by_handle none = (refl, refl)
      by_handle (some h) = feed_handle-Silent a h d

  Silent-trans : (a b c : Daemon) → Silent a b → Silent b c → Silent a c
  Silent-trans a b c (h, k) (h', k') = (h' ∙ h, k' ∙ k)

  pub on_answer-Silent : (r : Answer × Option DnsError) (d : Daemon) → Silent d (on_answer s w r d)
  unfolding on_answer
  on_answer-Silent (a, some e) d = (refl, refl)
  on_answer-Silent (a, none) d =
      let noted : Daemon = record d { dns = record_answer d.dns a w.now } in
      unless_named (feed_daemon s w a noted) (is_nil a.name) (feed_daemon-Silent a noted)
    where
      unless_named :
          (after : Daemon) (b : Bool) → Silent d after → Silent d (if b then d else after)
      unless_named after true h = (refl, refl)
      unless_named after false h = h

  seed_name-Silent : (name : Text) (d : Daemon) → Silent d (seed_name s w d name)
  unfolding seed_name
  seed_name-Silent name d = by_addresses (w.resolve name)
    where
      by_addresses :
          (o : Option (List Addr))
          → Silent d (elim o [
            | none ↦ say (seed_failed name) d
            | some ips ↦
                (let a : Answer = record {
                  name = name;
                  addrs = map (λ ip. record { ip = unmap ip; ttl = learn_min_ttl }) ips;
                } in
                  feed_daemon s w a (record d { dns = record_answer d.dns a w.now }))
          ])
      by_addresses none = (refl, refl)
      by_addresses (some ips) =
          let a : Answer = record {
            name = name;
            addrs = map (λ ip. record { ip = unmap ip; ttl = learn_min_ttl }) ips;
          } in
          feed_daemon-Silent a (record d { dns = record_answer d.dns a w.now })

  seed_names-Silent : (names : List Text) (d : Daemon) → Silent d (seed_names s w names d)
  unfolding seed_names
  seed_names-Silent [] d = (refl, refl)
  seed_names-Silent (name ∷ names) d =
      Silent-trans d (seed_name s w d name) (seed_names s w names (seed_name s w d name))
        (seed_name-Silent name d) (seed_names-Silent names (seed_name s w d name))

  seed_rules-Silent : (rs : List CompiledRule) (d : Daemon) → Silent d (seed_rules s w rs d)
  unfolding seed_rules
  seed_rules-Silent [] d = (refl, refl)
  seed_rules-Silent (r ∷ rs) d =
      Silent-trans d (seed_names s w r.exact d) (seed_rules s w rs (seed_names s w r.exact d))
        (seed_names-Silent r.exact d) (seed_rules-Silent rs (seed_names s w r.exact d))

  warn_missing-Silent : (names : List Text) (d : Daemon) → Silent d (warn_missing names d)
  unfolding warn_missing
  warn_missing-Silent [] d = (refl, refl)
  warn_missing-Silent (cg ∷ rest) d = warn_missing-Silent rest (say (inactive cg) d)

  reload-Silent : (plan : Plan) (d : Daemon) → Silent d (reload s plan w d)
  unfolding reload seed
  reload-Silent plan d = by_result (apply w.system plan)
    where
      by_result :
          (r : Kernel Handle)
          → Silent d (elim r [
            | err e ↦ say reload_failed d
            | ok fresh ↦
                seed_rules s w
                  (rules_view s)
                  (warn_missing (missing fresh) (say reloaded (record d { handle = some fresh })))
          ])
      by_result (err e) = (refl, refl)
      by_result (ok fresh) =
          let fed : Daemon = say reloaded (record d { handle = some fresh }) in
          let warned : Daemon = warn_missing (missing fresh) fed in
          Silent-trans d warned (seed_rules s w (rules_view s) warned)
            (warn_missing-Silent (missing fresh) fed) (seed_rules-Silent (rules_view s) warned)

  pub check_cgroups-Silent : (plan : Plan) (d : Daemon) → Silent d (check_cgroups s plan w d)
  unfolding check_cgroups
  check_cgroups-Silent plan d = by_handle d.handle
    where
      checked : Daemon
      checked = record d { last_check = w.now }

      by_tests :
          (early there : Bool)
          → Silent d (if early then d else if there then reload s plan w checked else checked)
      by_tests true there = (refl, refl)
      by_tests false true = reload-Silent plan checked
      by_tests false false = (refl, refl)

      by_handle :
          (o : Option Handle)
          → Silent d (elim o [
            | none ↦ d
            | some h ↦
                (if not (ltb (5 * second) (w.now - d.last_check))
                  then d
                  else if appeared w.system (missing h)
                  then reload s plan w checked
                  else checked)
          ])
      by_handle none = (refl, refl)
      by_handle (some h) =
          by_tests (not (ltb (5 * second) (w.now - d.last_check))) (appeared w.system (missing h))

  pub sweep-Silent : (d : Daemon) → Silent d (sweep w d)
  unfolding sweep
  sweep-Silent d = ground arith
