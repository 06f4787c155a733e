-- ===== src/Enforce/Loop/Spaced.antt =====
-- cmd/egresswall/enforce.go, `report` in the main loop: how often a destination raises an alert, and which.
use egresswall.Common.{
  ℕ, ◌+◌, ◌-◌, ◌≤◌, Bool, true, false, not, ◌&&◌, List, [], ◌∷◌, ◌++◌, All, All-append, All-implies,
  Option, none, some, ◌≡◌, inl, inr, ◌==◌, Result, refl, sym, ◌∙◌, subst, arith, ltb, if◌then◌else◌,
  Bool-cases, Option-cases, ok, err,
}
use egresswall.Common.Maps.{get, put, get-put}
use egresswall.Text.{Text, text_eq, text_eq_iff, text_key}
use egresswall.Packet
use egresswall.Packet.{Packet, is_udp, PacketError}
use egresswall.Dns.Message
use egresswall.Dns.Message.{DnsMessage, DnsError}
use egresswall.Policy.{Verdict, deny, allow, Dest, Decision, RuleSet}
use egresswall.Policy.Evaluate.{evaluate}
use egresswall.Alert.{Event}
use egresswall.Nft.Plan.{Plan}
use egresswall.Enforce.Loop.{
  Options, Line, reported, say, report_line, Read, timed_out, read_failed, frame, World, Daemon,
  seen_key, report_dest, report_window, is_recent, is_denied, alert_of, report_fresh, report,
  on_answer, check_cgroups, sweep, is_reported, on_packet, round, rounds,
}
use egresswall.Enforce.Loop.Silent.{Silent, on_answer-Silent, check_cgroups-Silent, sweep-Silent}

-- The destination that an alert is about.
abbrev pub alert_dest : Event → Dest
alert_dest e = record {
  domain = e.host;
  ip = e.ip;
  port = e.port;
  proto = e.proto;
  cgroup = e.cgroup;
}

-- An earlier alert for the same address, port and protocol is ten seconds older at least.
abbrev pub Apart : Event → Event → Type 0
Apart later e =
    seen_key (alert_dest e) ≡ seen_key (alert_dest later) → e.at + report_window ≤ later.at

abbrev pub Spaced : List Event → Type 0
Spaced [] = Unit
Spaced (e ∷ es) = All (λ later. Apart later e) es × Spaced es

-- The alert was raised in a dry run with a webhook, for a destination that Evaluate denies by this rule.
abbrev pub Founded : Options → RuleSet → Event → Type 0
Founded o s e =
    (o.dry_run ≡ true)
    × (o.webhook ≡ true)
    × ((evaluate s (alert_dest e)).verdict ≡ deny)
    × ((evaluate s (alert_dest e)).rule ≡ e.rule)

-- Every alert is noted, at its time or later.
abbrev pub Noted : Daemon → Event → Type 0
Noted d e = (last : ℕ) × (get (seen_key (alert_dest e)) d.seen ≡ some last) × (e.at ≤ last)

pub record IsQuiet (o : Options) (s : RuleSet) (d : Daemon) : Type 0 where
  pub spaced : Spaced d.alerts
  pub founded : All (Founded o s) d.alerts
  pub noted : All (Noted d) d.alerts

Spaced-append :
    (es : List Event) (later : Event)
    → Spaced es
    → All (Apart later) es
    → Spaced (es ++ (later ∷ []))
Spaced-append [] later h k = (tt, tt)
Spaced-append (e ∷ es) later (h, hs) (k, ks) =
    (All-append (λ x. Apart x e) es (later ∷ []) h (k, tt), Spaced-append es later hs ks)

alert_dest-alert_of :
    (now : ℕ) (dest : Dest) (dec : Decision) → alert_dest (alert_of now dest dec) ≡ dest
unfolding alert_of
alert_dest-alert_of now dest dec = refl

put-Noted :
    (k : Text) (now : ℕ) (d : Daemon) (e : Event)
    → is_recent (get k d.seen) now ≡ false
    → Noted d e
    → Noted (record d { seen = put k now d.seen }) e
      × (seen_key (alert_dest e) ≡ k → e.at + report_window ≤ now)
unfolding is_recent
put-Noted k now d e fresh (last, there, at) =
    elim (Bool-cases (text_eq k (seen_key (alert_dest e)))) [
      | inl same ↦
          (let e1 : k ≡ seen_key (alert_dest e) =
              (text_eq_iff k (seen_key (alert_dest e))).0 same in
            let gap : ltb (now - last) report_window ≡ false =
              subst (λ x. is_recent x now ≡ false) there
                (subst (λ x. is_recent (get x d.seen) now ≡ false) e1 fresh) in
            ((now, get-put k _ now d.seen ∙ rw same refl, ground arith), λ q. ground arith))
      | inr other ↦ (
        (last, get-put k _ now d.seen ∙ rw other there, at),
        λ q. absurd (ground (arith, (text_eq_iff k (seen_key (alert_dest e))).1 (sym q))),
      )
    ]

denied_lem : (v : Verdict) → is_denied v ≡ true → v ≡ deny
denied_lem deny h = refl
denied_lem allow h = cc

module _ (o : Options) (s : RuleSet) where
  Silent-IsQuiet : (d d' : Daemon) → Silent d d' → IsQuiet o s d → IsQuiet o s d'
  Silent-IsQuiet d d' (alerts, seen) q = record {
    spaced = rw alerts q.spaced;
    founded = rw alerts q.founded;
    noted = rw alerts (All-implies (Noted d) (Noted d') d.alerts (λ e h. rw seen h) q.noted);
  }

  printed :
      (raise skip : Bool) (line : Line) (sent after : Daemon)
      → (raise ≡ true → IsQuiet o s sent)
      → IsQuiet o s after
      → IsQuiet o s (
          if skip
          then (if raise then sent else after)
          else say line (if raise then sent else after))
  printed true true line sent after h k = h refl
  printed true false line sent after h k = Silent-IsQuiet sent _ (refl, refl) (h refl)
  printed false true line sent after h k = k
  printed false false line sent after h k = Silent-IsQuiet after _ (refl, refl) k

  report_fresh-IsQuiet :
      (now : ℕ) (dest : Dest) (d : Daemon)
      → is_recent (get (seen_key dest) d.seen) now ≡ false
      → IsQuiet o s d
      → IsQuiet o s (report_fresh o now dest (evaluate s dest) d)
  unfolding report_fresh alert_of
  report_fresh-IsQuiet now dest d fresh q =
      let k : Text = seen_key dest in
      let dec : Decision = evaluate s dest in
      let later : Event = alert_of now dest dec in
      let after : Daemon = record d { seen = put k now d.seen } in
      let noted : All (Noted after) d.alerts =
        All-implies (Noted d) (Noted after) d.alerts (λ e h. (put-Noted k now d e fresh h).0)
          q.noted in
      let apart : All (Apart later) d.alerts =
        All-implies (Noted d) (Apart later) d.alerts (λ e h. (put-Noted k now d e fresh h).1)
          q.noted in
      let quiet : IsQuiet o s after = record {
        spaced = q.spaced;
        founded = q.founded;
        noted = noted;
      } in
      let sent : Daemon = record after { alerts = d.alerts ++ (later ∷ []) } in
      let raised : (dec.verdict ≡ deny)
          → (o.dry_run ≡ true)
          → (o.webhook ≡ true)
          → IsQuiet o s sent =
        λ denied dry hook. record {
          spaced = Spaced-append d.alerts later q.spaced apart;
          founded =
              All-append (Founded o s) d.alerts (later ∷ []) q.founded
                ((dry, hook, denied, refl), tt);
          noted =
              All-append (Noted sent) d.alerts (later ∷ []) noted (
                (now, get-put k k now d.seen ∙ rw ((text_eq_iff k k).1 refl) refl, omega arith),
                tt,
              );
        } in
      printed (is_denied dec.verdict && (o.dry_run && o.webhook))
        (not (is_denied dec.verdict) && not o.verbose) (reported (report_line o dest dec)) sent
        after (λ e. raised (denied_lem dec.verdict (ground arith)) (ground arith) (ground arith))
        quiet

  report-IsQuiet :
      (w : World) (p : Packet) (d : Daemon) → IsQuiet o s d → IsQuiet o s (report o s w p d)
  unfolding report
  report-IsQuiet w p d q =
      let dest : Dest = report_dest w d.dns p in
      elim (Bool-cases (is_recent (get (seen_key dest) d.seen) w.now)) [
        | inl recent ↦ rw recent q
        | inr fresh ↦ rw fresh (report_fresh-IsQuiet w.now dest d fresh q)
      ]

module _ (dns : DnsMessage) (o : Options) (s : RuleSet) (plan : Plan) where
  on_packet-IsQuiet :
      (w : World) (p : Packet) (outgoing : Bool) (d : Daemon)
      → IsQuiet o s d
      → IsQuiet o s (on_packet dns o s plan w p outgoing d)
  unfolding on_packet
  on_packet-IsQuiet w p outgoing d q =
      by_tests (not outgoing && (is_udp p && p.src_port == 53)) (is_reported p outgoing)
    where
      rest : Daemon → Daemon
      rest x = check_cgroups s plan w (sweep w x)

      rest_quiet : (x : Daemon) → IsQuiet o s x → IsQuiet o s (rest x)
      rest_quiet x h =
          Silent-IsQuiet o s (sweep w x) (rest x) (check_cgroups-Silent s w plan (sweep w x))
            (Silent-IsQuiet o s x (sweep w x) (sweep-Silent s w x) h)

      by_tests :
          (answer told : Bool)
          → IsQuiet o s (
              if answer
              then on_answer s w (Message.parse dns p.payload) d
              else rest (if told then report o s w p d else d))
      by_tests true told =
          Silent-IsQuiet o s d _ (on_answer-Silent s w (Message.parse dns p.payload) d) q
      by_tests false true = rest_quiet (report o s w p d) (report-IsQuiet o s w p d q)
      by_tests false false = rest_quiet d q

  round-IsQuiet :
      (w : World) (d after : Daemon)
      → round dns o s plan w d ≡ some after
      → IsQuiet o s d
      → IsQuiet o s after
  unfolding round
  round-IsQuiet w d after e q = by_read w.read e
    where
      by_parsed :
          (outgoing : Bool) (r : Result PacketError Packet)
          → elim r as (λ x. Option Daemon) [
            | ok p ↦ some (on_packet dns o s plan w p outgoing d)
            | err x ↦ some d
          ]
            ≡ some after
          → IsQuiet o s after
      by_parsed outgoing (ok p) same =
          subst (IsQuiet o s) (ground arith) (on_packet-IsQuiet w p outgoing d q)
      by_parsed outgoing (err x) same = subst (IsQuiet o s) (ground arith) q

      by_read :
          (r : Read)
          → elim r as (λ x. Option Daemon) [
            | timed_out ↦ some d
            | read_failed ↦ none
            | frame bytes outgoing ↦ elim (Packet.parse bytes) [
              | ok p ↦ some (on_packet dns o s plan w p outgoing d)
              | err x ↦ some d
            ]
          ]
            ≡ some after
          → IsQuiet o s after
      by_read timed_out same = subst (IsQuiet o s) (ground arith) q
      by_read read_failed same = cc
      by_read (frame bytes outgoing) same = by_parsed outgoing (Packet.parse bytes) same

  -- Whatever the loop reads, and in whatever order: of two alerts that it raises for one address, port and
  -- protocol the later comes ten seconds after the earlier at least, and each is raised in a dry run with a
  -- webhook, for a destination that Evaluate denies, under the rule that denies it.
  pub rounds-IsQuiet :
      (ws : List World) (d : Daemon) → IsQuiet o s d → IsQuiet o s (rounds dns o s plan ws d)
  unfolding rounds
  rounds-IsQuiet [] d q = q
  rounds-IsQuiet (w ∷ ws) d q = elim (Option-cases (round dns o s plan w d)) [
    | inl ended ↦ rw (ended, rounds) q
    | inr (after, went) ↦
        rw (went, rounds) (rounds-IsQuiet ws after (round-IsQuiet w d after went q))
  ]
