-- ===== src/Kmsg/Prefix.antt =====
-- internal/kmsg/kmsg.go, `ParseLine`, against `LogPrefix` of internal/nft/plan.go: which rule names come
-- back from the kernel log.
use egresswall.Common.{
  ℕ, zero, suc, ◌≤◌, ◌<◌, false, [], ◌∷◌, ◌++◌, none, some, ◌≡◌, refl, ap, ◌∙◌, arith, length, take,
  length-append, append_assoc, ltb, true,
}
use egresswall.Text.{Text, codes, has_prefix, cut, contains_byte}
use egresswall.Text.Laws.{has_prefix_append}
use egresswall.Nft.Plan.{log_prefix}
use egresswall.Kmsg.{
  read_event, read_named, read_message, message_of, parse_line, deny_mark, default_mark,
}

-- A line of the kernel log: a header with no semicolon, and the message, of which no byte is escaped.
abbrev pub log_line : Text → Text → Text → Text
log_line header rule rest = header ++ (b';' ∷ (log_prefix rule ++ rest))

cut_header :
    (header msg : Text)
    → contains_byte b';' header ≡ false
    → cut (codes ";") (header ++ b';' ∷ msg) ≡ some (header, msg)
unfolding cut contains_byte
cut_header [] msg h = refl
cut_header (c ∷ header) msg h = ground (arith, cut_header header msg)

message_of-log_line :
    (header rule rest : Text)
    → contains_byte b';' header ≡ false
    → message_of (log_line header rule rest) ≡ log_prefix rule ++ rest
message_of-log_line header rule rest h =
    rw (cut_header header (log_prefix rule ++ rest) h, message_of) refl

abbrev pub name_end : Text
name_end = codes "]: "

-- A name that does not hold the mark makes none with the mark behind it.
has_prefix-append_end :
    (c : ℕ) (s rest : Text)
    → has_prefix (c ∷ s) name_end ≡ false
    → has_prefix (c ∷ (s ++ (name_end ++ rest))) name_end ≡ false
unfolding has_prefix
has_prefix-append_end c [] rest h = ground arith
has_prefix-append_end c (d ∷ []) rest h = ground arith
has_prefix-append_end c (d ∷ e ∷ s) rest h = ground arith

cut_here : (sep : Text) (c : ℕ) (s : Text) → cut sep (c ∷ s) ≡ none → has_prefix (c ∷ s) sep ≡ false
unfolding cut
cut_here sep c s h = ground arith

cut_next : (sep : Text) (c : ℕ) (s : Text) → cut sep (c ∷ s) ≡ none → cut sep s ≡ none
unfolding cut
cut_next sep c s h = ground arith

cut_skip :
    (sep : Text) (c : ℕ) (s before after : Text)
    → has_prefix (c ∷ s) sep ≡ false
    → cut sep s ≡ some (before, after)
    → cut sep (c ∷ s) ≡ some (c ∷ before, after)
unfolding cut
cut_skip sep c s before after h e = rw (h, e, cut) refl

cut_mark : (rest : Text) → cut name_end (name_end ++ rest) ≡ some ([], rest)
unfolding cut has_prefix
cut_mark rest = refl

cut_name :
    (name rest : Text)
    → cut name_end name ≡ none
    → cut name_end (name ++ (name_end ++ rest)) ≡ some (name, rest)
cut_name [] rest h = cut_mark rest
cut_name (c ∷ s) rest h =
    cut_skip name_end c (s ++ (name_end ++ rest)) s rest
      (has_prefix-append_end c s rest (cut_here name_end c s h))
      (cut_name s rest (cut_next name_end c s h))

read_message-append_deny : (rest : Text) → read_message (deny_mark ++ rest) ≡ read_named rest
unfolding read_message
read_message-append_deny rest = rw (has_prefix_append deny_mark rest) refl

read_message-append_default :
    (rest : Text) → read_message (default_mark ++ rest) ≡ read_event [] rest
unfolding read_message has_prefix
read_message-append_default rest = refl

log_prefix_empty : log_prefix [] ≡ default_mark
unfolding log_prefix
log_prefix_empty = refl

pub log_prefix_whole :
    (c : ℕ) (rule : Text)
    → length (c ∷ rule) ≤ 101
    → log_prefix (c ∷ rule) ≡ deny_mark ++ ((c ∷ rule) ++ name_end)
unfolding log_prefix
log_prefix_whole c rule h = ground (arith, length-append rule name_end)

take_append_le : (n : ℕ) (xs ys : Text) → n ≤ length xs → take n (xs ++ ys) ≡ take n xs
take_append_le zero xs ys h = refl
take_append_le (suc n) [] ys h = ground arith
take_append_le (suc n) (x ∷ xs) ys h = ap (λ t. x ∷ t) (take_append_le n xs ys (ground arith))

log_prefix_cut :
    (rule : Text)
    → 101 < length rule
    → log_prefix rule ≡ deny_mark ++ (take 101 rule ++ codes "..: ")
unfolding log_prefix
log_prefix_cut [] h = ground arith
log_prefix_cut (c ∷ rule) h =
    let long : ltb 120 (length (deny_mark ++ ((c ∷ rule) ++ name_end))) ≡ true =
      ground (arith, length-append rule name_end) in
    rw (long, take_append_le 100 rule name_end (ground arith)) refl

read_named_name :
    (name rest : Text)
    → cut name_end name ≡ none
    → read_named (name ++ (name_end ++ rest)) ≡ read_event name rest
unfolding read_named read_event
read_named_name name rest free = rw (cut_name name rest free, read_named) refl

-- ParseLine takes the whole name of a rule with at most 101 bytes and no "]: " off the line, or no name
-- for the default, and reads the fields behind the prefix.
pub parse_line-log_line :
    (header rule rest : Text)
    → contains_byte b';' header ≡ false
    → length rule ≤ 101
    → cut name_end rule ≡ none
    → parse_line (log_line header rule rest) ≡ read_event rule rest
unfolding parse_line
parse_line-log_line header [] rest h short free =
    ap read_message (message_of-log_line header [] rest h)
    ∙ ap (λ p. read_message (p ++ rest)) log_prefix_empty
    ∙ read_message-append_default rest
parse_line-log_line header (c ∷ rule) rest h short free =
    let name : Text = c ∷ rule in
    ap read_message (message_of-log_line header name rest h)
    ∙ ap (λ p. read_message (p ++ rest)) (log_prefix_whole c rule short)
    ∙ ap (λ t. read_message (deny_mark ++ t)) (append_assoc name name_end rest)
    ∙ read_message-append_deny (name ++ (name_end ++ rest))
    ∙ read_named_name name rest free

-- A refusal whose rule name is longer than 101 bytes is never read back, unless the text "]: " stands
-- by chance in what is left of the name or in the fields: the prefix in the log has lost the end mark
-- that ParseLine looks for.
pub parse_line-log_line-cut :
    (header rule rest : Text)
    → contains_byte b';' header ≡ false
    → 101 < length rule
    → cut name_end (take 101 rule ++ (codes "..: " ++ rest)) ≡ none
    → parse_line (log_line header rule rest) ≡ none
unfolding parse_line
parse_line-log_line-cut header rule rest h long free =
    ap read_message (message_of-log_line header rule rest h)
    ∙ ap (λ p. read_message (p ++ rest)) (log_prefix_cut rule long)
    ∙ ap (λ t. read_message (deny_mark ++ t)) (append_assoc (take 101 rule) (codes "..: ") rest)
    ∙ read_message-append_deny (take 101 rule ++ (codes "..: " ++ rest))
    ∙ rw (free, read_named) refl
