-- ===== src/Kmsg/Device.antt =====
-- internal/kmsg/kmsg.go, `ParseLine`, on the records of the device that `Tail` reads.
use egresswall.Common.{
  ℕ, ◌≤◌, ◌<◌, false, [], ◌∷◌, ◌++◌, All, All-append, none, ◌≡◌, ◌≢◌, ap, ◌∙◌, arith, length,
  append_assoc, subst, sym,
}
use egresswall.Text.{Text, codes, cut, contains_byte, fields}
use egresswall.Netip.Parse.{parse_addr}
use egresswall.Nft.Plan.{log_prefix}
use egresswall.Kmsg.{deny_mark, parse_line}
use egresswall.Kmsg.Prefix.{parse_line-log_line, log_prefix_whole, name_end}
use egresswall.Kmsg.Values.{last_value, reported, read_event_lem}

-- A printable ASCII byte other than the backslash.
abbrev pub IsShown : ℕ → Type 0
IsShown c = (32 ≤ c) × (c < 127) × (c ≢ b'\\')

-- A record of /dev/kmsg: its header, the message as the device shows it, and the end of the line with the
-- lines of properties.
abbrev pub record_of : (Text → Text) → Text → Text → Text → Text
record_of show header message tail = header ++ (b';' ∷ (show message ++ tail))

log_prefix-IsShown :
    (rule : Text) → length rule ≤ 101 → All IsShown rule → All IsShown (log_prefix rule)
unfolding log_prefix
log_prefix-IsShown [] short shown = ground arith
log_prefix-IsShown (c ∷ rule) short shown =
    subst (All IsShown) (sym (log_prefix_whole c rule short)) (
      All-append IsShown deny_mark ((c ∷ rule) ++ name_end) (ground arith)
        (All-append IsShown (c ∷ rule) name_end shown (ground arith)))

-- Where the device shows a message of printable ASCII without a backslash as it is: of a refusal by a rule
-- whose name is such a text of at most 101 bytes without "]: ", in a record whose header has no semicolon
-- and whose packet is logged in such a text, ParseLine reports the name of the rule, or no name for the
-- default, with the last address, port and protocol that the fields give; and it reports nothing where
-- they give no address.
pub parse_line-record_of :
    (show : Text → Text) (header rule packet tail : Text)
    → ((message : Text) → All IsShown message → show message ≡ message)
    → contains_byte b';' header ≡ false
    → length rule ≤ 101
    → cut (codes "]: ") rule ≡ none
    → All IsShown rule
    → All IsShown packet
    → parse_line (record_of show header (log_prefix rule ++ packet) tail)
      ≡ reported rule
          (fields (packet ++ tail))
          (last_value parse_addr (codes "DST") (fields (packet ++ tail)))
parse_line-record_of show header rule packet tail as_is h short free shown logged =
    ap (λ m. parse_line (header ++ (b';' ∷ (m ++ tail))))
      (as_is (log_prefix rule ++ packet)
        (All-append IsShown (log_prefix rule) packet (log_prefix-IsShown rule short shown) logged))
    ∙ ap (λ m. parse_line (header ++ (b';' ∷ m))) (append_assoc (log_prefix rule) packet tail)
    ∙ parse_line-log_line header rule (packet ++ tail) h short free
    ∙ read_event_lem rule (packet ++ tail)
