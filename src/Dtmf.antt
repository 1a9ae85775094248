-- ===== src/Dtmf.antt =====
-- custom_components/voip_stack/dtmf.py: RFC 4733 telephone events and the collection of a dialled code.
-- Sockets, futures and the event loop are left out: what they deliver are the arguments here.
pub mod Decoder
pub mod Collect
pub mod Examples
use mathlib.Core.List.{reverse}
use esphome_intercom.Prelude.{
  ltb, leb, ◌==◌, if◌then◌else◌, length, get_or, Text, codes, eq_text, non_empty, strip, upper, ℕ,
  bit_or, Bool, false, not, ◌&&◌, ◌||◌, Option, none, some, List, [], ◌∷◌,
}
use esphome_intercom.Rtp.{Bytes, ok, err, RtpPacket, be16, parse_packet}

-- _EVENT_DIGITS
abbrev pub event_digits : List (ℕ × Text)
event_digits =
    (0, codes "0")
    ∷ (1, codes "1")
    ∷ (2, codes "2")
    ∷ (3, codes "3")
    ∷ (4, codes "4")
    ∷ (5, codes "5")
    ∷ (6, codes "6")
    ∷ (7, codes "7")
    ∷ (8, codes "8")
    ∷ (9, codes "9")
    ∷ (10, codes "*")
    ∷ (11, codes "#")
    ∷ (12, codes "A")
    ∷ (13, codes "B")
    ∷ (14, codes "C")
    ∷ (15, codes "D")
    ∷ []

-- _EVENT_DIGITS.get(event, "")
unfoldable pub event_digit : ℕ → List (ℕ × Text) → Text
event_digit event [] = []
event_digit event ((e, digit) ∷ rest) = if e == event then digit else event_digit event rest

-- _DIGIT_EVENT_CODES.get(digit)
unfoldable pub digit_event : Text → List (ℕ × Text) → Option ℕ
digit_event digit [] = none
digit_event digit ((e, d) ∷ rest) = if eq_text d digit then some e else digit_event digit rest

unfoldable pub telephone_event_code : Text → Option ℕ
unfolding digit_event
telephone_event_code digit = digit_event (upper (strip digit)) event_digits

pub data EventError : Type 0 where
  unsupported_digit duration_range volume_range : EventError

-- The four bytes of a named event, or the message of the `ValueError`.
pub data Payload : Type 0 where
  packed : Bytes → Payload
  refused : EventError → Payload

unfoldable pub build_telephone_event_payload : Text → ℕ → Bool → ℕ → Payload
build_telephone_event_payload digit duration end volume = elim (telephone_event_code digit) [
  | none ↦ refused unsupported_digit
  | some event ↦
      if leb 1 duration && leb duration 0xffff
      then (if leb volume 63
          then packed (event ∷ bit_or (if end then 0x80 else 0) volume ∷ be16 duration)
          else refused volume_range)
      else refused duration_range
]

-- RtpDtmfDecoder. The set of seen events is a list without repetitions.
pub record RtpDtmfDecoder : Type 0 where
  pub payload_type : ℕ
  pub ssrc : Option ℕ
  pub seen_events : List (ℕ × ℕ)

-- The bound on the set of seen events.
abbrev pub max_seen_events : ℕ
max_seen_events = 256

unfoldable pub seen : ℕ × ℕ → List (ℕ × ℕ) → Bool
seen (timestamp, event) [] = false
seen (timestamp, event) ((t, e) ∷ rest) =
    (t == timestamp && e == event) || seen (timestamp, event) rest

-- `self._seen_events.add(key)` for a new key, and the reset of a set that grew too large.
unfoldable pub add_event : ℕ × ℕ → List (ℕ × ℕ) → List (ℕ × ℕ)
add_event key events =
    if ltb max_seen_events (length (key ∷ events)) then key ∷ [] else key ∷ events

unfoldable pub first_or : Option ℕ → ℕ → ℕ
first_or none n = n
first_or (some m) n = m

-- An event packet that passed the payload type and the SSRC tests.
unfoldable pub decode_event : RtpDtmfDecoder → ℕ → ℕ → Text × RtpDtmfDecoder
decode_event d timestamp event =
    let digit = event_digit event event_digits in
    if not (non_empty digit)
    then ([], d)
    else if seen (timestamp, event) d.seen_events
    then ([], d)
    else (digit, record d { seen_events = add_event (timestamp, event) d.seen_events })

unfoldable pub differs : Option ℕ → ℕ → Bool
differs none n = false
differs (some m) n = not (m == n)

unfoldable pub decode_packet : RtpDtmfDecoder → RtpPacket → Option ℕ → Text × RtpDtmfDecoder
decode_packet d packet expected_ssrc =
    if not (packet.payload_type == d.payload_type) || ltb (length packet.payload) 4
    then ([], d)
    else if differs expected_ssrc packet.ssrc
    then ([], d)
    else if differs d.ssrc packet.ssrc
    then ([], d)
    else decode_event (record d { ssrc = some (first_or d.ssrc packet.ssrc) }) packet.timestamp
        (get_or packet.payload 0 0)

unfoldable pub decode : RtpDtmfDecoder → Bytes → Option ℕ → Text × RtpDtmfDecoder
decode d wire expected_ssrc = elim (parse_packet wire) [
  | ok packet ↦ decode_packet d packet expected_ssrc
  | err e ↦ ([], d)
]

-- A datagram, with the host that it came from.
abbrev pub Datagram : Type 0
Datagram = Text × Bytes

-- self.remote_host and str(addr[0]) != self.remote_host
unfoldable pub from_elsewhere : Text → Text → Bool
from_elsewhere remote_host host = non_empty remote_host && not (eq_text host remote_host)

-- The digits of a stream of datagrams, as `_DtmfProtocol.datagram_received` hands them on.
unfoldable pub decode_all : Text → RtpDtmfDecoder → List Datagram → List Text
unfolding from_elsewhere
decode_all remote_host d [] = []
decode_all remote_host d ((host, wire) ∷ datagrams) =
    let (digit, d') = decode d wire none in
    let rest = decode_all remote_host d' datagrams in
    let skipped = decode_all remote_host d datagrams in
    if from_elsewhere remote_host host
    then skipped
    else if non_empty digit
    then digit ∷ rest
    else rest
