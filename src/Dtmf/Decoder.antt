-- ===== src/Dtmf/Decoder.antt =====
-- dtmf.py: `RtpDtmfDecoder` over the datagrams of a call, and a digit on its way through a packet.
use esphome_intercom.Prelude.{
  leb, ◌==◌, if◌then◌else◌, Option-cases, length, get_or, Text, eq_text, eq_text_sound, non_empty,
  strip, upper, ℕ, suc, ◌+◌, ◌≤◌, ◌<◌, bit_or, ◌≡◌, refl, inl, inr, Bool, true, ◌&&◌, Option, none,
  some, List, [], ◌∷◌, arith,
}
use esphome_intercom.Dtmf.{
  event_digits, event_digit, digit_event, telephone_event_code, packed,
  build_telephone_event_payload, RtpDtmfDecoder, seen, add_event, first_or, decode_event, differs,
  decode_packet, decode, Datagram, from_elsewhere, decode_all,
}
use esphome_intercom.Rtp.Wire.{parse-build}
use esphome_intercom.Rtp.{Bytes, ok, err, Result-cases, RtpPacket, be16, build_packet, parse_packet}

-- The bytes of the datagrams that come from the host that is listened to; with no host, of all.
unfoldable pub heard : Text → List Datagram → List Bytes
heard remote_host [] = []
heard [] ((host, wire) ∷ datagrams) = wire ∷ heard [] datagrams
heard (c ∷ s) ((host, wire) ∷ datagrams) =
    let rest = heard (c ∷ s) datagrams in if eq_text host (c ∷ s) then wire ∷ rest else rest

heard-from :
    (remote_host host : Text) (wire : Bytes) (datagrams : List Datagram)
    → heard remote_host ((host, wire) ∷ datagrams) ≡ (
        if from_elsewhere remote_host host
        then heard remote_host datagrams
        else wire ∷ heard remote_host datagrams)
unfolding heard from_elsewhere
heard-from [] host wire datagrams = refl
heard-from (c ∷ s) host wire datagrams = ground arith

-- What a datagram reports to a decoder that listens to one source: its event, if it is one.
unfoldable pub packet_event : ℕ → ℕ → RtpPacket → Option (ℕ × ℕ)
packet_event payload_type source p =
    if p.payload_type == payload_type
      && leb 4 (length p.payload)
      && p.ssrc == source
      && non_empty (event_digit (get_or p.payload 0 0) event_digits)
    then some (p.timestamp, get_or p.payload 0 0)
    else none

unfoldable pub wire_event : ℕ → ℕ → Bytes → Option (ℕ × ℕ)
wire_event payload_type source wire = elim (parse_packet wire) [
  | ok p ↦ packet_event payload_type source p
  | err e ↦ none
]

-- The digits of the events that differ from all before them.
pub presses : ℕ → ℕ → List (ℕ × ℕ) → List Bytes → List Text
presses payload_type source old [] = []
presses payload_type source old (wire ∷ wires) = elim (wire_event payload_type source wire) [
  | none ↦ presses payload_type source old wires
  | some (t, e) ↦
      if seen (t, e) old
      then presses payload_type source old wires
      else event_digit e event_digits ∷ presses payload_type source ((t, e) ∷ old) wires
]

-- What a decoder that has taken a source does with an event.
abbrev take_event : RtpDtmfDecoder → Option (ℕ × ℕ) → Text × RtpDtmfDecoder
take_event d none = ([], d)
take_event d (some (t, e)) =
    if seen (t, e) d.seen_events
    then ([], d)
    else (event_digit e event_digits, record d { seen_events = (t, e) ∷ d.seen_events })

decode_packet_step :
    (d : RtpDtmfDecoder) (source : ℕ) (p : RtpPacket)
    → d.ssrc ≡ some source
    → length d.seen_events < 256
    → decode_packet d p none ≡ take_event d (packet_event d.payload_type source p)
unfolding decode_packet decode_event differs first_or packet_event add_event
decode_packet_step d source p locked room = ground arith

decode_step :
    (d : RtpDtmfDecoder) (source : ℕ) (wire : Bytes)
    → d.ssrc ≡ some source
    → length d.seen_events < 256
    → decode d wire none ≡ take_event d (wire_event d.payload_type source wire)
unfolding decode wire_event
decode_step d source wire locked room = elim (Result-cases (parse_packet wire)) [
  | inl (p, e) ↦ rw (e, decode, wire_event) (decode_packet_step d source p locked room)
  | inr (r, e) ↦ rw (e, decode, wire_event)
]

wire_event_digit :
    (payload_type source : ℕ) (wire : Bytes) (t e : ℕ)
    → wire_event payload_type source wire ≡ some (t, e)
    → non_empty (event_digit e event_digits) ≡ true
unfolding wire_event packet_event
wire_event_digit payload_type source wire t e h = elim (Result-cases (parse_packet wire)) [
  | inl (p, q) ↦ ground (arith, q)
  | inr (r, q) ↦ ground (arith, q)
]

decode_all_from :
    (remote_host : Text) (d : RtpDtmfDecoder) (source : ℕ) (host : Text) (wire : Bytes)
    (datagrams : List Datagram)
    → d.ssrc ≡ some source
    → length d.seen_events < 256
    → let (digit, d') = take_event d (wire_event d.payload_type source wire) in
      decode_all remote_host d ((host, wire) ∷ datagrams) ≡ (
        if from_elsewhere remote_host host
        then decode_all remote_host d datagrams
        else if non_empty digit
        then digit ∷ decode_all remote_host d' datagrams
        else decode_all remote_host d' datagrams)
unfolding decode_all
decode_all_from remote_host d source host wire datagrams locked room =
    rw (decode_step d source wire locked room) refl

presses_stream :
    (remote_host : Text) (d : RtpDtmfDecoder) (source : ℕ) (datagrams : List Datagram)
    → d.ssrc ≡ some source
    → length d.seen_events + length datagrams ≤ 256
    → decode_all remote_host d datagrams
      ≡ presses d.payload_type source d.seen_events (heard remote_host datagrams)
unfolding decode_all presses heard
presses_stream remote_host d source [] locked room = refl
presses_stream remote_host d source ((host, wire) ∷ rest) locked room =
    let step = decode_all_from remote_host d source host wire rest locked (omega arith) in
    let next = heard-from remote_host host wire rest in
    elim (Option-cases (wire_event d.payload_type source wire)) [
      | inl e ↦
          ground
            (arith, e, step, next, presses_stream remote_host d source rest locked (omega arith))
      | inr ((t, ev), e) ↦ ground (
        arith,
        e,
        step,
        next,
        wire_event_digit d.payload_type source wire t ev e,
        presses_stream remote_host d source rest locked (omega arith),
        presses_stream remote_host (record d { seen_events = (t, ev) ∷ d.seen_events }) source rest
            locked (omega arith),
      )
    ]

-- A decoder that is locked to a source reports each event of that source once, at its first packet
-- among the datagrams of the remote host, or among all of them where no remote host is set,
-- whatever else arrives, while the events it has seen and the datagrams are together at most 256.
pub decode_all-presses :
    (remote_host : Text) (d : RtpDtmfDecoder) (source : ℕ) (datagrams : List Datagram)
    → d.ssrc ≡ some source
    → length d.seen_events + length datagrams ≤ 256
    → decode_all remote_host d datagrams
      ≡ presses d.payload_type source d.seen_events (heard remote_host datagrams)
decode_all-presses remote_host d source datagrams locked room =
    presses_stream remote_host d source datagrams locked room

-- The keys of a table rise, from a bound on.
abbrev Rising : ℕ → List (ℕ × Text) → Type 0
Rising low [] = Unit {0}
Rising low ((e, d) ∷ rest) = (low ≤ e) × Rising (suc e) rest

digit_event-ge :
    (digit : Text) (low event : ℕ) (table : List (ℕ × Text))
    → Rising low table
    → digit_event digit table ≡ some event
    → low ≤ event
unfolding digit_event
digit_event-ge digit low event [] r h = cc
digit_event-ge digit low event ((e, d) ∷ rest) r h =
    ground (arith, digit_event-ge digit (suc e) event rest r.1)

event_digit-digit_event :
    (digit : Text) (low event : ℕ) (table : List (ℕ × Text))
    → Rising low table
    → digit_event digit table ≡ some event
    → event_digit event table ≡ digit
unfolding digit_event event_digit
event_digit-digit_event digit low event [] r h = cc
event_digit-digit_event digit low event ((e, d) ∷ rest) r h = ground (
  arith,
  eq_text_sound d digit,
  digit_event-ge digit (suc e) event rest r.1,
  event_digit-digit_event digit (suc e) event rest r.1,
)

abbrev fresh : ℕ → RtpDtmfDecoder
fresh payload_type = record { payload_type = payload_type; ssrc = none; seen_events = [] }

telephone_event_digit :
    (digit : Text) (event : ℕ)
    → telephone_event_code digit ≡ some event
    → event_digit event event_digits ≡ upper (strip digit)
unfolding telephone_event_code
telephone_event_digit digit event h =
    event_digit-digit_event (upper (strip digit)) 0 event event_digits (omega arith) h

digit_event_ne_nil :
    (digit : Text) (event : ℕ)
    → digit_event digit event_digits ≡ some event
    → non_empty digit ≡ true
unfolding digit_event eq_text
digit_event_ne_nil [] event h = cc h
digit_event_ne_nil (c ∷ s) event h = refl

payload_event :
    (digit : Text) (duration volume : ℕ) (end : Bool) (payload : Bytes)
    → build_telephone_event_payload digit duration end volume ≡ packed payload
    → (event flags : ℕ) × (telephone_event_code digit ≡ some event)
      × (payload ≡ event ∷ flags ∷ be16 duration)
unfolding build_telephone_event_payload
payload_event digit duration volume end payload h =
    elim (Option-cases (telephone_event_code digit)) [
      | inl e ↦ absurd (ground (arith, e))
      | inr (event, e) ↦ (event, bit_or (if end then 0x80 else 0) volume, e, ground (arith, e))
    ]

decode_packet-fresh :
    (p : RtpPacket) (event flags high low : ℕ) (digit : Text)
    → p.payload ≡ event ∷ flags ∷ high ∷ low ∷ []
    → event_digit event event_digits ≡ digit
    → non_empty digit ≡ true
    → (decode_packet (fresh p.payload_type) p none).0 ≡ digit
unfolding decode_packet decode_event differs first_or seen
decode_packet-fresh p event flags high low digit shape known there = ground arith

-- A digit that is packed into a telephone event and sent in an RTP packet is the digit that a fresh
-- decoder of that payload type reports, stripped and upper-case.
pub decode-build :
    (digit : Text) (duration volume : ℕ) (end : Bool) (p : RtpPacket) (wire : Bytes)
    → build_telephone_event_payload digit duration end volume ≡ packed p.payload
    → build_packet p ≡ ok wire
    → (decode (fresh p.payload_type) wire none).0 ≡ upper (strip digit)
unfolding decode
decode-build digit duration volume end p wire packs builds =
    let (event, flags, known, shape) = payload_event digit duration volume end p.payload packs in
    rw (parse-build p wire builds, decode)
      (decode_packet-fresh p event _ _ _ (upper (strip digit)) shape
        (telephone_event_digit digit event known)
        (digit_event_ne_nil (upper (strip digit)) event (unfold telephone_event_code in known)))
