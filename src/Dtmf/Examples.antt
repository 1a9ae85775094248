-- ===== src/Dtmf/Examples.antt =====
-- dtmf.py: the theorems of Dtmf at concrete key presses and dial plans.
use esphome_intercom.Prelude.{
  Text, codes, eq_text, eq_text_sound, non_empty, strip, upper, starts_with, ◌≡◌, refl, sym, ◌↔◌,
  true, false, ◌&&◌, none, some, List, [], ◌∷◌, arith,
}
use esphome_intercom.Dtmf.{
  telephone_event_code, packed, build_telephone_event_payload, RtpDtmfDecoder, decode, Datagram,
  decode_all,
}
use esphome_intercom.Dtmf.Decoder.{heard, presses, decode_all-presses, decode-build}
use esphome_intercom.Rtp.{Bytes, ok, RtpPacket, marker_byte, build_packet}
use esphome_intercom.Dtmf.Collect.{
  Routes, route?, ends_with, match_dtmf, Arrivals, collect_info_digits, collect,
}
use esphome_intercom.Dtmf.Collect.Codes.{Extends, match_dtmf_iff}
use esphome_intercom.Dtmf.Collect.Agreement.{collect-agrees}

-- Key 5, pressed at time 1000 by source 7.
abbrev five : RtpPacket
five = record {
  payload_type = 101;
  sequence = 1;
  timestamp = 1000;
  ssrc = 7;
  payload = 5 ∷ 138 ∷ 0 ∷ 160 ∷ [];
  marker = true;
}

abbrev five_wire : Bytes
five_wire = 128 ∷ 229 ∷ 0 ∷ 1 ∷ 0 ∷ 0 ∷ 3 ∷ 232 ∷ 0 ∷ 0 ∷ 0 ∷ 7 ∷ 5 ∷ 138 ∷ 0 ∷ 160 ∷ []

five_packs :
    build_telephone_event_payload (codes " 5") 160 true 10 ≡ packed (5 ∷ 138 ∷ 0 ∷ 160 ∷ [])
unfolding build_telephone_event_payload telephone_event_code upper strip eq_text
five_packs = refl

five_builds : build_packet five ≡ ok five_wire
unfolding build_packet marker_byte
five_builds = refl

decode-build_example :
    (decode (record { payload_type = 101; ssrc = none; seen_events = [] }) five_wire none).0
    ≡ upper (strip (codes " 5"))
decode-build_example = decode-build (codes " 5") 160 10 true five five_wire five_packs five_builds

abbrev decoder : RtpDtmfDecoder
decoder = record { payload_type = 101; ssrc = some 7; seen_events = [] }

abbrev phone_host : Text
phone_host = codes "10.0.0.7"

abbrev datagrams : List Datagram
datagrams =
    (codes "10.0.0.9", five_wire)
    ∷ (phone_host, five_wire)
    ∷ (phone_host, 1 ∷ [])
    ∷ (phone_host, five_wire)
    ∷ []

decode_all-presses_example :
    decode_all phone_host decoder datagrams ≡ presses 101 7 [] (heard phone_host datagrams)
decode_all-presses_example = decode_all-presses phone_host decoder 7 datagrams refl (omega arith)

other_host_unheard : heard phone_host datagrams ≡ five_wire ∷ (1 ∷ []) ∷ five_wire ∷ []
unfolding heard eq_text
other_host_unheard = refl

-- Of "1" and "12", only "12" has no longer code.
abbrev dial_plan : Routes
dial_plan = (codes "1", codes "kitchen") ∷ (codes "12", codes "garage") ∷ []

one_open : ends_with (codes "1") (codes "#") ≡ false
unfolding ends_with starts_with
one_open = refl

twelve_open : (non_empty (codes "#") && ends_with (codes "12") (codes "#")) ≡ false
unfolding ends_with starts_with
twelve_open = refl

match_dtmf_iff_example :
    (match_dtmf (codes "12") dial_plan (codes "#") ≡ (codes "garage", true))
    ↔ ((route? dial_plan (codes "12") ≡ some (codes "garage")) × ¬ (Extends (codes "12") dial_plan))
match_dtmf_iff_example =
    match_dtmf_iff dial_plan (codes "12") (codes "#") (codes "garage") twelve_open

ends_plain :
    (code known : Text)
    → eq_text known code ≡ true
    → ends_with known (codes "#") ≡ false
    → ends_with code (codes "#") ≡ false
ends_plain code known same plain = rw (sym (eq_text_sound known code same)) plain

-- No code of this plan ends with "#".
plan_open :
    (code : Text)
    → (non_empty (codes "#") && ends_with code (codes "#")) ≡ true
    → route? dial_plan code ≡ none
unfolding route?
plan_open code h =
    ground (arith, ends_plain code (codes "1"), ends_plain code (codes "12"), one_open, twelve_open)

abbrev keys : Arrivals
keys = (105, codes "1") ∷ (120, codes "2") ∷ []

collect-agrees_example :
    collect dial_plan (codes "#") 100 300 keys
    ≡ collect_info_digits dial_plan (codes "#") 100 300 keys
collect-agrees_example =
    collect-agrees dial_plan (codes "#") plan_open 100 300 keys (omega arith)
      (omega arith, (omega arith, tt))
