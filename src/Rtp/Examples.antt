-- ===== src/Rtp/Examples.antt =====
-- rtp.py: runs of the packet functions, and the theorems of Rtp at concrete packets.
use esphome_intercom.Prelude.{
  leb, if◌then◌else◌, take, drop, All, codes, strip, upper, ◌+◌, ◌*◌, ◌%◌, ◌^◌, ◌≤◌, ◌≡◌, refl, ◌↔◌,
  true, some, [], ◌∷◌, ◌++◌, arith,
}
use esphome_intercom.Rtp.Sizes.{
  opus_bytes, validate_audio_payload_size_opus, Sample, a_law, validate_audio_payload_size_pcm,
}
use esphome_intercom.Rtp.{
  Bytes, payload_too_large, invalid_padding, ok, err, RtpPacket, marker_byte, build_packet,
  skip_extension, strip_padding, parse_packet, next_sequence, AudioRtpFormat,
  validate_audio_payload_size,
}
use esphome_intercom.Rtp.Limits.{
  IsByte, LiesIn, parse_packet-IsPacket, iterate, next_sequence_iterated,
}
use esphome_intercom.Rtp.Layout.{Extras, encode, IsPacket, AreExtras}
use esphome_intercom.Rtp.Wire.{parse-encode, parse-build}

abbrev packet : RtpPacket
packet = record {
  payload_type = 8;
  sequence = 65535;
  timestamp = 1000;
  ssrc = 7;
  payload = 1 ∷ 2 ∷ 3 ∷ [];
  marker = true;
}

abbrev packet_IsPacket : IsPacket packet
packet_IsPacket = record {
  payload_type_fits = omega arith;
  sequence_fits = omega arith;
  timestamp_fits = omega arith;
  ssrc_fits = omega arith;
  payload_fits = omega arith;
}

-- One contributing source, an extension of one word, and two bytes of padding.
abbrev extras : Extras
extras = record {
  csrc_count = 1;
  csrc = 0 ∷ 0 ∷ 0 ∷ 9 ∷ [];
  extension = some (190 ∷ 222 ∷ [], 1, 5 ∷ 6 ∷ 7 ∷ 8 ∷ []);
  padding = some (0 ∷ []);
}

abbrev extras_AreExtras : AreExtras extras
extras_AreExtras = record {
  count_fits = omega arith;
  csrc_fits = refl;
  extension_fits = (refl, omega arith, refl);
}

abbrev wire : Bytes
wire = 128 ∷ 136 ∷ 255 ∷ 255 ∷ 0 ∷ 0 ∷ 3 ∷ 232 ∷ 0 ∷ 0 ∷ 0 ∷ 7 ∷ 1 ∷ 2 ∷ 3 ∷ []

builds : build_packet packet ≡ ok wire
unfolding build_packet marker_byte
builds = refl

-- A last byte that counts more padding than there is behind the header is refused.
refuses : parse_packet (160 ∷ drop 1 (take 14 wire) ++ 4 ∷ []) ≡ err invalid_padding
unfolding parse_packet skip_extension strip_padding
refuses = refl

parse-encode_example : parse_packet (encode extras packet) ≡ ok packet
parse-encode_example = parse-encode extras packet extras_AreExtras packet_IsPacket

parse-build_example : parse_packet wire ≡ ok packet
parse-build_example = parse-build packet wire builds

wire_bytes : All IsByte wire
wire_bytes = ground arith

parse_packet-IsPacket_example :
    IsPacket packet × (3 + 12 ≤ 15) × LiesIn wire (1 ∷ 2 ∷ 3 ∷ []) × All IsByte (1 ∷ 2 ∷ 3 ∷ [])
parse_packet-IsPacket_example = parse_packet-IsPacket wire packet wire_bytes parse-build_example

next_sequence_iterated_example : iterate 3 next_sequence 65534 ≡ (65534 + 3) % 2 ^ 16
next_sequence_iterated_example = next_sequence_iterated 3 65534 (omega arith)

abbrev opus : AudioRtpFormat
opus = record { encoding = codes "opus "; sample_rate = 48000; channels = 2; frame_ms = 20 }

opus_named : upper (strip opus.encoding) ≡ codes "OPUS"
unfolding upper strip
opus_named = refl

-- One frame of two bytes in a packet of four.
validate_audio_payload_size_opus_example :
    validate_audio_payload_size (0 ∷ 2 ∷ 7 ∷ 9 ∷ []) opus
    ≡ (if leb 4 12288 then ok tt else err payload_too_large)
unfolding opus_bytes
validate_audio_payload_size_opus_example =
    validate_audio_payload_size_opus opus (2 ∷ []) (0 ∷ 2 ∷ 7 ∷ 9 ∷ []) opus_named
      (omega arith, omega arith, omega arith) (omega arith, tt) (omega arith) refl

abbrev telephone : AudioRtpFormat
telephone = record { encoding = codes " pcma"; sample_rate = 8000; channels = 1; frame_ms = 20 }

telephone-Sample : Sample (upper (strip telephone.encoding)) 1
unfolding upper strip
telephone-Sample = a_law

validate_audio_payload_size_pcm_example :
    (validate_audio_payload_size (1 ∷ 2 ∷ 3 ∷ []) telephone ≡ ok tt)
    ↔ ((3 ≤ 160 * 1 * 1) × (3 ≤ 12288))
validate_audio_payload_size_pcm_example =
    validate_audio_payload_size_pcm telephone 1 160 (1 ∷ 2 ∷ 3 ∷ []) telephone-Sample
      (omega arith, omega arith, omega arith) (omega arith)
