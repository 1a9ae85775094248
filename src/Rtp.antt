-- ===== src/Rtp.antt =====
-- custom_components/voip_stack/rtp.py: RTP version 2 packets and the size limit of an audio payload.
-- A byte string is a list of numbers. The integers that Python packs are never negative here, so the
-- lower half of each range test `0 <= x` is the type ℕ.
pub mod Layout
pub mod Wire
pub mod Limits
pub mod Sizes
pub mod Examples
use esphome_intercom.Prelude.{
  ltb, leb, ◌==◌, if◌then◌else◌, length, get_or, take, drop, Text, codes, eq_text, strip, upper, ℕ,
  suc, ◌+◌, ◌-◌, ◌*◌, ◌/◌, ◌%◌, ◌^◌, min, max, bit_and, bit_or, ◌≡◌, refl, ◌⊎◌, inl, inr, Bool,
  true, false, not, ◌&&◌, ◌||◌, Option, none, some, List, [], ◌∷◌, ◌++◌,
}

abbrev pub Bytes : Type 0
Bytes = List ℕ

abbrev pub rtp_version : ℕ
rtp_version = 2

abbrev pub rtp_header_size : ℕ
rtp_header_size = 12

abbrev pub max_rtp_payload_bytes : ℕ
max_rtp_payload_bytes = 1400

abbrev pub max_rtp_receive_payload_bytes : ℕ
max_rtp_receive_payload_bytes = 65507

abbrev pub max_audio_rtp_payload_bytes : ℕ
max_audio_rtp_payload_bytes = 12 * 1024

abbrev pub max_opus_frame_bytes : ℕ
max_opus_frame_bytes = 1275

abbrev pub min_opus_frame_us : ℕ
min_opus_frame_us = 2500

-- The messages of `RtpError`.
pub data RtpError : Type 0 where
  payload_type_range sequence_range timestamp_range ssrc_range payload_too_large : RtpError
  too_short unsupported_version extension_truncated csrc_truncated invalid_padding : RtpError
  invalid_format unsupported_encoding partial_samples : RtpError

pub data Result {ℓ} (A : Type ℓ) : Type ℓ where
  ok : A → Result A
  err : RtpError → Result A

infixl 5 ◌>>◌ ◌>>=◌
abbrev pub ◌>>=◌ {ℓ κ} : {A : Type ℓ} {B : Type κ} → Result A → (A → Result B) → Result B
err problem >>= then_ = err problem
ok value >>= then_ = then_ value

abbrev pub ◌>>◌ {ℓ} : {A : Type ℓ} → Result (Unit {0}) → Result A → Result A
check >> rest = check >>= λ done. rest

-- To split on a result and keep the equation.
pub Result-cases {ℓ} :
    {A : Type ℓ} (r : Result A) → ((a : A) × (r ≡ ok a)) ⊎ ((e : RtpError) × (r ≡ err e))
Result-cases (ok a) = inl (a, refl)
Result-cases (err e) = inr (e, refl)

-- if not test: raise RtpError(e)
abbrev pub require : Bool → RtpError → Result (Unit {0})
require true e = ok tt
require false e = err e

pub record RtpPacket : Type 0 where
  pub payload_type : ℕ
  pub sequence : ℕ
  pub timestamp : ℕ
  pub ssrc : ℕ
  pub payload : Bytes
  pub marker : Bool

-- struct.Struct("!BBHII"), both ways
abbrev pub be16 : ℕ → Bytes
be16 n = n / 256 % 256 ∷ n % 256 ∷ []

abbrev pub be32 : ℕ → Bytes
be32 n = n / 2 ^ 24 % 256 ∷ n / 2 ^ 16 % 256 ∷ n / 256 % 256 ∷ n % 256 ∷ []

abbrev pub read16 : Bytes → ℕ → ℕ
read16 wire off = get_or wire off 0 * 256 + get_or wire (suc off) 0

abbrev pub read32 : Bytes → ℕ → ℕ
read32 wire off = read16 wire off * 2 ^ 16 + read16 wire (suc (suc off))

-- The second byte: the marker bit over the payload type.
unfoldable pub marker_byte : Bool → ℕ → ℕ
marker_byte marker payload_type = bit_or (if marker then 0x80 else 0) payload_type

unfoldable pub build_packet : RtpPacket → Result Bytes
build_packet p = do
  require (leb p.payload_type 127) payload_type_range
  require (leb p.sequence 0xffff) sequence_range
  require (leb p.timestamp 0xffffffff) timestamp_range
  require (leb p.ssrc 0xffffffff) ssrc_range
  require (leb (length p.payload) max_rtp_payload_bytes) payload_too_large
  ok (
      (rtp_version * 2 ^ 6) ∷ marker_byte p.marker p.payload_type ∷ be16 p.sequence
      ++ (be32 p.timestamp ++ (be32 p.ssrc ++ p.payload)))

-- The header extension: the offset behind it.
pub skip_extension : Bytes → Bool → ℕ → Result ℕ
skip_extension wire has_extension off =
    if has_extension
    then (if ltb (length wire) (off + 4)
        then err extension_truncated
        else ok (off + (4 + read16 (drop (off + 2) wire) 0 * 4)))
    else ok off

-- The padding that the last byte counts: the offset of its first byte.
pub strip_padding : Bytes → Bool → ℕ → Result ℕ
strip_padding wire has_padding off =
    let end = length wire in
    let pad = get_or wire (end - 1) 0 in
    if has_padding
    then (if pad == 0 || ltb (end - off) pad then err invalid_padding else ok (end - pad))
    else ok end

pub parse_packet : Bytes → Result RtpPacket
parse_packet wire = do
  require (leb rtp_header_size (length wire)) too_short
  let b0 = get_or wire 0 0
  let b1 = get_or wire 1 0
  require (b0 / 2 ^ 6 == rtp_version) unsupported_version
  off ← skip_extension wire (not (bit_and b0 0x10 == 0)) (rtp_header_size + bit_and b0 0x0f * 4)
  require (leb off (length wire)) csrc_truncated
  end ← strip_padding wire (not (bit_and b0 0x20 == 0)) off
  let payload = take (end - off) (drop off wire)
  require (leb (length payload) max_rtp_receive_payload_bytes) payload_too_large
  ok (record {
    payload_type = bit_and b1 0x7f;
    sequence = read16 wire 2;
    timestamp = read32 wire 4;
    ssrc = read32 wire 8;
    payload = payload;
    marker = not (bit_and b1 0x80 == 0);
  })

pub next_sequence : ℕ → ℕ
next_sequence sequence = (sequence + 1) % 2 ^ 16

pub next_timestamp : ℕ → ℕ → ℕ
next_timestamp timestamp samples_per_frame = (timestamp + samples_per_frame) % 2 ^ 32

-- The fields that `_AudioRtpFormat` names.
pub record AudioRtpFormat : Type 0 where
  pub encoding : Text
  pub sample_rate : ℕ
  pub channels : ℕ
  pub frame_ms : ℕ

pub bytes_per_sample : Text → Option ℕ
bytes_per_sample encoding =
    if eq_text encoding (codes "PCMA") || eq_text encoding (codes "PCMU")
    then some 1
    else if eq_text encoding (codes "L16")
    then some 2
    else if eq_text encoding (codes "L24")
    then some 3
    else none

-- The codec limit of Opus, before the overall cap: RFC 6716 frames, each with its length field.
pub opus_limit : ℕ → ℕ
opus_limit frame_ms =
    let frame_us = frame_ms * 1000 in
    let frame_count = max 1 ((frame_us + min_opus_frame_us - 1) / min_opus_frame_us) in
    frame_count * (max_opus_frame_bytes + 2)

pub pcm_limit : Option ℕ → ℕ → ℕ → ℕ → Result ℕ
pcm_limit none sample_rate channels frame_ms = err unsupported_encoding
pcm_limit (some width) sample_rate channels frame_ms = do
  let sample_numerator = sample_rate * frame_ms
  require (sample_numerator % 1000 == 0) partial_samples
  ok (sample_numerator / 1000 * channels * width)

pub audio_payload_size_limit : AudioRtpFormat → Result ℕ
unfolding opus_limit pcm_limit bytes_per_sample
audio_payload_size_limit fmt = do
  let encoding = upper (strip fmt.encoding)
  require (ltb 0 fmt.sample_rate && ltb 0 fmt.channels && ltb 0 fmt.frame_ms) invalid_format
  codec_limit ←
      if eq_text encoding (codes "OPUS")
      then ok (opus_limit fmt.frame_ms)
      else pcm_limit (bytes_per_sample encoding) fmt.sample_rate fmt.channels fmt.frame_ms
  ok (min codec_limit max_audio_rtp_payload_bytes)

pub validate_audio_payload_size : Bytes → AudioRtpFormat → Result (Unit {0})
validate_audio_payload_size payload fmt = do
  limit ← audio_payload_size_limit fmt
  require (leb (length payload) limit) payload_too_large
