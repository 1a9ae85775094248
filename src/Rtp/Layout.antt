-- ===== src/Rtp/Layout.antt =====
-- The layout of an RTP packet, from RFC 3550 section 5.1, and the bits of its first two bytes.
use esphome_intercom.Prelude.{
  ℕ, ◌+◌, ◌*◌, ◌%◌, ◌/◌, ◌^◌, ◌≤◌, ◌<◌, ◌≡◌, refl, Bool, true, false, Option, none, some, [], ◌∷◌,
  ◌++◌, ==_iff, ◌==◌, if◌then◌else◌, length, bit_and, bit_or, all_below, all_below_sound,
}
use esphome_intercom.Rtp.{RtpPacket, marker_byte, Bytes, be16, be32}

-- The variable parts of a packet: the CSRC list, the header extension, and the padding without the
-- count that ends it.
pub record Extras : Type 0 where
  pub csrc_count : ℕ
  pub csrc : Bytes
  pub extension : Option (Bytes × ℕ × Bytes)
  pub padding : Option Bytes

abbrev pub flag : Bool → ℕ → ℕ
flag set_ weight = if set_ then weight else 0

abbrev pub has {ℓ} : {A : Type ℓ} → Option A → Bool
has none = false
has (some a) = true

abbrev pub extension_bytes : Option (Bytes × ℕ × Bytes) → Bytes
extension_bytes none = []
extension_bytes (some (profile, words, body)) = profile ++ (be16 words ++ body)

abbrev pub padding_bytes : Option Bytes → Bytes
padding_bytes none = []
padding_bytes (some fill) = fill ++ (length fill + 1) ∷ []

abbrev pub first_byte : Extras → ℕ
first_byte x = 128 + flag (has x.padding) 32 + flag (has x.extension) 16 + x.csrc_count

-- The layout, written from the RFC.
abbrev pub encode : Extras → RtpPacket → Bytes
encode x p =
    first_byte x ∷ (flag p.marker 128 + p.payload_type) ∷ be16 p.sequence
    ++ (be32 p.timestamp
        ++ (be32 p.ssrc
            ++ (x.csrc ++ (extension_bytes x.extension ++ (p.payload ++ padding_bytes x.padding)))))

abbrev pub ExtensionFits : Option (Bytes × ℕ × Bytes) → Type 0
ExtensionFits none = Unit {0}
ExtensionFits (some (profile, words, body)) =
    (length profile ≡ 2) × (words < 2 ^ 16) × (length body ≡ words * 4)

pub record IsPacket (p : RtpPacket) : Type 0 where
  pub payload_type_fits : p.payload_type < 128
  pub sequence_fits : p.sequence < 2 ^ 16
  pub timestamp_fits : p.timestamp < 2 ^ 32
  pub ssrc_fits : p.ssrc < 2 ^ 32
  pub payload_fits : length p.payload ≤ 65507

pub record AreExtras (x : Extras) : Type 0 where
  pub count_fits : x.csrc_count < 16
  pub csrc_fits : length x.csrc ≡ x.csrc_count * 4
  pub extension_fits : ExtensionFits x.extension

-- The bits of the first two bytes.
pub first_bits :
    (b : ℕ)
    → b < 256
    → (bit_and b 0x0f ≡ b % 16)
      × (bit_and b 0x10 ≡ b / 16 % 2 * 16)
      × (bit_and b 0x20 ≡ b / 32 % 2 * 32)
unfolding all_below
first_bits b h = (
  (==_iff _ _).0 (all_below_sound 256 (λ c. bit_and c 0x0f == c % 16) b refl h),
  (==_iff _ _).0 (all_below_sound 256 (λ c. bit_and c 0x10 == c / 16 % 2 * 16) b refl h),
  (==_iff _ _).0 (all_below_sound 256 (λ c. bit_and c 0x20 == c / 32 % 2 * 32) b refl h),
)

pub second_bits :
    (b : ℕ) → b < 256 → (bit_and b 0x7f ≡ b % 128) × (bit_and b 0x80 ≡ b / 128 % 2 * 128)
unfolding all_below
second_bits b h = (
  (==_iff _ _).0 (all_below_sound 256 (λ c. bit_and c 0x7f == c % 128) b refl h),
  (==_iff _ _).0 (all_below_sound 256 (λ c. bit_and c 0x80 == c / 128 % 2 * 128) b refl h),
)

pub marker_byte_sum : (marker : Bool) (t : ℕ) → t < 128 → marker_byte marker t ≡ flag marker 128 + t
unfolding marker_byte all_below
marker_byte_sum true t h =
    (==_iff _ _).0 (all_below_sound 128 (λ c. bit_or 0x80 c == 128 + c) t refl h)
marker_byte_sum false t h = (==_iff _ _).0 (all_below_sound 128 (λ c. bit_or 0 c == 0 + c) t refl h)
