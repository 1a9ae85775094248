-- ===== src/Rtp/Limits.antt =====
-- rtp.py: counters, and the fields of a parsed packet.
use esphome_intercom.Prelude.{
  ◌==◌, length, get_or, take, drop, length-take, length-drop, All, All-take, All-drop, ℕ, zero, suc,
  ◌+◌, ◌-◌, ◌*◌, ◌%◌, ◌^◌, ◌≤◌, ◌<◌, bit_and, ◌≡◌, refl, sym, ap, subst, inl, inr, Bool, not, List,
  [], ◌∷◌, arith,
}
use esphome_intercom.Rtp.{
  Bytes, ok, Result-cases, RtpPacket, skip_extension, strip_padding, parse_packet, next_sequence,
}
use mathlib.Core.Path.{subst}
use esphome_intercom.Rtp.Layout.{IsPacket, second_bits}

abbrev pub IsByte : ℕ → Type 0
IsByte b = b < 256

get_or-IsByte : (wire : Bytes) (i : ℕ) → All IsByte wire → get_or wire i 0 < 256
get_or-IsByte [] i h = omega arith
get_or-IsByte (b ∷ bs) zero h = h.0
get_or-IsByte (b ∷ bs) (suc i) h = get_or-IsByte bs i h.1

skip_extension-le :
    (wire : Bytes) (has_extension : Bool) (from off : ℕ)
    → skip_extension wire has_extension from ≡ ok off
    → from ≤ off
unfolding skip_extension
skip_extension-le wire has_extension from off h = ground arith

-- The offsets that `parse_packet` finds.
abbrev Offsets : Bytes → RtpPacket → Type 0
Offsets wire p =
    (off : ℕ) × (end : ℕ) × (12 + bit_and (get_or wire 0 0) 0x0f * 4 ≤ off)
    × (off ≤ length wire)
    × (p.payload ≡ take (end - off) (drop off wire))
    × (length p.payload ≤ 65507)
    × (p.payload_type ≡ bit_and (get_or wire 1 0) 0x7f)
    × (p.sequence ≡ get_or wire 2 0 * 256 + get_or wire 3 0)
    × (p.timestamp
        ≡ (get_or wire 4 0 * 256 + get_or wire 5 0) * 2 ^ 16
          + (get_or wire 6 0 * 256 + get_or wire 7 0))
    × (p.ssrc
        ≡ (get_or wire 8 0 * 256 + get_or wire 9 0) * 2 ^ 16
          + (get_or wire 10 0 * 256 + get_or wire 11 0))

parse_packet-Offsets : (wire : Bytes) (p : RtpPacket) → parse_packet wire ≡ ok p → Offsets wire p
unfolding parse_packet
parse_packet-Offsets wire p h =
    elim (Result-cases (
      skip_extension wire (not (bit_and (get_or wire 0 0) 0x10 == 0))
        (12 + bit_and (get_or wire 0 0) 0x0f * 4))) [
          | inr (e, q) ↦ absurd (ground (arith, q))
          | inl (off, q) ↦
              elim (Result-cases
                (strip_padding wire (not (bit_and (get_or wire 0 0) 0x20 == 0)) off)) [
                  | inr (e, r) ↦ absurd (ground (arith, q, r))
                  | inl (end, r) ↦
                      let below = skip_extension-le wire _ _ off q in
                      (
                        off,
                        end,
                        ground (arith, below),
                        ground (arith, q, r),
                        ground (arith, q, r),
                        ground (arith, q, r),
                        ground (arith, q, r),
                        ground (arith, q, r),
                        ground (arith, q, r),
                        ground (arith, q, r),
                      )
                ]
        ]

-- Where the payload of a packet lies in the datagram: a slice behind the fixed header and the CSRC
-- list that the first byte counts.
abbrev pub LiesIn : Bytes → Bytes → Type 0
LiesIn wire payload =
    (off : ℕ) × (12 + bit_and (get_or wire 0 0) 0x0f * 4 ≤ off)
    × (off + length payload ≤ length wire)
    × (payload ≡ take (length payload) (drop off wire))

take_own {ℓ} : {A : Type ℓ} → (n : ℕ) (xs : List A) → take n xs ≡ take (length (take n xs)) xs
take_own zero xs = refl
take_own (suc n) [] = refl
take_own (suc n) (x ∷ xs) = ap (λ t. x ∷ t) (take_own n xs)

slice-LiesIn :
    (wire payload : Bytes) (off n : ℕ)
    → 12 + bit_and (get_or wire 0 0) 0x0f * 4 ≤ off
    → off ≤ length wire
    → payload ≡ take n (drop off wire)
    → LiesIn wire payload
slice-LiesIn wire payload off n low high cut = (
  off,
  low,
  omega (arith, ap length cut, length-take n (drop off wire), length-drop off wire, high),
  subst (λ s. s ≡ take (length s) (drop off wire)) (sym cut) (take_own n (drop off wire)),
)

-- Whatever bytes arrive, a packet that parse_packet returns has its header fields within their
-- widths, and a payload of at most 65507 bytes, which is a slice of the datagram behind the 12
-- header bytes and the CSRC list that the first byte counts, and holds only bytes.
pub parse_packet-IsPacket :
    (wire : Bytes) (p : RtpPacket)
    → All IsByte wire
    → parse_packet wire ≡ ok p
    → IsPacket p
      × (length p.payload + 12 ≤ length wire)
      × LiesIn wire p.payload
      × All IsByte p.payload
parse_packet-IsPacket wire p bytes h =
    let (off, end, low, high, cut, size, t, s, ts, ss) = parse_packet-Offsets wire p h in
    let b = λ (i : ℕ). get_or-IsByte wire i bytes in
    let lies = slice-LiesIn wire p.payload off (end - off) low high cut in
    (
      record {
        payload_type_fits = omega (arith, t, b 1, second_bits (get_or wire 1 0) (b 1));
        sequence_fits = omega (arith, s, b 2, b 3);
        timestamp_fits = omega (arith, ts, b 4, b 5, b 6, b 7);
        ssrc_fits = omega (arith, ss, b 8, b 9, b 10, b 11);
        payload_fits = size;
      },
      omega (arith, lies.1, lies.2),
      lies,
      subst (All IsByte) (sym cut)
          (All-take IsByte (end - off) (drop off wire) (All-drop IsByte off wire bytes)),
    )

-- f, n times.
pub iterate : ℕ → (ℕ → ℕ) → ℕ → ℕ
iterate zero f x = x
iterate (suc n) f x = iterate n f (f x)

-- From a sequence number below 2^16, sending n packets moves it by n modulo 2^16.
pub next_sequence_iterated : (n s : ℕ) → s < 2 ^ 16 → iterate n next_sequence s ≡ (s + n) % 2 ^ 16
unfolding iterate next_sequence
next_sequence_iterated zero s h = omega arith
next_sequence_iterated (suc n) s h =
    omega (arith, next_sequence_iterated n ((s + 1) % 2 ^ 16) (omega arith))
