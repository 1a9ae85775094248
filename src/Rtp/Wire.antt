-- ===== src/Rtp/Wire.antt =====
-- rtp.py: `parse_packet` against the packet layout of RFC 3550, section 5.1.
use mathlib.Core.List.{append_assoc, append-nil}
use esphome_intercom.Prelude.{
  ℕ, zero, suc, ◌+◌, ◌-◌, ◌*◌, ◌/◌, ◌^◌, ◌≤◌, ◌<◌, ◌≡◌, refl, ap, Bool, true, false, not, Option,
  none, some, List, [], ◌∷◌, ◌++◌, arith, ◌==◌, length, take, drop, drop-append, take-append,
  length-append, length-drop, get_or, bit_and, ◌∙◌, sym,
}
use esphome_intercom.Rtp.{
  RtpPacket, ok, build_packet, parse_packet, Bytes, skip_extension, strip_padding, read16, read32,
  rtp_header_size,
}
use esphome_intercom.Rtp.Layout.{
  Extras, flag, has, extension_bytes, padding_bytes, first_byte, encode, ExtensionFits, IsPacket,
  AreExtras, first_bits, second_bits, marker_byte_sum,
}

module _ {ℓ} {A : Type ℓ} where
  drop-nil : (n : ℕ) → drop {A = A} n [] ≡ []
  drop-nil zero = refl
  drop-nil (suc n) = refl

  drop-drop : (m n : ℕ) (xs : List A) → drop n (drop m xs) ≡ drop (m + n) xs
  drop-drop zero n xs = let e : 0 + n ≡ n = omega arith in rw e
  drop-drop (suc m) n [] = drop-nil n ∙ sym (drop-nil (suc m + n))
  drop-drop (suc m) n (x ∷ xs) =
      let e : suc m + n ≡ suc (m + n) = omega arith in rw e (drop-drop m n xs)

  get_or-drop : (m i : ℕ) (xs : List A) (d : A) → get_or (drop m xs) i d ≡ get_or xs (m + i) d
  get_or-drop zero i xs d = let e : 0 + i ≡ i = omega arith in rw e
  get_or-drop (suc m) i [] d = refl
  get_or-drop (suc m) i (x ∷ xs) d =
      let e : suc m + i ≡ suc (m + i) = omega arith in rw e (get_or-drop m i xs d)

  get_or-last : (xs : List A) (y d : A) → get_or (xs ++ y ∷ []) (length xs) d ≡ y
  get_or-last [] y d = refl
  get_or-last (x ∷ xs) y d = get_or-last xs y d

parse_lem :
    (wire : Bytes) (off end : ℕ)
    → 12 ≤ length wire
    → get_or wire 0 0 / 2 ^ 6 ≡ 2
    → skip_extension wire
        (not (bit_and (get_or wire 0 0) 0x10 == 0))
        (rtp_header_size + bit_and (get_or wire 0 0) 0x0f * 4)
      ≡ ok off
    → off ≤ length wire
    → strip_padding wire (not (bit_and (get_or wire 0 0) 0x20 == 0)) off ≡ ok end
    → length (take (end - off) (drop off wire)) ≤ 65507
    → parse_packet wire
      ≡ ok (record {
        payload_type = bit_and (get_or wire 1 0) 0x7f;
        sequence = read16 wire 2;
        timestamp = read32 wire 4;
        ssrc = read32 wire 8;
        payload = take (end - off) (drop off wire);
        marker = not (bit_and (get_or wire 1 0) 0x80 == 0);
      })
unfolding parse_packet
parse_lem wire off end h12 v2 skip fits strip room = ground arith

-- The extension is skipped whole, whatever follows it.
skip_extension_lem :
    (wire : Bytes) (off : ℕ) (e : Option (Bytes × ℕ × Bytes)) (rest : Bytes)
    → ExtensionFits e
    → drop off wire ≡ extension_bytes e ++ rest
    → off ≤ length wire
    → skip_extension wire (has e) off ≡ ok (off + length (extension_bytes e))
unfolding skip_extension
skip_extension_lem wire off none rest fits at room = ground arith
skip_extension_lem wire off (some ([], words, body)) rest fits at room = absurd (omega arith)
skip_extension_lem wire off (some (a ∷ [], words, body)) rest fits at room = absurd (omega arith)
skip_extension_lem wire off (some (a ∷ b ∷ c ∷ cs, words, body)) rest fits at room =
    absurd (omega arith)
skip_extension_lem wire off (some (a ∷ b ∷ [], words, body)) rest fits at room =
    rw (sym (drop-drop off 2 wire) ∙ ap (drop 2) at)
      (ground (arith, ap length at, length-append body rest, length-drop off wire))

last_byte :
    (payload fill wire : Bytes) (off : ℕ)
    → drop off wire ≡ payload ++ (fill ++ (length fill + 1) ∷ [])
    → off ≤ length wire
    → get_or wire (length wire - 1) 0 ≡ length fill + 1
last_byte payload fill wire off at room =
    let split : drop off wire ≡ (payload ++ fill) ++ (length fill + 1) ∷ [] =
      at ∙ sym (append_assoc payload fill ((length fill + 1) ∷ [])) in
    let size : length wire - 1 ≡ off + length (payload ++ fill) = omega (
      arith,
      ap length split,
      length-drop off wire,
      length-append (payload ++ fill) ((length fill + 1) ∷ []),
    ) in
    rw size (
      rw (sym (get_or-drop off (length (payload ++ fill)) wire 0))
        (rw split (get_or-last (payload ++ fill) (length fill + 1) 0)))

-- The padding is cut off by its count.
strip_padding_lem :
    (wire : Bytes) (off : ℕ) (payload : Bytes) (d : Option Bytes)
    → drop off wire ≡ payload ++ padding_bytes d
    → off ≤ length wire
    → strip_padding wire (has d) off ≡ ok (off + length payload)
unfolding strip_padding
strip_padding_lem wire off payload none at room =
    ground (arith, ap length at, length-append payload [], length-drop off wire)
strip_padding_lem wire off payload (some fill) at room = ground (
  arith,
  ap length at,
  length-drop off wire,
  length-append payload (fill ++ (length fill + 1) ∷ []),
  length-append fill ((length fill + 1) ∷ []),
  last_byte payload fill wire off at room,
)

-- What the masks of `parse_packet` read from a first and a second byte.
flags :
    (a b : Bool) (c : ℕ)
    → c < 16
    → (bit_and (128 + flag a 32 + flag b 16 + c) 0x0f ≡ c)
      × (not (bit_and (128 + flag a 32 + flag b 16 + c) 0x10 == 0) ≡ b)
      × (not (bit_and (128 + flag a 32 + flag b 16 + c) 0x20 == 0) ≡ a)
      × ((128 + flag a 32 + flag b 16 + c) / 64 ≡ 2)
flags true true c h = ground (arith, first_bits (128 + 32 + 16 + c))
flags true false c h = ground (arith, first_bits (128 + 32 + 0 + c))
flags false true c h = ground (arith, first_bits (128 + 0 + 16 + c))
flags false false c h = ground (arith, first_bits (128 + 0 + 0 + c))

second_field :
    (marker : Bool) (t : ℕ)
    → t < 128
    → (bit_and (flag marker 128 + t) 0x7f ≡ t)
      × (not (bit_and (flag marker 128 + t) 0x80 == 0) ≡ marker)
second_field true t h = ground (arith, second_bits (128 + t))
second_field false t h = ground (arith, second_bits (0 + t))

module _ (x : Extras) (p : RtpPacket) (extras : AreExtras x) (packet : IsPacket p) where
  after_header : Bytes
  after_header = x.csrc ++ (extension_bytes x.extension ++ (p.payload ++ padding_bytes x.padding))

  off_csrc : ℕ
  off_csrc = rtp_header_size + x.csrc_count * 4

  off_extension : ℕ
  off_extension = off_csrc + length (extension_bytes x.extension)

  drop_csrc :
      drop off_csrc (encode x p)
      ≡ extension_bytes x.extension ++ (p.payload ++ padding_bytes x.padding)
  unfolding off_csrc
  drop_csrc =
      rw (sym (drop-drop 12 (x.csrc_count * 4) (encode x p)))
        (drop-append (x.csrc_count * 4) x.csrc _ extras.csrc_fits)

  drop_extension : drop off_extension (encode x p) ≡ p.payload ++ padding_bytes x.padding
  unfolding off_extension
  drop_extension =
      rw (sym (drop-drop off_csrc (length (extension_bytes x.extension)) (encode x p)), drop_csrc)
        (drop-append _ (extension_bytes x.extension) _ refl)

  room_csrc : off_csrc ≤ length (encode x p)
  unfolding off_csrc
  room_csrc = omega (
    arith,
    length-append x.csrc (extension_bytes x.extension ++ (p.payload ++ padding_bytes x.padding)),
    extras.csrc_fits,
  )

  room_extension : off_extension ≤ length (encode x p)
  unfolding off_extension
  room_extension = omega (
    arith,
    room_csrc,
    ap length drop_csrc,
    length-drop off_csrc (encode x p),
    length-append (extension_bytes x.extension) (p.payload ++ padding_bytes x.padding),
  )

  skipped :
      skip_extension
        (encode x p)
        (not (bit_and (first_byte x) 0x10 == 0))
        (rtp_header_size + bit_and (first_byte x) 0x0f * 4)
      ≡ ok off_extension
  unfolding off_extension off_csrc
  skipped =
      let f = flags (has x.padding) (has x.extension) x.csrc_count extras.count_fits in
      rw (f.0, f.1)
        (skip_extension_lem (encode x p) off_csrc x.extension _ extras.extension_fits drop_csrc
          room_csrc)

  stripped :
      strip_padding (encode x p) (not (bit_and (first_byte x) 0x20 == 0)) off_extension
      ≡ ok (off_extension + length p.payload)
  stripped =
      let f = flags (has x.padding) (has x.extension) x.csrc_count extras.count_fits in
      rw f.2 (
        strip_padding_lem (encode x p) off_extension p.payload x.padding drop_extension
          room_extension)

  cut :
      take (off_extension + length p.payload - off_extension) (drop off_extension (encode x p))
      ≡ p.payload
  cut =
      let e : off_extension + length p.payload - off_extension ≡ length p.payload = omega arith in
      rw (e, drop_extension) (take-append (length p.payload) p.payload _ refl)

  -- parse_packet reads back every packet laid out after RFC 3550, for header fields within their
  -- widths and a payload of at most 65507 bytes, whatever well-formed CSRC list, header extension
  -- and padding surround that payload.
  pub parse-encode : parse_packet (encode x p) ≡ ok p
  parse-encode =
      let second = second_field p.marker p.payload_type packet.payload_type_fits in
      parse_lem (encode x p) off_extension (off_extension + length p.payload) (omega arith)
        (flags (has x.padding) (has x.extension) x.csrc_count extras.count_fits).3 skipped
        room_extension stripped (rw cut packet.payload_fits)
      ∙ ground (arith, second.0, second.1, cut)

abbrev plain : Extras
plain = record { csrc_count = 0; csrc = []; extension = none; padding = none }

build_packet-IsPacket : (p : RtpPacket) (wire : Bytes) → build_packet p ≡ ok wire → IsPacket p
unfolding build_packet
build_packet-IsPacket p wire h = ground arith

build_packet-encode :
    (p : RtpPacket) (wire : Bytes) → build_packet p ≡ ok wire → wire ≡ encode plain p
unfolding build_packet
build_packet-encode p wire h =
    ground (arith, marker_byte_sum p.marker p.payload_type, append-nil p.payload)

-- A packet that build_packet accepts is read back by parse_packet, field for field.
pub parse-build :
    (p : RtpPacket) (wire : Bytes) → build_packet p ≡ ok wire → parse_packet wire ≡ ok p
parse-build p wire h = rw (build_packet-encode p wire h) (
    parse-encode plain p
      (record { count_fits = omega arith; csrc_fits = refl; extension_fits = tt })
      (build_packet-IsPacket p wire h))
