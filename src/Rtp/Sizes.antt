-- ===== src/Rtp/Sizes.antt =====
-- rtp.py: `audio_payload_size_limit` and `validate_audio_payload_size`.
use esphome_intercom.Prelude.{
  ltb, leb, if◌then◌else◌, Bool-cases, length, All, Text, codes, eq_text, strip, upper, ℕ, ◌+◌, ◌*◌,
  ◌/◌, ◌%◌, ◌≤◌, ◌<◌, min, ◌≡◌, refl, ◌↔◌, inl, inr, true, false, ◌&&◌, some, List, [], ◌∷◌, arith,
}
use esphome_intercom.Rtp.{
  Bytes, payload_too_large, ok, err, AudioRtpFormat, bytes_per_sample, opus_limit, pcm_limit,
  audio_payload_size_limit, validate_audio_payload_size,
}

-- The bytes of RFC 6716 frames with a two-byte length before each.
unfoldable pub opus_bytes : List ℕ → ℕ
opus_bytes [] = 0
opus_bytes (size ∷ sizes) = size + 2 + opus_bytes sizes

opus_bytes-le :
    (sizes : List ℕ) → All (λ n. n ≤ 1275) sizes → opus_bytes sizes ≤ length sizes * 1277
unfolding opus_bytes
opus_bytes-le [] h = omega arith
opus_bytes-le (n ∷ sizes) h = omega (arith, h.0, opus_bytes-le sizes h.1)

-- A format that the program looks at further: its numbers are positive.
abbrev pub IsPositive : AudioRtpFormat → Type 0
IsPositive fmt = (0 < fmt.sample_rate) × (0 < fmt.channels) × (0 < fmt.frame_ms)

positive_test :
    (fmt : AudioRtpFormat)
    → IsPositive fmt
    → (ltb 0 fmt.sample_rate && ltb 0 fmt.channels && ltb 0 fmt.frame_ms) ≡ true
positive_test fmt h = ground (arith, h.0, h.1, h.2)

opus_payload_limit :
    (fmt : AudioRtpFormat)
    → upper (strip fmt.encoding) ≡ codes "OPUS"
    → IsPositive fmt
    → audio_payload_size_limit fmt ≡ ok (min (opus_limit fmt.frame_ms) 12288)
unfolding audio_payload_size_limit eq_text
opus_payload_limit fmt name positive = rw (positive_test fmt positive, name) refl

opus_limit-ge :
    (frame_ms : ℕ) (sizes : List ℕ)
    → All (λ n. n ≤ 1275) sizes
    → length sizes * 2500 ≤ frame_ms * 1000
    → opus_bytes sizes ≤ opus_limit frame_ms
unfolding opus_limit
opus_limit-ge frame_ms sizes small fit = omega (arith, opus_bytes-le sizes small)

accepted :
    (payload : Bytes) (fmt : AudioRtpFormat) (limit : ℕ)
    → audio_payload_size_limit fmt ≡ ok limit
    → length payload ≤ limit
    → validate_audio_payload_size payload fmt ≡ ok tt
unfolding validate_audio_payload_size
accepted payload fmt limit h room = rw h (ground arith)

refused :
    (payload : Bytes) (fmt : AudioRtpFormat) (limit : ℕ)
    → audio_payload_size_limit fmt ≡ ok limit
    → limit < length payload
    → validate_audio_payload_size payload fmt ≡ err payload_too_large
unfolding validate_audio_payload_size
refused payload fmt limit h over = rw h (ground arith)

accepted_le :
    (payload : Bytes) (fmt : AudioRtpFormat) (limit : ℕ)
    → audio_payload_size_limit fmt ≡ ok limit
    → validate_audio_payload_size payload fmt ≡ ok tt
    → length payload ≤ limit
unfolding validate_audio_payload_size
accepted_le payload fmt limit h valid = let v = rw h at valid in ground (arith, v)

-- For an Opus format with positive numbers, a payload as long as frames of at most 1275 bytes and
-- at least 2.5 ms each that fit the frame time, with two length bytes per frame, is accepted if it
-- is at most 12288 bytes, and refused as too large if it is longer.
pub validate_audio_payload_size_opus :
    (fmt : AudioRtpFormat) (sizes : List ℕ) (payload : Bytes)
    → upper (strip fmt.encoding) ≡ codes "OPUS"
    → IsPositive fmt
    → All (λ n. n ≤ 1275) sizes
    → length sizes * 2500 ≤ fmt.frame_ms * 1000
    → length payload ≡ opus_bytes sizes
    → validate_audio_payload_size payload fmt
      ≡ (if leb (length payload) 12288 then ok tt else err payload_too_large)
validate_audio_payload_size_opus fmt sizes payload name positive small fit size =
    let limit = opus_payload_limit fmt name positive in
    let room = opus_limit-ge fmt.frame_ms sizes small fit in
    elim (Bool-cases (leb (length payload) 12288)) [
      | inl t ↦ rw t (accepted payload fmt _ limit (ground (arith, t, room, size)))
      | inr f ↦ rw f (refused payload fmt _ limit (ground (arith, f)))
    ]

-- The encodings of one sample, from RFC 3551: A-law and u-law in a byte, L16 in two, L24 in three.
pub data Sample : Text → ℕ → Type 0 where
  a_law : Sample (codes "PCMA") 1
  u_law : Sample (codes "PCMU") 1
  linear_16 : Sample (codes "L16") 2
  linear_24 : Sample (codes "L24") 3

not_opus : (name : Text) (width : ℕ) → Sample name width → eq_text name (codes "OPUS") ≡ false
unfolding eq_text
not_opus _ _ a_law = refl
not_opus _ _ u_law = refl
not_opus _ _ linear_16 = refl
not_opus _ _ linear_24 = refl

bytes_per_sample_lem :
    (name : Text) (width : ℕ) → Sample name width → bytes_per_sample name ≡ some width
unfolding bytes_per_sample eq_text
bytes_per_sample_lem _ _ a_law = refl
bytes_per_sample_lem _ _ u_law = refl
bytes_per_sample_lem _ _ linear_16 = refl
bytes_per_sample_lem _ _ linear_24 = refl

pcm_limit_lem :
    (width rate channels frame_ms samples : ℕ)
    → rate * frame_ms ≡ samples * 1000
    → pcm_limit (some width) rate channels frame_ms ≡ ok (samples * channels * width)
unfolding pcm_limit
pcm_limit_lem width rate channels frame_ms samples whole =
    let parts : (rate * frame_ms) % 1000 ≡ 0 = omega (arith, whole) in
    let quotient : rate * frame_ms / 1000 ≡ samples = omega (arith, whole) in
    rw (parts, quotient) refl

pcm_payload_limit :
    (fmt : AudioRtpFormat) (width samples : ℕ)
    → Sample (upper (strip fmt.encoding)) width
    → IsPositive fmt
    → fmt.sample_rate * fmt.frame_ms ≡ samples * 1000
    → audio_payload_size_limit fmt ≡ ok (min (samples * fmt.channels * width) 12288)
unfolding audio_payload_size_limit
pcm_payload_limit fmt width samples sample positive whole =
    rw
      (
        positive_test fmt positive,
        not_opus (upper (strip fmt.encoding)) width sample,
        bytes_per_sample_lem (upper (strip fmt.encoding)) width sample,
        pcm_limit_lem width fmt.sample_rate fmt.channels fmt.frame_ms samples whole,
      )
      refl

-- For a PCMA, PCMU, L16 or L24 format with positive numbers whose frame time holds a whole number
-- of samples, a payload is accepted exactly if it is at most as long as that many samples of each
-- channel, of 1, 1, 2 or 3 bytes, and at most 12288 bytes.
pub validate_audio_payload_size_pcm :
    (fmt : AudioRtpFormat) (width samples : ℕ) (payload : Bytes)
    → Sample (upper (strip fmt.encoding)) width
    → IsPositive fmt
    → fmt.sample_rate * fmt.frame_ms ≡ samples * 1000
    → (validate_audio_payload_size payload fmt ≡ ok tt)
      ↔ ((length payload ≤ samples * fmt.channels * width) × (length payload ≤ 12288))
validate_audio_payload_size_pcm fmt width samples payload sample positive whole =
    let limit = pcm_payload_limit fmt width samples sample positive whole in
    (
      (λ valid.
          let small = accepted_le payload fmt _ limit valid in
          (omega (arith, small), omega (arith, small))),
      λ room. accepted payload fmt _ limit (omega (arith, room.0, room.1)),
    )
