-- ===== src/Protos/WebSocket/Text/Close.antt =====
-- The payload of a close frame: at most 125 bytes, and read back as it was written.
use wave_x.Prelude.{
  ℕ, zero, suc, ◌*◌, ◌/◌, ◌^◌, ◌≤◌, ◌<◌, ◌≡◌, refl, ap, ◌∙◌, true, false, some, List, ◌∷◌, ◌==◌,
  length, get_or, bit_and, bit_or, arith, ◌⊎◌, inl, length-take,
}
use wave_x.Prelude.Bits.{mask_255, or_8}
use wave_x.Protos.WebSocket.Text.{
  cut_at, utf8_prefix, is_valid_close_code, close_payload, parse_close_payload,
}

-- The cut lies at `max` or before it, and at the start or not in front of a continuation byte.
pub cut_at_lem :
    (s : List ℕ) (max : ℕ)
    → (cut_at s max ≤ max)
      × ((cut_at s max ≡ 0) ⊎ ((bit_and (get_or s (cut_at s max) 0) 0xC0 == 0x80) ≡ false))
unfolding cut_at
cut_at_lem s zero = (omega arith, inl refl)
cut_at_lem s (suc max) = let (l, here) = cut_at_lem s max in ground (arith, l, here)

-- `utf8_prefix` is a front part of at most `max` bytes.
length-utf8_prefix : (s : List ℕ) (max : ℕ) → length (utf8_prefix s max) ≤ max
unfolding utf8_prefix
length-utf8_prefix s max =
    let (l, here) = cut_at_lem s max in ground (arith, l, length-take {0} (cut_at s max) s)

sent_form :
    (code : ℕ) (reason : List ℕ)
    → is_valid_close_code code ≡ true
    → close_payload code reason
      ≡ bit_and (code / 2 ^ 8) 0xFF ∷ bit_and code 0xFF ∷ utf8_prefix reason 123
unfolding close_payload is_valid_close_code
sent_form code reason v = ground arith

code_back :
    (code : ℕ)
    → code < 2 ^ 16
    → bit_or (bit_and (code / 2 ^ 8) 0xFF * 2 ^ 8) (bit_and code 0xFF) ≡ code
code_back code h =
    or_8 (bit_and (code / 2 ^ 8) 0xFF * 2 ^ 8) (bit_and code 0xFF) (omega arith)
      (omega (arith, mask_255 code))
    ∙ omega (arith, mask_255 code, mask_255 (code / 2 ^ 8))

-- A close frame's payload fits a control frame, and gives back the code and the front part of the reason
-- that was sent, for every code that may be sent.
pub parse_close_payload-close_payload :
    (code : ℕ) (reason : List ℕ)
    → code < 2 ^ 16
    → is_valid_close_code code ≡ true
    → (length (close_payload code reason) ≤ 125)
      × (parse_close_payload (close_payload code reason) ≡ some (code, utf8_prefix reason 123))
unfolding parse_close_payload
parse_close_payload-close_payload code reason h v = (
  omega (arith, ap length (sent_form code reason v), length-utf8_prefix reason 123),
  rw (sent_form code reason v, code_back code h, v) refl,
)
