-- ===== src/Protos/Http2/Hpack/IntegerBack.antt =====
-- Integers and raw strings are decoded as they were encoded.
use wave_x.Prelude.{
  ℕ, zero, suc, ◌+◌, ◌-◌, ◌*◌, ◌/◌, ◌%◌, ◌^◌, ◌≤◌, ◌<◌, ◌≡◌, refl, sym, ap, ◌∙◌, List, ◌∷◌, ◌++◌,
  ltb, length, arith, true, false, lt→ltb, not_lt→ltb, bit_and, bit_or, ◌==◌, drop, u64_mod, le→leb,
  not_le→leb, add64, append_assoc, length-drop, length-append, drop_sum, drop-length_append,
  take-length_append,
}
use wave_x.Prelude.Bits.{
  mask_15, mask_31, mask_63, mask_127, or_4, or_5, or_6, or_7, bit_or_comm, bit_or-zero, flag_128,
}
use native.Mathlib.Decide.{dec_lt}
use mathlib.Core.Path.{ap₂}
use native.Mathlib.Nat.{pow-suc}
use wave_x.Protos.Http2.Hpack.Outcome.{ok}
use wave_x.Protos.Http2.Hpack.Integer.{
  max_prefix, encode_more, encode_integer, decode_more, decode_integer, encode_string,
  decode_string, first_or_zero,
}

-- A byte of a longer number: its flag and its digit.
more_flag : (d : ℕ) → d < 128 → (bit_and (bit_or d 0x80) 0x80 == 0) ≡ false
more_flag d h =
    ground
      (arith, bit_or_comm d 0x80, or_7 0x80 d refl h, flag_128 (0x80 + d), flag_128 (bit_or d 0x80))

more_digit : (d : ℕ) → d < 128 → bit_and (bit_or d 0x80) 0x7F ≡ d
more_digit d h = omega (arith, bit_or_comm d 0x80, or_7 0x80 d refl h, mask_127 (bit_or d 0x80))

last_flag : (d : ℕ) → d < 128 → (bit_and d 0x80 == 0) ≡ true
last_flag d h = ground (arith, flag_128 d)

last_digit : (d : ℕ) → d < 128 → bit_and d 0x7F ≡ d
last_digit d h = omega (arith, mask_127 d)

sum_fits : (a b : ℕ) → a + b < 2 ^ 64 → add64 a (b % u64_mod) ≡ a + b
sum_fits a b h = omega arith

decode_last :
    (d cursor m result : ℕ) (bs : List ℕ)
    → d < 128
    → result + d * 2 ^ m < 2 ^ 64
    → decode_more (d ∷ bs) cursor m result ≡ ok (result + d * 2 ^ m, suc cursor)
unfolding decode_more
decode_last d cursor m result bs p h =
    rw (last_flag d p, last_digit d p)
      (ap (λ (r : ℕ). ok (r, suc cursor)) (sum_fits result (d * 2 ^ m) h))

decode_next :
    (d cursor m result : ℕ) (bs : List ℕ)
    → d < 128
    → m + 7 ≤ 63
    → result + d * 2 ^ m < 2 ^ 64
    → decode_more (bit_or d 0x80 ∷ bs) cursor m result
      ≡ decode_more bs (suc cursor) (m + 7) (result + d * 2 ^ m)
unfolding decode_more
decode_next d cursor m result bs p q h =
    rw (more_flag d p, more_digit d p, not_lt→ltb 63 (m + 7) (omega arith))
      (ap (λ (r : ℕ). decode_more bs (suc cursor) (m + 7) r) (sum_fits result (d * 2 ^ m) h))

pow_7 : (m : ℕ) → 2 ^ (m + 7) ≡ 2 ^ m * 128
pow_7 m =
    ap (λ (k : ℕ). 2 ^ k) {x = m + 7} {y = suc (suc (suc (suc (suc (suc (suc m))))))} (omega arith)
    ∙ omega (
      arith,
      pow-suc 2 m,
      pow-suc 2 (suc m),
      pow-suc 2 (suc (suc m)),
      pow-suc 2 (suc (suc (suc m))),
      pow-suc 2 (suc (suc (suc (suc m)))),
      pow-suc 2 (suc (suc (suc (suc (suc m))))),
      pow-suc 2 (suc (suc (suc (suc (suc (suc m)))))),
    )

products : (r q p : ℕ) → r * p + q * (p * 128) ≡ (q * 128 + r) * p
products r q p = grind arith

-- The lowest digit of a number, and the number without it, where the digits stand at 2 ^ m.
digit_off : (value m : ℕ) → value % 128 * 2 ^ m + value / 128 * 2 ^ (m + 7) ≡ value * 2 ^ m
digit_off value m =
    ap (λ (w : ℕ). value % 128 * 2 ^ m + value / 128 * w) (pow_7 m)
    ∙ products (value % 128) (value / 128) (2 ^ m)
    ∙ ap (λ (w : ℕ). w * 2 ^ m) {x = value / 128 * 128 + value % 128} {y = value} (omega arith)

decode-encode_more :
    (n value cursor m result : ℕ) (rest : List ℕ)
    → m + 7 * n ≡ 63
    → result + value * 2 ^ m < 2 ^ 64
    → decode_more (encode_more n value ++ rest) cursor m result
      ≡ ok (result + value * 2 ^ m, cursor + length (encode_more n value))
unfolding encode_more
decode-encode_more zero value cursor m result rest e h =
    let top : value < 128 =
      omega (arith, h, ap (λ (k : ℕ). value * 2 ^ k) {x = m} {y = 63} (omega arith)) in
    decode_last value cursor m result rest top h
    ∙ ap (λ (c : ℕ). ok (result + value * 2 ^ m, c)) (omega arith)
decode-encode_more (suc n) value cursor m result rest e h = elim (dec_lt value 128) [
  | yes p ↦ rw (not_le→leb 128 value (omega arith)) (
      decode_last value cursor m result rest p h
      ∙ ap (λ (c : ℕ). ok (result + value * 2 ^ m, c)) (omega arith))
  | no p ↦ rw (le→leb 128 value (omega arith)) (
      decode_next (value % 128) cursor m result (encode_more n (value / 128) ++ rest) (omega arith)
        (omega arith) (omega (arith, digit_off value m))
      ∙ decode-encode_more n (value / 128) (suc cursor) (m + 7) (result + value % 128 * 2 ^ m) rest
          (omega arith) (omega (arith, digit_off value m))
      ∙ ap₂ (λ (r c : ℕ). ok (r, c)) (omega (arith, digit_off value m)) (omega arith))
]

-- The prefix of a byte whose upper bits are a mask.
prefix_back :
    (p mask x : ℕ)
    → 4 ≤ p
    → p ≤ 7
    → mask % 2 ^ p ≡ 0
    → x ≤ max_prefix p
    → bit_and (bit_or mask x) (max_prefix p) ≡ x
prefix_back zero mask x l h z b = absurd (omega arith)
prefix_back (suc zero) mask x l h z b = absurd (omega arith)
prefix_back (suc (suc zero)) mask x l h z b = absurd (omega arith)
prefix_back (suc (suc (suc zero))) mask x l h z b = absurd (omega arith)
prefix_back (suc (suc (suc (suc zero)))) mask x l h z b =
    omega (arith, mask_15 (bit_or mask x), or_4 mask x z (omega arith))
prefix_back (suc (suc (suc (suc (suc zero))))) mask x l h z b =
    omega (arith, mask_31 (bit_or mask x), or_5 mask x z (omega arith))
prefix_back (suc (suc (suc (suc (suc (suc zero)))))) mask x l h z b =
    omega (arith, mask_63 (bit_or mask x), or_6 mask x z (omega arith))
prefix_back (suc (suc (suc (suc (suc (suc (suc zero))))))) mask x l h z b =
    omega (arith, mask_127 (bit_or mask x), or_7 mask x z (omega arith))
prefix_back (suc (suc (suc (suc (suc (suc (suc (suc p)))))))) mask x l h z b = absurd (omega arith)

-- A number below 2^64 is decoded as it was encoded, whatever stands before and behind it, for every prefix from 4
-- to 7 bits and every mask above it, and the cursor ends behind its bytes.
pub decode-encode_integer :
    (input rest : List ℕ) (cursor value p mask : ℕ)
    → 4 ≤ p
    → p ≤ 7
    → mask % 2 ^ p ≡ 0
    → value < 2 ^ 64
    → drop cursor input ≡ encode_integer value p mask ++ rest
    → decode_integer input cursor p ≡ ok (value, cursor + length (encode_integer value p mask))
unfolding encode_integer decode_integer
decode-encode_integer input rest cursor value p mask l u z b e =
    elim (dec_lt value (max_prefix p)) [
      | yes s ↦
          rw
            (
              e,
              lt→ltb value (max_prefix p) s,
              prefix_back p mask value l u z (omega arith),
              lt→ltb value (max_prefix p) s,
            )
            (ap (λ (c : ℕ). ok (value, c)) (omega arith))
      | no s ↦
          rw
            (
              e,
              not_lt→ltb value (max_prefix p) s,
              prefix_back p mask (max_prefix p) l u z (omega arith),
              not_lt→ltb (max_prefix p) (max_prefix p) (omega arith),
            )
            (decode-encode_more 9 (value - max_prefix p) (suc cursor) 0 (max_prefix p) rest refl
                (omega arith)
              ∙ ap₂ (λ (r c : ℕ). ok (r, c)) (omega arith) (omega arith))
    ]

pub length-encode_integer : (value p mask : ℕ) → 1 ≤ length (encode_integer value p mask)
unfolding encode_integer
length-encode_integer value p mask = ground arith

-- A string that is not compressed has no flag in its first byte.
raw_flag :
    (value : ℕ) (rest : List ℕ)
    → (bit_and (first_or_zero (encode_integer value 7 0 ++ rest)) 0x80 == 0) ≡ true
unfolding encode_integer
raw_flag value rest = ground (
  arith,
  bit_or_comm 0 value,
  bit_or-zero value,
  flag_128 value,
  flag_128 (bit_or 0 value),
  flag_128 (bit_or 0 127),
)

-- A string is decoded as it was encoded, whatever stands before and behind it, and the cursor ends behind it.
pub decode-encode_string :
    (input rest str : List ℕ) (cursor : ℕ)
    → length input < 2 ^ 64
    → drop cursor input ≡ encode_string str ++ rest
    → decode_string input cursor ≡ ok (str, cursor + length (encode_string str))
unfolding encode_string decode_string
decode-encode_string input rest str cursor b e =
    let head : List ℕ = encode_integer (length str) 7 0 in
    let e1 : drop cursor input ≡ head ++ (str ++ rest) = e ∙ append_assoc head str rest in
    let behind : ℕ = cursor + length head in
    let sizes : length input - cursor ≡ length head + (length str + length rest) =
      sym (length-drop cursor input)
      ∙ ap length e1
      ∙ omega (arith, length-append {0} head (str ++ rest), length-append {0} str rest) in
    let some_left : 1 ≤ length head = length-encode_integer (length str) 7 0 in
    let left : drop behind input ≡ str ++ rest =
      sym (drop_sum cursor (length head) behind input refl)
      ∙ ap (drop (length head)) e1
      ∙ drop-length_append head (str ++ rest) in
    let read : decode_integer input cursor 7 ≡ ok (length str, behind) =
      decode-encode_integer input (str ++ rest) cursor (length str) 7 0 (omega arith) (omega arith)
        (omega arith) (omega arith) e1 in
    let flag : (bit_and (first_or_zero (drop cursor input)) 0x80 == 0) ≡ true =
      ap (λ (l : List ℕ). bit_and (first_or_zero l) 0x80 == 0) e1
      ∙ raw_flag (length str) (str ++ rest) in
    let plain : add64 behind (length str) ≡ behind + length str = omega arith in
    let there : ltb (length input) (behind + length str) ≡ false = not_lt→ltb _ _ (omega arith) in
    rw (not_le→leb (length input) cursor (omega arith), read, flag, left, plain, there)
      (ap₂ (λ (s : List ℕ) (c : ℕ). ok (s, c)) (take-length_append str rest)
        (omega (arith, length-append {0} head str)))
