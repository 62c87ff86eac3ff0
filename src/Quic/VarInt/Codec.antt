-- ===== src/Quic/VarInt/Codec.antt =====
-- `decode` reads back what `encode` wrote.
use wave_x.Prelude.{
  ℕ, suc, ◌+◌, ◌-◌, ◌*◌, ◌/◌, ◌%◌, ◌^◌, ◌≤◌, ◌<◌, ◌≡◌, refl, ap, ◌∙◌, ◌⊎◌, inl, inr, none, some,
  List, [], ◌∷◌, ◌++◌, ltb, if◌then◌else◌, length, u64_mod, arith,
}
use native.Mathlib.Decide.{dec_lt}
use wave_x.Prelude.Bits.{mask_3, mask_63, mask_255, or_6, or_7, or_8}
use wave_x.Quic.VarInt.{encode, read_more, decode}

-- One round of the loop in `decode`.
pub read_more_byte :
    (n val b : ℕ) (bs : List ℕ)
    → val < 2 ^ 54
    → b < 256
    → read_more (suc n) val (b ∷ bs) ≡ read_more n (val * 256 + b) bs
unfolding read_more
read_more_byte n val b bs h k =
    ap (λ v. read_more n v bs) (or_8 (val * 2 ^ 8 % u64_mod) b (omega arith) k ∙ omega arith)

-- What `decode` does once the top two bits of the first byte are known.
pub decode_first :
    (p first : ℕ) (rest : List ℕ)
    → first / 64 % 4 ≡ p
    → decode (first ∷ rest) ≡ (
        if ltb (suc (length rest)) (2 ^ p)
        then none
        else some (read_more (2 ^ p - 1) (first % 64) rest))
unfolding decode
decode_first p first rest e = rw (mask_3 (first / 2 ^ 6), mask_63 first, e)

decode_1 : (b : ℕ) (rest : List ℕ) → b < 64 → decode (b ∷ rest) ≡ some (b, rest)
unfolding read_more
decode_1 b rest h = decode_first 0 b rest (omega arith) ∙ ground arith

decode_2 :
    (b0 b1 : ℕ) (rest : List ℕ)
    → b0 < 64
    → b1 < 256
    → decode ((64 + b0) ∷ b1 ∷ rest) ≡ some (b0 * 256 + b1, rest)
unfolding read_more
decode_2 b0 b1 rest h0 h1 =
    decode_first 1 (64 + b0) (b1 ∷ rest) (omega arith)
    ∙ ground (arith, read_more_byte 0 ((64 + b0) % 64) b1 rest)

-- Three and four rounds of the loop.
read_more_three :
    (n val b1 b2 b3 : ℕ) (bs : List ℕ)
    → val < 2 ^ 38
    → b1 < 256
    → b2 < 256
    → b3 < 256
    → read_more (suc (suc (suc n))) val (b1 ∷ b2 ∷ b3 ∷ bs)
      ≡ read_more n (val * 2 ^ 24 + b1 * 2 ^ 16 + b2 * 2 ^ 8 + b3) bs
read_more_three n val b1 b2 b3 bs h h1 h2 h3 =
    read_more_byte (suc (suc n)) val b1 (b2 ∷ b3 ∷ bs) (omega arith) h1
    ∙ read_more_byte (suc n) (val * 256 + b1) b2 (b3 ∷ bs) (omega arith) h2
    ∙ read_more_byte n ((val * 256 + b1) * 256 + b2) b3 bs (omega arith) h3
    ∙ ap (λ v. read_more n v bs) (omega arith)

read_more_four :
    (n val b1 b2 b3 b4 : ℕ) (bs : List ℕ)
    → val < 2 ^ 30
    → b1 < 256
    → b2 < 256
    → b3 < 256
    → b4 < 256
    → read_more (suc (suc (suc (suc n)))) val (b1 ∷ b2 ∷ b3 ∷ b4 ∷ bs)
      ≡ read_more n (val * 2 ^ 32 + b1 * 2 ^ 24 + b2 * 2 ^ 16 + b3 * 2 ^ 8 + b4) bs
read_more_four n val b1 b2 b3 b4 bs h h1 h2 h3 h4 =
    read_more_three (suc n) val b1 b2 b3 (b4 ∷ bs) (omega arith) h1 h2 h3
    ∙ read_more_byte n (val * 2 ^ 24 + b1 * 2 ^ 16 + b2 * 2 ^ 8 + b3) b4 bs (omega arith) h4
    ∙ ap (λ v. read_more n v bs) (omega arith)

decode_4 :
    (b0 b1 b2 b3 : ℕ) (rest : List ℕ)
    → b0 < 64
    → b1 < 256
    → b2 < 256
    → b3 < 256
    → decode ((128 + b0) ∷ b1 ∷ b2 ∷ b3 ∷ rest)
      ≡ some (b0 * 2 ^ 24 + b1 * 2 ^ 16 + b2 * 2 ^ 8 + b3, rest)
unfolding read_more
decode_4 b0 b1 b2 b3 rest h0 h1 h2 h3 =
    decode_first 2 (128 + b0) (b1 ∷ b2 ∷ b3 ∷ rest) (omega arith)
    ∙ ground (arith, read_more_three 0 ((128 + b0) % 64) b1 b2 b3 rest)

decode_8 :
    (b0 b1 b2 b3 b4 b5 b6 b7 : ℕ) (rest : List ℕ)
    → b0 < 64
    → b1 < 256
    → b2 < 256
    → b3 < 256
    → b4 < 256
    → b5 < 256
    → b6 < 256
    → b7 < 256
    → decode ((192 + b0) ∷ b1 ∷ b2 ∷ b3 ∷ b4 ∷ b5 ∷ b6 ∷ b7 ∷ rest)
      ≡ some (
        b0 * 2 ^ 56
            + b1 * 2 ^ 48
            + b2 * 2 ^ 40
            + b3 * 2 ^ 32
            + b4 * 2 ^ 24
            + b5 * 2 ^ 16
            + b6 * 2 ^ 8
            + b7,
        rest,
      )
unfolding read_more
decode_8 b0 b1 b2 b3 b4 b5 b6 b7 rest h0 h1 h2 h3 h4 h5 h6 h7 =
    let tail = b1 ∷ b2 ∷ b3 ∷ b4 ∷ b5 ∷ b6 ∷ b7 ∷ rest in
    decode_first 3 (192 + b0) tail (omega arith)
    ∙ ground (
      arith,
      read_more_four 3 ((192 + b0) % 64) b1 b2 b3 b4 (b5 ∷ b6 ∷ b7 ∷ rest),
      read_more_three 0 ((192 + b0) % 64 * 2 ^ 32 + b1 * 2 ^ 24 + b2 * 2 ^ 16 + b3 * 2 ^ 8 + b4) b5
          b6 b7 rest,
    )

-- The four forms that `encode` writes, as arithmetic.
encode_1 : (v : ℕ) → v < 2 ^ 6 → encode v ≡ v ∷ []
unfolding encode
encode_1 v h = ground (arith, mask_63 v)

encode_2 : (v : ℕ) → 2 ^ 6 ≤ v → v < 2 ^ 14 → encode v ≡ (64 + v / 2 ^ 8 % 64) ∷ v % 256 ∷ []
unfolding encode
encode_2 v l h = ground (arith, mask_63 (v / 2 ^ 8), mask_255 v, or_6 0x40 (v / 2 ^ 8 % 64) refl)

encode_4 :
    (v : ℕ)
    → 2 ^ 14 ≤ v
    → v < 2 ^ 30
    → encode v ≡ (128 + v / 2 ^ 24 % 64) ∷ (v / 2 ^ 16 % 256) ∷ (v / 2 ^ 8 % 256) ∷ v % 256 ∷ []
unfolding encode
encode_4 v l h = ground (
  arith,
  mask_63 (v / 2 ^ 24),
  mask_255 (v / 2 ^ 16),
  mask_255 (v / 2 ^ 8),
  mask_255 v,
  or_7 0x80 (v / 2 ^ 24 % 64) refl,
)

encode_8 :
    (v : ℕ)
    → 2 ^ 30 ≤ v
    → encode v
      ≡ (192 + v / 2 ^ 56 % 64)
        ∷ (v / 2 ^ 48 % 256)
        ∷ (v / 2 ^ 40 % 256)
        ∷ (v / 2 ^ 32 % 256)
        ∷ (v / 2 ^ 24 % 256)
        ∷ (v / 2 ^ 16 % 256)
        ∷ (v / 2 ^ 8 % 256)
        ∷ v % 256
        ∷ []
unfolding encode
encode_8 v l = ground (
  arith,
  mask_63 (v / 2 ^ 56),
  mask_255 (v / 2 ^ 48),
  mask_255 (v / 2 ^ 40),
  mask_255 (v / 2 ^ 32),
  mask_255 (v / 2 ^ 24),
  mask_255 (v / 2 ^ 16),
  mask_255 (v / 2 ^ 8),
  mask_255 v,
  or_6 0xc0 (v / 2 ^ 56 % 64) refl,
)

-- Which form is written.
pub sizes :
    (v : ℕ)
    → (v < 2 ^ 6) ⊎ ((2 ^ 6 ≤ v) × (v < 2 ^ 14)) ⊎ ((2 ^ 14 ≤ v) × (v < 2 ^ 30)) ⊎ (2 ^ 30 ≤ v)
sizes v = elim (dec_lt v (2 ^ 6)) [
  | yes a ↦ inl a
  | no a ↦ elim (dec_lt v (2 ^ 14)) [
    | yes b ↦ inr (inl (omega arith, b))
    | no b ↦ elim (dec_lt v (2 ^ 30)) [
      | yes c ↦ inr (inr (inl (omega arith, c)))
      | no c ↦ inr (inr (inr (omega arith)))
    ]
  ]
]

-- Reading back what was written for a `uint64_t`, whatever follows, leaves what follows and gives the
-- low 62 bits of the number.
pub decode-encode :
    (v : ℕ) (rest : List ℕ) → v < 2 ^ 64 → decode (encode v ++ rest) ≡ some (v % 2 ^ 62, rest)
decode-encode v rest h = elim (sizes v) [
  | inl a ↦ rw (encode_1 v a) (decode_1 v rest a ∙ ap (λ u. some (u, rest)) (omega arith))
  | inr (inl (l, a)) ↦
      rw (encode_2 v l a)
        (decode_2 _ _ rest (omega arith) (omega arith) ∙ ap (λ u. some (u, rest)) (omega arith))
  | inr (inr (inl (l, a))) ↦ rw (encode_4 v l a) (
      decode_4 _ _ _ _ rest (omega arith) (omega arith) (omega arith) (omega arith)
      ∙ ap (λ u. some (u, rest)) (omega arith))
  | inr (inr (inr l)) ↦ rw (encode_8 v l) (
      decode_8 _ _ _ _ _ _ _ _ rest (omega arith) (omega arith) (omega arith) (omega arith)
        (omega arith) (omega arith) (omega arith) (omega arith)
      ∙ ap (λ u. some (u, rest)) (omega arith))
]

-- A number that the format can hold comes back as it was.
pub decode-encode_exact :
    (v : ℕ) (rest : List ℕ) → v < 2 ^ 62 → decode (encode v ++ rest) ≡ some (v, rest)
decode-encode_exact v rest h =
    decode-encode v rest (omega arith) ∙ ap (λ u. some (u, rest)) (omega arith)
