-- ===== src/Quic/VarInt/Bounds.antt =====
-- The sizes of encodings, what `decode` takes from any input, and the form of `encode` that writes into a buffer.
use wave_x.Prelude.{
  ℕ, zero, suc, ◌+◌, ◌-◌, ◌*◌, ◌/◌, ◌%◌, ◌^◌, ◌≤◌, ◌<◌, ◌≡◌, refl, sym, ap, ◌∙◌, ◌⊎◌, inl, inr,
  none, some, List, [], ◌∷◌, ◌++◌, bit_and, bit_or, ltb, if◌then◌else◌, length, length-append,
  append_assoc, u64_mod, IsByte, All, arith, set, take, drop, take-append-drop, length-take,
}
use native.Mathlib.Decide.{dec_lt}
use native.Mathlib.Nat.{pow-suc, one-le-pow}
use wave_x.Quic.VarInt.{encoded_size, encode, encode_into, store_bytes, read_more, decode}
use wave_x.Quic.VarInt.Codec.{read_more_byte, decode_first}

-- The size that is announced is the number of bytes that are written, from 1 to 8.
pub length-encode :
    (v : ℕ) → (length (encode v) ≡ encoded_size v) × (1 ≤ encoded_size v) × (encoded_size v ≤ 8)
unfolding encode encoded_size
length-encode v = ground arith

-- The loop reads as many bytes as it is told, and shifts them in.
read_more_takes : (n v : ℕ) (bs : List ℕ) → n ≤ length bs → (read_more n v bs).1 ≡ drop n bs
unfolding read_more
read_more_takes zero v bs h = refl
read_more_takes (suc n) v [] h = absurd (omega arith)
read_more_takes (suc n) v (b ∷ bs) h = read_more_takes n _ bs (omega arith)

-- The arithmetic of one round, with `P` for the weight of what is still to come.
shifted_in : (v b P : ℕ) → b < 256 → (v * 256 + b + 1) * P ≤ (v + 1) * (P * 256)
shifted_in v b P h = grind arith

room : (v P : ℕ) → 1 ≤ P → (v + 1) * (P * 256) ≤ 2 ^ 62 → v < 2 ^ 54
room v P h k = grind arith

low_part : (a P : ℕ) → (a % 64 + 1) * P ≤ 64 * P
low_part a P = grind arith

-- The loop ends below the bound that the weight of the bytes to come allows.
read_more_bound :
    (n v : ℕ) (bs : List ℕ)
    → All IsByte bs
    → n ≤ length bs
    → (v + 1) * 256 ^ n ≤ 2 ^ 62
    → (read_more n v bs).0 < (v + 1) * 256 ^ n
unfolding read_more
read_more_bound zero v bs a l h = omega arith
read_more_bound (suc n) v [] a l h = absurd (omega arith)
read_more_bound (suc n) v (b ∷ bs) (hb, a) l h =
    let h' : (v + 1) * (256 ^ n * 256) ≤ 2 ^ 62 = rw (← pow-suc 256 n) h in
    let small = room v (256 ^ n) (one-le-pow n 256 (omega arith)) h' in
    let shifted = ap (λ (p : ℕ × List ℕ). p.0) (read_more_byte n v b bs small hb) in
    let step = shifted_in v b (256 ^ n) hb in
    rw (shifted, pow-suc 256 n)
      (omega (
        arith,
        step,
        h',
        read_more_bound n (v * 256 + b) bs a (omega arith) (omega (arith, step, h')),
      ))

-- One form at a time: `n` bytes follow the first.
decode_form :
    (n first : ℕ) (tail rest : List ℕ) (v : ℕ)
    → All IsByte tail
    → n ≤ length tail
    → 64 * 256 ^ n ≤ 2 ^ 62
    → read_more n (first % 64) tail ≡ (v, rest)
    → (v < 64 * 256 ^ n) × (first ∷ tail ≡ (first ∷ take n tail) ++ rest)
decode_form n first tail rest v a l h e = (
  omega (
    arith,
    ap (λ (p : ℕ × List ℕ). p.0) e,
    low_part first (256 ^ n),
    read_more_bound n (first % 64) tail a l (omega (arith, low_part first (256 ^ n))),
  ),
  ap (◌∷◌ first) (
      sym (take-append-drop n tail)
      ∙ ap (◌++◌ (take n tail)) (sym (read_more_takes n _ tail l) ∙ ap (λ p. p.1) e)),
)

-- A value below the bound of a form needs no longer form.
size_of_form :
    (v n : ℕ)
    → ((n ≡ 0) × (v < 2 ^ 6)) ⊎ ((n ≡ 1) × (v < 2 ^ 14)) ⊎ ((n ≡ 3) × (v < 2 ^ 30)) ⊎ (n ≡ 7)
    → encoded_size v ≤ suc n
unfolding encoded_size
size_of_form v n h = ground arith

-- Where `decode` succeeds the bytes are there, and the loop has given the result.
decode_read :
    (p n first : ℕ) (tail rest : List ℕ) (v : ℕ)
    → first / 64 % 4 ≡ p
    → 2 ^ p ≡ suc n
    → decode (first ∷ tail) ≡ some (v, rest)
    → (n ≤ length tail) × (read_more n (first % 64) tail ≡ (v, rest))
decode_read p n first tail rest v hp hn e = read_of (sym (decode_first p first tail hp) ∙ e)
  where
    read_of :
        (if ltb (suc (length tail)) (2 ^ p)
            then none
            else some (read_more (2 ^ p - 1) (first % 64) tail))
          ≡ some (v, rest)
        → (n ≤ length tail) × (read_more n (first % 64) tail ≡ (v, rest))
    read_of = rw hn λ h. ground arith

-- What was taken from the front of the input, for the value `v`.
abbrev pub Takes : List ℕ → ℕ → List ℕ → Type 0
Takes buf v rest =
    (front : List ℕ) × (buf ≡ front ++ rest)
    × (v < 2 ^ 62)
    × (encoded_size v ≤ length front)
    × (length front ≤ 8)

Takes-form :
    (p n first : ℕ) (tail rest : List ℕ) (v : ℕ)
    → first / 64 % 4 ≡ p
    → 2 ^ p ≡ suc n
    → ((n ≡ 0) ⊎ (n ≡ 1) ⊎ (n ≡ 3) ⊎ (n ≡ 7))
    → All IsByte tail
    → decode (first ∷ tail) ≡ some (v, rest)
    → Takes (first ∷ tail) v rest
Takes-form p n first tail rest v hp hn forms a e =
    let (l, r) = decode_read p n first tail rest v hp hn e in
    let (bound, split) = decode_form n first tail rest v a l (ground arith) r in
    (
      first ∷ take n tail,
      split,
      ground arith,
      omega (arith, size_of_form v n (ground arith), length-take n tail),
      ground (arith, length-take n tail),
    )

-- What `decode` accepts: the bytes taken are a front part of the input, at most 8 of them, the
-- value has 62 bits, and no encoding of that value is longer than what was taken.
pub decode-Takes :
    (buf : List ℕ) (v : ℕ) (rest : List ℕ)
    → All IsByte buf
    → decode buf ≡ some (v, rest)
    → Takes buf v rest
decode-Takes [] v rest a e = unfold decode in cc
decode-Takes (first ∷ tail) v rest (hb, a) e = go (first / 64 % 4) refl (omega arith)
  where
    go : (p : ℕ) → first / 64 % 4 ≡ p → p < 4 → Takes (first ∷ tail) v rest
    go zero hp h = Takes-form 0 0 first tail rest v hp refl (inl refl) a e
    go (suc zero) hp h = Takes-form 1 1 first tail rest v hp refl (inr (inl refl)) a e
    go (suc (suc zero)) hp h = Takes-form 2 3 first tail rest v hp refl (inr (inr (inl refl))) a e
    go (suc (suc (suc zero))) hp h =
        Takes-form 3 7 first tail rest v hp refl (inr (inr (inr refl))) a e
    go (suc (suc (suc (suc p)))) hp h = absurd (omega arith)

set-length_append :
    (front : List ℕ) (x y : ℕ) (back : List ℕ)
    → set (front ++ (x ∷ back)) (length front) y ≡ (front ++ (y ∷ [])) ++ back
set-length_append [] x y back = refl
set-length_append (z ∷ front) x y back = ap (◌∷◌ z) (set-length_append front x y back)

-- Bytes stored one after the other replace as many bytes of the buffer.
store_bytes_lem :
    (bs front back : List ℕ)
    → length bs ≤ length back
    → store_bytes (front ++ back) (length front) bs ≡ front ++ (bs ++ drop (length bs) back)
unfolding store_bytes
store_bytes_lem [] front back h = refl
store_bytes_lem (b ∷ bs) front [] h = absurd (omega arith)
store_bytes_lem (b ∷ bs) front (x ∷ back) h =
    rw (set-length_append front x b back, next)
      (store_bytes_lem bs (front ++ (b ∷ [])) back (omega arith) ∙ append_assoc front (b ∷ []) _)
  where
    next : suc (length front) ≡ length (front ++ (b ∷ []))
    next = omega (arith, length-append {0} front (b ∷ []))

-- Both forms write the same bytes.
encode_into_bytes :
    (v : ℕ) (out : List ℕ) (max_len : ℕ)
    → encode_into v out max_len ≡ (
        if ltb max_len (encoded_size v)
        then (0, out)
        else (encoded_size v, store_bytes out 0 (encode v)))
unfolding encode_into encode encoded_size
encode_into_bytes v out max_len = ground arith

-- The form of `encode` that writes into a buffer of `max_len` bytes at least: where the encoding
-- fits it writes what the other form appends and leaves the rest of the buffer, and where it does not
-- fit it writes nothing and returns 0.
pub encode_into_lem :
    (v : ℕ) (out : List ℕ) (max_len : ℕ)
    → max_len ≤ length out
    → ((encoded_size v ≤ max_len)
        × (encode_into v out max_len ≡ (encoded_size v, encode v ++ drop (encoded_size v) out)))
      ⊎ ((max_len < encoded_size v) × (encode_into v out max_len ≡ (0, out)))
encode_into_lem v out max_len h = elim (dec_lt max_len (encoded_size v)) [
  | yes short ↦ inr (short, encode_into_bytes v out max_len ∙ ground arith)
  | no fits ↦ inl (
    omega arith,
    encode_into_bytes v out max_len
        ∙ ground (
          arith,
          (length-encode v).0,
          store_bytes_lem (encode v) [] out (omega (arith, (length-encode v).0)),
        ),
  )
]

read_more-length : (n v : ℕ) (bs : List ℕ) → length (read_more n v bs).1 ≤ length bs
unfolding read_more
read_more-length zero v bs = omega arith
read_more-length (suc n) v [] = omega arith
read_more-length (suc n) v (b ∷ bs) =
    omega (arith, read_more-length n (bit_or (v * 2 ^ 8 % u64_mod) b) bs)

-- A successful `decode` leaves less than it was given.
pub decode-length :
    (buf : List ℕ) (v : ℕ) (rest : List ℕ) → decode buf ≡ some (v, rest) → length rest < length buf
unfolding decode
decode-length [] v rest e = cc
decode-length (first ∷ tail) v rest e =
    ground
      (arith, read_more-length (2 ^ bit_and (first / 2 ^ 6) 0x03 - 1) (bit_and first 0x3f) tail)
