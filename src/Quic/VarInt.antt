-- ===== src/Quic/VarInt.antt =====
-- include/wavex/Network/QUIC/VarInt.hpp and src/Network/QUIC/VarInt.cpp: the variable-length
-- integers of QUIC. A byte string is a list of numbers below 256. `encode` gives the bytes that the
-- code appends to `out`. A buffer read through a cursor is the list of the bytes from the cursor on,
-- so that `cursor += n` drops `n` bytes and `buf.size() - cursor` is the list's length.
pub mod Codec
pub mod Bounds
mod Runs
use wave_x.Prelude.{
  ℕ, zero, suc, ◌+◌, ◌-◌, ◌*◌, ◌/◌, ◌%◌, ◌^◌, Option, none, some, List, [], ◌∷◌, bit_and, bit_or,
  leb, ltb, ◌==◌, if◌then◌else◌, length, set, u64_mod,
}

unfoldable pub encoded_size : ℕ → ℕ
encoded_size val =
    if leb val 0x3f then 1 else if leb val 0x3fff then 2 else if leb val 0x3fffffff then 4 else 8

-- `(val >> (8 * i)) & 0xff`
abbrev pub byte_at : ℕ → ℕ → ℕ
byte_at val i = bit_and (val / 2 ^ (8 * i)) 0xff

-- VarInt::encode(val, std::string &)
unfoldable pub encode : ℕ → List ℕ
encode val =
    if leb val 0x3f
    then bit_and val 0x3f ∷ []
    else if leb val 0x3fff
    then bit_or 0x40 (bit_and (val / 2 ^ 8) 0x3f) ∷ bit_and val 0xff ∷ []
    else if leb val 0x3fffffff
    then bit_or 0x80 (bit_and (val / 2 ^ 24) 0x3f)
      ∷ byte_at val 2
      ∷ byte_at val 1
      ∷ bit_and val 0xff
      ∷ []
    else bit_or 0xc0 (bit_and (val / 2 ^ 56) 0x3f)
      ∷ byte_at val 6
      ∷ byte_at val 5
      ∷ byte_at val 4
      ∷ byte_at val 3
      ∷ byte_at val 2
      ∷ byte_at val 1
      ∷ bit_and val 0xff
      ∷ []

-- Writes the bytes one after the other from the index `i` on: `out[i] = ...; out[i + 1] = ...`.
pub store_bytes : List ℕ → ℕ → List ℕ → List ℕ
store_bytes out i [] = out
store_bytes out i (b ∷ bs) = store_bytes (set out i b) (suc i) bs

-- VarInt::encode(val, uint8_t *, max_len): the length written, and the buffer afterwards.
pub encode_into : ℕ → List ℕ → ℕ → ℕ × List ℕ
encode_into val out max_len =
    let len = encoded_size val in
    if ltb max_len len then (0, out) else (
      len,
      if len == 1
          then store_bytes out 0 (bit_and val 0x3f ∷ [])
          else if len == 2
          then store_bytes out 0 (bit_or 0x40 (bit_and (val / 2 ^ 8) 0x3f) ∷ bit_and val 0xff ∷ [])
          else if len == 4
          then store_bytes out 0 (
              bit_or 0x80 (bit_and (val / 2 ^ 24) 0x3f)
              ∷ byte_at val 2
              ∷ byte_at val 1
              ∷ bit_and val 0xff
              ∷ [])
          else store_bytes out 0 (
              bit_or 0xc0 (bit_and (val / 2 ^ 56) 0x3f)
              ∷ byte_at val 6
              ∷ byte_at val 5
              ∷ byte_at val 4
              ∷ byte_at val 3
              ∷ byte_at val 2
              ∷ byte_at val 1
              ∷ bit_and val 0xff
              ∷ []),
    )

-- `val = (val << 8) | byte`, `n` times. The list is never short here: `decode` has compared.
unfoldable pub read_more : ℕ → ℕ → List ℕ → ℕ × List ℕ
read_more zero val bs = (val, bs)
read_more (suc n) val [] = (val, [])
read_more (suc n) val (b ∷ bs) = read_more n (bit_or (val * 2 ^ 8 % u64_mod) b) bs

-- VarInt::decode: the value and the bytes after it, or `none` where the code returns false.
unfoldable pub decode : List ℕ → Option (ℕ × List ℕ)
unfolding read_more
decode [] = none
decode (first ∷ rest) =
    let len = 2 ^ bit_and (first / 2 ^ 6) 0x03 in
    if ltb (length (first ∷ rest)) len
    then none
    else some (read_more (len - 1) (bit_and first 0x3f) rest)
