-- ===== src/Protos/Http2/Hpack/RoundTrip.antt =====
-- Header blocks are decoded as they were encoded.
use wave_x.Prelude.{
  ℕ, zero, suc, ◌+◌, ◌-◌, ◌*◌, ◌^◌, ◌≤◌, ◌<◌, ◌≡◌, ◌⊎◌, refl, sym, ap, ◌∙◌, false, List, [], ◌∷◌,
  ◌++◌, length, drop, arith, append_assoc, length-append, append-nil, inl, inr, length-drop,
  drop_all, le→leb, not_le→leb,
}
use wave_x.Protos.Http1.{Header}
use wave_x.Protos.Http2.Hpack.Integer.{encode_integer, encode_string}
use wave_x.Protos.Http2.Hpack.IntegerBack.{length-encode_integer}
use wave_x.Protos.Http2.Hpack.FieldBack.{
  Encodes, behind, by_index, by_name, by_literal, decode_round-Encodes,
}
use wave_x.Protos.Http2.Hpack.Rounds.{listed, emitted_size}
use wave_x.Protos.Http2.Hpack.DynamicTable.{DynamicTable}
use wave_x.Protos.Http2.Hpack.Decoder.{
  Block, emit, list_size_of, count_new, over_limit, decoded, decode_loop, start_block, block_fuel,
  decode_header_block,
}

-- A block that encodes fields one after the other.
pub data EncodesAll : List ℕ → List Header → Type 0 where
  no_fields : EncodesAll [] []
  and_then :
      (bytes more : List ℕ) (h : Header) (hs : List Header)
      → Encodes bytes h
      → EncodesAll more hs
      → EncodesAll (bytes ++ more) (h ∷ hs)

length-Encodes : {bytes : List ℕ} {h : Header} → Encodes bytes h → 1 ≤ length bytes
length-Encodes (by_index idx u) = length-encode_integer idx 7 0x80
length-Encodes (by_name idx value u) = omega (
  arith,
  length-encode_integer idx 4 0,
  length-append {0} (encode_integer idx 4 0) (encode_string value),
)
length-Encodes (by_literal name value) = omega (
  arith,
  length-encode_integer 0 4 0,
  length-append {0} (encode_integer 0 4 0) (encode_string name ++ encode_string value),
)

-- There is room for a list of this size.
unfoldable pub HasRoom : ℕ → ℕ → Type 0
HasRoom max size = (max ≡ 0) ⊎ (size ≤ max)

not_over : (max : ℕ) (s : Block) → HasRoom max s.list_size → over_limit max s ≡ false
unfolding HasRoom
not_over zero s r = refl
not_over (suc max) s (inl z) = absurd (omega arith)
not_over (suc max) s (inr k) = ground arith

room_less : (max a b : ℕ) → HasRoom max a → b ≤ a → HasRoom max b
unfolding HasRoom
room_less max a b (inl z) h = inl z
room_less max a b (inr k) h = inr (omega arith)

-- A field takes its size off the room.
room_after :
    (max cursor : ℕ) (h : Header) (hs : List Header) (s : Block)
    → HasRoom max (listed s + list_size_of (h ∷ hs))
    → HasRoom max (listed (emit h cursor (count_new s)) + list_size_of hs)
unfolding list_size_of listed
room_after max cursor h hs s r =
    room_less max _ _ r (omega (arith, emitted_size h cursor (count_new s) refl))

decode_loop-EncodesAll :
    (n : ℕ) (block bytes : List ℕ) (hs : List Header) (max : ℕ) (s : Block)
    → length block < 2 ^ 64
    → EncodesAll bytes hs
    → drop s.cursor block ≡ bytes
    → HasRoom max (listed s + list_size_of hs)
    → length hs < n
    → decode_loop n block max s ≡ decoded (s.out_headers ++ hs) s.dt
unfolding decode_loop listed
decode_loop-EncodesAll zero block bytes hs max s b all e r k = absurd (omega arith)
decode_loop-EncodesAll (suc n) block bytes hs max s b no_fields e r k =
    let all_read : length block - s.cursor ≡ 0 = sym (length-drop s.cursor block) ∙ ap length e in
    rw
      (
        not_over max (count_new s) (room_less max _ _ r (omega arith)),
        le→leb (length block) s.cursor (omega arith),
      )
      (ap (λ (l : List Header). decoded l s.dt) (sym (append-nil s.out_headers)))
decode_loop-EncodesAll (suc n) block all_bytes all_hs max s b (and_then bytes more h hs one all) e r
      k =
    let left : length block - s.cursor ≡ length bytes + length more =
      sym (length-drop s.cursor block) ∙ ap length e ∙ length-append bytes more in
    rw
      (
        not_over max (count_new s) (room_less max _ _ r (omega arith)),
        not_le→leb (length block) s.cursor (omega (arith, left, length-Encodes one)),
        decode_round-Encodes block bytes more h (count_new s) b one e,
      )
      (decode_loop-EncodesAll n block more hs max (emit h (s.cursor + length bytes) (count_new s)) b
          all (behind block bytes more s.cursor e)
          (room_after max (s.cursor + length bytes) h hs s r) (omega arith)
        ∙ ap (λ (l : List Header). decoded l s.dt) (append_assoc s.out_headers (h ∷ []) hs))

length-EncodesAll :
    {bytes : List ℕ} {hs : List Header} → EncodesAll bytes hs → length hs ≤ length bytes
length-EncodesAll no_fields = omega arith
length-EncodesAll (and_then bytes more h hs one all) =
    omega (arith, length-append bytes more, length-Encodes one, length-EncodesAll all)

fuel_there : (max k : ℕ) → k < (max + 2) * (k + 1) + 1
fuel_there max k = grind arith

-- A block that encodes fields, by any of the three ways for each, is decoded into them, behind the fields that were
-- there, where the limit leaves room, and the dynamic table stays as it was.
pub decode_header_block-EncodesAll :
    (block : List ℕ) (hs out0 : List Header) (max_list_size : ℕ) (dt : DynamicTable)
    → length block < 2 ^ 64
    → EncodesAll block hs
    → HasRoom max_list_size (list_size_of hs)
    → decode_header_block max_list_size block out0 dt ≡ decoded (out0 ++ hs) dt
unfolding decode_header_block listed list_size_of
decode_header_block-EncodesAll block hs out0 max dt b all r =
    let nothing_yet : listed (start_block out0 dt) ≡ 0 =
      omega (arith, ap list_size_of (drop_all (length out0) out0 (omega arith))) in
    decode_loop-EncodesAll (block_fuel max block) block block hs max (start_block out0 dt) b all
      refl (room_less max _ _ r (omega (arith, nothing_yet)))
      (omega (arith, fuel_there max (length block), length-EncodesAll all))
