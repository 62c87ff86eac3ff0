-- ===== src/Protos/Http2/Hpack/Stops.antt =====
-- Where there is a limit, the decoder of header blocks stops; where there is none, a block can keep it
-- going for ever.
use wave_x.Prelude.{
  ℕ, zero, suc, ◌+◌, ◌-◌, ◌*◌, ◌≤◌, ◌<◌, ◌≡◌, ◌≢◌, refl, ap, Bool, true, false, List, [], ◌∷◌, leb,
  if◌then◌else◌, length, drop, arith, inl, inr, drop_all, leb_false→lt,
}
use native.Mathlib.Nat.{mul-le-mul_right}
use wave_x.Protos.Http1.{Header}
use wave_x.Protos.Http2.Hpack.Integer.{decode_integer, decode_more, decode_string, first_or_zero}
use wave_x.Protos.Http2.Hpack.DynamicTable.{DynamicTable}
use wave_x.Protos.Http2.Hpack.Decoder.{
  Block, emit, decode_round, list_size_of, count_new, over_limit, BlockResult, decoded, failed,
  undefined_block, out_of_fuel, next_round, decode_loop, start_block, block_fuel,
  decode_header_block,
}
use wave_x.Protos.Http2.Hpack.Rounds.{
  Step, emits, resizes, decode_round-Step, listed, listed-count_new, emitted_size, next_round-All,
  within,
}

-- The fuel did not run out.
unfoldable pub Ends : BlockResult → Type 0
Ends out_of_fuel = ⊥
Ends (decoded hs dt) = Unit
Ends (failed within_limit) = Unit
Ends undefined_block = Unit

-- The rounds that are left at most.
rounds_left : List ℕ → ℕ → ℕ → ℕ → ℕ
rounds_left block max size cursor = (max - size) * (length block + 1) + (length block - cursor) + 2

more_room : (a b k : ℕ) → a + 1 ≤ b → a * k + k ≤ b * k
more_room a b k h = grind (arith, mul-le-mul_right k h)

two_more : (a k : ℕ) → (a + 2) * k ≡ a * k + k + k
two_more a k = grind arith

rounds_fewer :
    (block : List ℕ) (max size size1 cursor cursor1 : ℕ)
    → size + 32 ≤ size1
    → size1 ≤ max
    → suc (rounds_left block max size1 cursor1) ≤ rounds_left block max size cursor
unfolding rounds_left
rounds_fewer block max size size1 cursor cursor1 h k =
    omega (arith, more_room (max - size1) (max - size) (length block + 1) (omega arith))

rounds_forward :
    (block : List ℕ) (max size size1 cursor cursor1 : ℕ)
    → size1 ≡ size
    → cursor < cursor1
    → cursor < length block
    → suc (rounds_left block max size1 cursor1) ≤ rounds_left block max size cursor
unfolding rounds_left
rounds_forward block max size size1 cursor cursor1 e h k =
    omega (arith, ap (λ (z : ℕ). (max - z) * (length block + 1)) e)

two_rounds :
    (block : List ℕ) (max size cursor : ℕ)
    → cursor < length block
    → 3 ≤ rounds_left block max size cursor
unfolding rounds_left
two_rounds block max size cursor h = omega arith

new_field :
    (s : Block) (h : Header) (cursor : ℕ) → listed s + 32 ≤ listed (emit h cursor (count_new s))
unfolding listed
new_field s h cursor = omega (arith, emitted_size h cursor (count_new s) refl)

rounds_left-Step :
    (n : ℕ) (block : List ℕ) (max : ℕ) (s t : Block)
    → s.cursor < length block
    → (listed s ≤ max → rounds_left block max (listed s) s.cursor ≤ suc n)
    → listed s ≤ max
    → Step (count_new s) t
    → (1 ≤ n) × (listed t ≤ max → rounds_left block max (listed t) t.cursor ≤ n)
unfolding listed
rounds_left-Step n block max s t c b l (emits h cursor dt k) = (
  omega (arith, two_rounds block max (listed s) s.cursor c, b l),
  λ m. omega (
    arith,
    b l,
    rounds_fewer block max (listed s) (listed (emit h cursor (count_new s))) s.cursor cursor
        (new_field s h cursor) m,
  ),
)
rounds_left-Step n block max s t c b l (resizes cursor dt q k) = (
  omega (arith, two_rounds block max (listed s) s.cursor c, b l),
  λ m. omega (
    arith,
    b l,
    rounds_forward block max (listed s) (listed (count_new s)) s.cursor cursor (listed-count_new s)
        q c,
  ),
)

decode_loop-Ends :
    (n : ℕ) (block : List ℕ) (max : ℕ) (s : Block)
    → max ≢ 0
    → 1 ≤ n
    → (listed s ≤ max → rounds_left block max (listed s) s.cursor ≤ n)
    → Ends (decode_loop n block max s)
unfolding decode_loop Ends listed
decode_loop-Ends zero block max s z p b = absurd (omega arith)
decode_loop-Ends (suc n) block max s z p b =
    let room : over_limit max (count_new s) ≡ false → listed s ≤ max =
      λ e. elim (within max (count_new s) e) [ inl x ↦ absurd (z x) | inr k ↦ k ] in
    go (over_limit max (count_new s)) refl (leb (length block) s.cursor) refl room (λ t c l step.
      let (q, m) = rounds_left-Step n block max s t c b l step in
      decode_loop-Ends n block max t z q m)
  where
    go :
        (over : Bool)
        → over_limit max (count_new s) ≡ over
        → (done : Bool) → leb (length block) s.cursor ≡ done
        → (over_limit max (count_new s) ≡ false → listed s ≤ max)
        → ((t : Block)
            → s.cursor < length block
            → listed s ≤ max
            → Step (count_new s) t
            → Ends (decode_loop n block max t))
        → Ends (
            if over
            then failed true
            else if done
            then decoded (count_new s).out_headers (count_new s).dt
            else next_round
                (decode_loop n block max)
                (decode_round block (first_or_zero (drop s.cursor block)) (count_new s)))
    go true e done f room more = tt
    go false e true f room more = tt
    go false e false f room more =
        next_round-All Ends (decode_loop n block max)
          (decode_round-Step block (first_or_zero (drop s.cursor block)) (count_new s)) tt tt
          (λ t step. more t (leb_false→lt (length block) s.cursor f) (room e) step)

-- Where there is a limit on the list, decoding a block of any bytes does not run out of the fuel that
-- decode_header_block gives it: it returns a list, it fails, or it gets to the undefined shift of the Huffman decoder.
pub decode_header_block-Ends :
    (max_list_size : ℕ) (block : List ℕ) (out_headers : List Header) (dt : DynamicTable)
    → max_list_size ≢ 0
    → Ends (decode_header_block max_list_size block out_headers dt)
unfolding decode_header_block listed rounds_left list_size_of
decode_header_block-Ends max_list_size block out_headers dt z =
    let nothing_yet : listed (start_block out_headers dt) ≡ 0 =
      omega (arith, ap list_size_of (drop_all (length out_headers) out_headers (omega arith))) in
    decode_loop-Ends (block_fuel max_list_size block) block max_list_size
      (start_block out_headers dt) z (omega arith)
      (λ m. omega (
        arith,
        ap (λ (z : ℕ). (max_list_size - z) * (length block + 1)) nothing_yet,
        ap (λ (z : ℕ). z * (length block + 1)) {x = max_list_size - 0} {y = max_list_size}
            (omega arith),
        two_more max_list_size (length block + 1),
      ))

-- A field whose value has a length that takes the cursor around 2^64, back to the start of the block.
abbrev pub looping_block : List ℕ
looping_block =
    0x00 ∷ 0x01 ∷ 0x61 ∷ 0x7f ∷ 0xf3 ∷ 0xfe ∷ 0xff ∷ 0xff ∷ 0xff ∷ 0xff ∷ 0xff ∷ 0xff ∷ 0xff ∷ 0x01
    ∷ []

-- Without a limit on the list there is a block of 14 bytes on which no number of rounds of the decoder is enough,
-- whatever its list, the counts of the list and the table are at the start.
pub decode_loop_endless :
    (n list_size counted : ℕ) (hs : List Header) (t : DynamicTable)
    → decode_loop n looping_block 0
        (record { cursor = 0; list_size = list_size; counted = counted; out_headers = hs; dt = t })
      ≡ out_of_fuel
unfolding decode_loop decode_round decode_string decode_integer decode_more
decode_loop_endless zero list_size counted hs t = refl
decode_loop_endless (suc n) list_size counted hs t = decode_loop_endless n _ _ _ t
