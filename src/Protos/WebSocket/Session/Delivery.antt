-- ===== src/Protos/WebSocket/Session/Delivery.antt =====
-- A message that is sent is the message that the other side reads.
use wave_x.Prelude.{
  ℕ, zero, suc, ◌+◌, ◌≤◌, ◌<◌, ◌^◌, ◌≡◌, refl, sym, ap, ◌∙◌, Bool, true, false, not, ◌&&◌, Option,
  none, some, List, [], ◌∷◌, ◌++◌, ltb, leb, if◌then◌else◌, length, take, drop, ◌⊎◌, inl, inr,
  arith, length-append, append_assoc, bit_or, take-length_append, drop-length_append, not_lt→ltb,
  le→leb,
}
use wave_x.Prelude.Digits.{push_number}
use wave_x.Protos.WebSocket.Codec.{
  opcode_value, encode_length, Opcode, text, binary, FrameHeader, complete, is_control, apply_mask,
  parse_header, encode_frame,
}
use wave_x.Protos.WebSocket.Codec.RoundTrip.{
  parse_header-encode_frame, header_of, key_of, is_masked, wire_payload, apply_mask_twice,
}
use wave_x.Protos.WebSocket.Codec.Bounds.{length-apply_mask, length-encode_frame}
use wave_x.Protos.WebSocket.Text.{is_valid_utf8}
use wave_x.Protos.WebSocket.Session.{
  Role, server, client, Connection, Result, delivered, returns, take_data, take_frame, is_refused,
  judge, round, rounds, read, Fill, mask_for,
}

-- A frame is its header and then its payload, masked or not.
header_bytes : Opcode → List ℕ → Bool → Option ℕ → List ℕ
header_bytes op payload fin none =
    bit_or (if fin then 0x80 else 0x00) (opcode_value op) ∷ encode_length 0x00 (length payload)
header_bytes op payload fin (some key) =
    bit_or (if fin then 0x80 else 0x00) (opcode_value op)
    ∷ (encode_length 0x80 (length payload) ++ push_number 4 key)

encode_split :
    (op : Opcode) (payload : List ℕ) (fin : Bool) (mask : Option ℕ)
    → encode_frame op payload fin mask
      ≡ header_bytes op payload fin mask ++ wire_payload payload mask
unfolding encode_frame header_bytes
encode_split op payload fin none = refl
encode_split op payload fin (some key) =
    ap (λ l. bit_or (if fin then 0x80 else 0x00) (opcode_value op) ∷ l)
      (sym (
        append_assoc (encode_length 0x80 (length payload)) (push_number 4 key)
          (apply_mask payload key 0)))

length-wire_payload :
    (payload : List ℕ) (mask : Option ℕ) → length (wire_payload payload mask) ≡ length payload
length-wire_payload payload none = refl
length-wire_payload payload (some key) = length-apply_mask payload key 0

length-header_bytes :
    (op : Opcode) (payload : List ℕ) (fin : Bool) (mask : Option ℕ)
    → length (header_bytes op payload fin mask) ≡ (header_of op payload fin mask).header_size
length-header_bytes op payload fin mask = omega (
  arith,
  length-encode_frame op payload fin mask,
  ap length (encode_split op payload fin mask),
  length-append {0} (header_bytes op payload fin mask) (wire_payload payload mask),
  length-wire_payload payload mask,
)

-- The parts of a received frame: its payload with the mask taken off, and what follows it.
unmasked :
    (payload : List ℕ) (mask : Option ℕ)
    → (if is_masked mask
        then apply_mask (wire_payload payload mask) (key_of mask) 0
        else wire_payload payload mask)
      ≡ payload
unmasked payload none = refl
unmasked payload (some key) = apply_mask_twice payload key 0

frame_parts :
    (op : Opcode) (payload : List ℕ) (fin : Bool) (mask : Option ℕ) (rest : List ℕ)
    → let bytes = encode_frame op payload fin mask ++ rest in
      let h = header_of op payload fin mask in
      (take h.payload_length (drop h.header_size bytes) ≡ wire_payload payload mask)
      × (drop (h.header_size + h.payload_length) bytes ≡ rest)
      × (h.header_size + h.payload_length ≤ length bytes)
frame_parts op payload fin mask rest =
    let front = header_bytes op payload fin mask in
    let wire = wire_payload payload mask in
    let bytes = encode_frame op payload fin mask ++ rest in
    let size = length-header_bytes op payload fin mask in
    let form : bytes ≡ front ++ (wire ++ rest) =
      ap (λ l. l ++ rest) (encode_split op payload fin mask) ∙ append_assoc front wire rest in
    let whole : bytes ≡ (front ++ wire) ++ rest =
      ap (λ l. l ++ rest) (encode_split op payload fin mask) in
    let n = length-wire_payload payload mask in
    (
      rw (form, sym size, sym n)
          (ap (λ l. take (length wire) l) (drop-length_append front (wire ++ rest))
            ∙ take-length_append wire rest),
      ap (λ k. drop k bytes) (omega (arith, size, n, length-append {0} front wire))
          ∙ ap (λ l. drop (length (front ++ wire)) l) whole
          ∙ drop-length_append (front ++ wire) rest,
      omega (
        arith,
        size,
        n,
        ap length whole,
        length-append {0} (front ++ wire) rest,
        length-append {0} front wire,
      ),
    )

abbrev pub other : Role → Role
other server = client
other client = server

-- The receiver of a message: it has not closed, is in no fragmented message, and takes messages of this
-- size and kind.
pub record Accepts (c : Connection) (op : Opcode) (payload : List ℕ) : Type 0 where
  pub still_open : c.read_closed ≡ false
  pub between : c.in_message ≡ false
  pub no_fragments : c.message ≡ []
  pub is_data : (op ≡ text) ⊎ (op ≡ binary)
  pub fits : length payload ≤ c.max_message_size
  pub valid : op ≡ text → is_valid_utf8 payload ≡ true

-- The header of a whole message passes.
header_passes :
    (c : Connection) (op : Opcode) (payload : List ℕ) (key : ℕ)
    → Accepts c op payload
    → is_refused (header_of op payload true (mask_for (other c.role) key)) c ≡ false
unfolding is_refused is_control
header_passes c op payload key a = go c.role op refl a.is_data
  where
    go :
        (r : Role) (o : Opcode)
        → c.role ≡ r
        → (o ≡ text) ⊎ (o ≡ binary)
        → is_refused (header_of o payload true (mask_for (other c.role) key)) c ≡ false
    go server o e (inl d) = rw (is_refused, e, d, a.between) refl
    go server o e (inr d) = rw (is_refused, e, d, a.between) refl
    go client o e (inl d) = rw (is_refused, e, d, a.between) refl
    go client o e (inr d) = rw (is_refused, e, d, a.between) refl

abbrev pub after_message : Connection → Opcode → List ℕ → Connection
after_message c op rest = record c {
  rbuf = rest;
  in_message = false;
  message = [];
  message_type = op;
}

data_delivered :
    (k : ℕ) (h : FrameHeader) (payload : List ℕ) (c : Connection) (op : Opcode)
    → h.op ≡ op
    → h.fin ≡ true
    → (op ≡ text) ⊎ (op ≡ binary)
    → (op ≡ text → is_valid_utf8 payload ≡ true)
    → take_frame k h payload c ≡ returns (after_message c op c.rbuf) (delivered payload op)
unfolding take_frame take_data
data_delivered k h payload c op e f (inl d) v =
    rw (take_frame, e, d, take_data, e, d, f, v d) (ground arith)
data_delivered k h payload c op e f (inr d) v = rw (take_frame, e, d, take_data, e, d, f) refl

and_false : (x y : Bool) → y ≡ false → (x && y) ≡ false
and_false x y h = ground arith

judge_delivers :
    (k : ℕ) (c : Connection) (op : Opcode) (payload rest : List ℕ) (key : ℕ)
    → Accepts c op payload
    → c.rbuf ≡ encode_frame op payload true (mask_for (other c.role) key) ++ rest
    → judge k (header_of op payload true (mask_for (other c.role) key)) c
      ≡ returns (after_message c op rest) (delivered payload op)
unfolding judge
judge_delivers k c op payload rest key a e =
    let mask = mask_for (other c.role) key in
    let h = header_of op payload true mask in
    let (front, back, room) = frame_parts op payload true mask rest in
    let there : leb (h.header_size + h.payload_length) (length c.rbuf) ≡ true =
      le→leb _ _ (omega (arith, room, ap length e)) in
    let small : ltb c.max_message_size (length c.message + h.payload_length) ≡ false =
      not_lt→ltb _ _ (λ b. omega (arith, a.fits, ap length a.no_fragments)) in
    let c' = record c { rbuf = drop (h.header_size + h.payload_length) c.rbuf } in
    let wire = take h.payload_length (drop h.header_size c.rbuf) in
    let taken : judge k h c
        ≡ take_frame k h (if h.masked then apply_mask wire h.masking_key 0 else wire) c' =
      rw (judge, header_passes c op payload key a, and_false (not (is_control op)) _ small, there)
        refl in
    let wire_back : wire ≡ wire_payload payload mask =
      ap (λ l. take h.payload_length (drop h.header_size l)) e ∙ front in
    let payload_back : (if h.masked then apply_mask wire h.masking_key 0 else wire) ≡ payload =
      ap (λ l. if h.masked then apply_mask l h.masking_key 0 else l) wire_back
      ∙ unmasked payload mask in
    let rest_back : c'.rbuf ≡ rest = ap (λ l. drop (h.header_size + h.payload_length) l) e ∙ back in
    taken
    ∙ ap (λ l. take_frame k h l c') payload_back
    ∙ data_delivered k h payload c' op refl refl a.is_data a.valid
    ∙ ap (λ l. returns (after_message c op l) (delivered payload op)) rest_back

round_judges :
    (k : ℕ) (c : Connection) (h : FrameHeader)
    → c.read_closed ≡ false
    → parse_header c.rbuf ≡ complete h
    → round k c ≡ judge k h c
unfolding round
round_judges k c h o e = simp (round, o, e) refl

rounds_return :
    (keys : ℕ → ℕ) (fuel : ℕ) (c d : Connection) (r : Result)
    → 1 ≤ fuel
    → ((k : ℕ) → round k c ≡ returns d r)
    → rounds keys fuel c ≡ returns d r
unfolding rounds
rounds_return keys zero c d r l h = absurd (omega arith)
rounds_return keys (suc fuel) c d r l h = rw (rounds, h (keys fuel)) refl

read_returns :
    (keys : ℕ → ℕ) (fs : List Fill) (c d : Connection) (r : Result)
    → rounds keys (length c.rbuf + 1) c ≡ returns d r
    → read keys fs c ≡ returns d r
unfolding read
read_returns keys [] c d r h = h
read_returns keys (f ∷ fs) c d r h = rw (read, h) refl

key_small : (r : Role) (key : ℕ) → key < 2 ^ 32 → key_of (mask_for (other r) key) < 2 ^ 32
key_small server key h = h
key_small client key h = omega arith

-- A whole text or binary message that either side has put into one frame, at the front of what the other
-- side has received. If that side is open, between messages, and takes messages of this size, and if a text
-- is UTF-8: `read` returns the message as it was sent, and leaves what follows.
pub message_delivered :
    (keys : ℕ → ℕ) (fs : List Fill) (c : Connection) (op : Opcode) (payload rest : List ℕ) (key : ℕ)
    → Accepts c op payload
    → c.rbuf ≡ encode_frame op payload true (mask_for (other c.role) key) ++ rest
    → length payload < 2 ^ 63
    → key < 2 ^ 32
    → read keys fs c ≡ returns (after_message c op rest) (delivered payload op)
unfolding judge round read
message_delivered keys fs c op payload rest key a e l k =
    let mask = mask_for (other c.role) key in
    let header : parse_header c.rbuf ≡ complete (header_of op payload true mask) =
      ap parse_header e
      ∙ parse_header-encode_frame op payload true mask rest l (key_small c.role key k) in
    let one : (k : ℕ) → round k c ≡ returns (after_message c op rest) (delivered payload op) =
      λ k. round_judges k c _ a.still_open header ∙ judge_delivers k c op payload rest key a e in
    read_returns keys fs c _ _ (rounds_return keys (length c.rbuf + 1) c _ _ (omega arith) one)
