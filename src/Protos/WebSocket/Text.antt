-- ===== src/Protos/WebSocket/Text.antt =====
-- Text: trimming and lists of tokens, UTF-8, base64, close payloads and the subprotocol that is selected.
-- `sha1`, `compute_accept_key` and the random keys are left out.
pub mod Close
mod Runs
use wave_x.Prelude.{
  ℕ, zero, suc, ◌+◌, ◌-◌, ◌*◌, ◌/◌, ◌%◌, ◌^◌, Bool, true, false, not, ◌&&◌, ◌||◌, Option, none,
  some, List, [], ◌∷◌, ◌++◌, ltb, leb, ◌==◌, if◌then◌else◌, length, take, drop, bit_and, bit_or,
  get_or, ◌>>=◌,
}

unfoldable pub ascii_lower : ℕ → ℕ
ascii_lower c = if leb 65 c && leb c 90 then c - 65 + 97 else c

unfoldable pub iequals : List ℕ → List ℕ → Bool
unfolding ascii_lower
iequals [] [] = true
iequals [] (b ∷ bs) = false
iequals (a ∷ xs) [] = false
iequals (a ∷ xs) (b ∷ bs) = (ascii_lower a == ascii_lower b) && iequals xs bs

-- `a == b` of two string views.
unfoldable pub equals : List ℕ → List ℕ → Bool
equals [] [] = true
equals [] (b ∷ bs) = false
equals (a ∷ xs) [] = false
equals (a ∷ xs) (b ∷ bs) = (a == b) && equals xs bs

abbrev pub is_blank : ℕ → Bool
is_blank c = (c == 32) || (c == 9)

-- `remove_prefix(1)` while there is a blank in front.
unfoldable pub trim_front : List ℕ → List ℕ
trim_front [] = []
trim_front (c ∷ cs) = let more = trim_front cs in if is_blank c then more else c ∷ cs

-- `remove_suffix(1)` while there is a blank at the back.
unfoldable pub trim_back : List ℕ → List ℕ
trim_back [] = []
trim_back (c ∷ cs) = elim (trim_back cs) [
  | [] ↦ if is_blank c then [] else c ∷ []
  | d ∷ ds ↦ c ∷ d ∷ ds
]

unfoldable pub trim : List ℕ → List ℕ
unfolding trim_front trim_back
trim s = trim_back (trim_front s)

-- `list.substr(0, comma)` and what is left after `remove_prefix(comma + 1)`, if there is a comma.
unfoldable pub split_comma : List ℕ → List ℕ × Option (List ℕ)
split_comma [] = ([], none)
split_comma (c ∷ cs) =
    let (token, more) = split_comma cs in if c == 44 then ([], some cs) else (c ∷ token, more)

-- for_each_token with a test that is looked for: whether one of the tokens passes. `list` has at most as
-- many tokens as bytes, and the fuel is the number of its bytes.
unfoldable pub any_token_from : ℕ → List ℕ → (List ℕ → Bool) → Bool
unfolding trim split_comma
any_token_from zero list fn = false
any_token_from (suc fuel) list fn =
    let (front, more) = split_comma list in
    let token = trim front in
    let later : Bool = elim more [ none ↦ false | some rest ↦ any_token_from fuel rest fn ] in
    if length list == 0 then false else if not (length token == 0) && fn token then true else later

unfoldable pub any_token : List ℕ → (List ℕ → Bool) → Bool
unfolding any_token_from
any_token list fn = any_token_from (length list) list fn

unfoldable pub header_contains_token : List ℕ → List ℕ → Bool
unfolding any_token iequals
header_contains_token header_value token = any_token header_value (λ t. iequals t token)

-- The first candidate that is offered, and the empty string where none is.
unfoldable pub select_subprotocol : List ℕ → List (List ℕ) → List ℕ
unfolding any_token equals
select_subprotocol offered [] = []
select_subprotocol offered (candidate ∷ supported) =
    let later = select_subprotocol offered supported in
    if any_token offered (λ token. equals token candidate) then candidate else later

-- `while (cut > 0 && (s[cut] & 0xC0) == 0x80) --cut`
unfoldable pub cut_at : List ℕ → ℕ → ℕ
cut_at s zero = zero
cut_at s (suc cut) =
    let before = cut_at s cut in
    if bit_and (get_or s (suc cut) 0) 0xC0 == 0x80 then before else suc cut

unfoldable pub utf8_prefix : List ℕ → ℕ → List ℕ
unfolding cut_at
utf8_prefix s max = if leb (length s) max then s else take (cut_at s max) s

unfoldable pub is_valid_close_code : ℕ → Bool
is_valid_close_code code =
    if leb 1000 code && leb code 1003
    then true
    else if leb 1007 code && leb code 1014
    then true
    else leb 3000 code && leb code 4999

abbrev pub no_status : ℕ
no_status = 1005

abbrev pub abnormal : ℕ
abnormal = 1006

unfoldable pub close_payload : ℕ → List ℕ → List ℕ
unfolding utf8_prefix
close_payload code reason =
    if (code == no_status) || (code == abnormal)
    then []
    else bit_and (code / 2 ^ 8) 0xFF ∷ bit_and code 0xFF ∷ utf8_prefix reason 123

-- The code and the reason, or `none` for false.
unfoldable pub parse_close_payload : List ℕ → Option (ℕ × List ℕ)
unfolding is_valid_close_code
parse_close_payload [] = some (no_status, [])
parse_close_payload (b0 ∷ []) = none
parse_close_payload (b0 ∷ b1 ∷ reason) =
    let code = bit_or (b0 * 2 ^ 8) b1 in
    if is_valid_close_code code then some (code, reason) else none

-- `kAlphabet[i]`
abbrev alphabet : List ℕ
alphabet =
    65 ∷ 66 ∷ 67 ∷ 68 ∷ 69 ∷ 70 ∷ 71 ∷ 72 ∷ 73 ∷ 74 ∷ 75 ∷ 76 ∷ 77 ∷ 78 ∷ 79 ∷ 80 ∷ 81 ∷ 82 ∷ 83
    ∷ 84 ∷ 85 ∷ 86 ∷ 87 ∷ 88 ∷ 89 ∷ 90 ∷ 97 ∷ 98 ∷ 99 ∷ 100 ∷ 101 ∷ 102 ∷ 103 ∷ 104 ∷ 105 ∷ 106
    ∷ 107 ∷ 108 ∷ 109 ∷ 110 ∷ 111 ∷ 112 ∷ 113 ∷ 114 ∷ 115 ∷ 116 ∷ 117 ∷ 118 ∷ 119 ∷ 120 ∷ 121 ∷ 122
    ∷ 48 ∷ 49 ∷ 50 ∷ 51 ∷ 52 ∷ 53 ∷ 54 ∷ 55 ∷ 56 ∷ 57 ∷ 43 ∷ 47 ∷ []

unfoldable pub letter : ℕ → ℕ
letter i = get_or alphabet i 0

unfoldable pub base64_encode : List ℕ → List ℕ
unfolding letter
base64_encode [] = []
base64_encode (x ∷ []) =
    let v = x * 2 ^ 16 in
    letter (bit_and (v / 2 ^ 18) 0x3F) ∷ letter (bit_and (v / 2 ^ 12) 0x3F) ∷ 61 ∷ 61 ∷ []
base64_encode (x ∷ y ∷ []) =
    let v = bit_or (x * 2 ^ 16) (y * 2 ^ 8) in
    letter (bit_and (v / 2 ^ 18) 0x3F)
    ∷ letter (bit_and (v / 2 ^ 12) 0x3F)
    ∷ letter (bit_and (v / 2 ^ 6) 0x3F)
    ∷ 61
    ∷ []
base64_encode (x ∷ y ∷ z ∷ rest) =
    let v = bit_or (bit_or (x * 2 ^ 16) (y * 2 ^ 8)) z in
    letter (bit_and (v / 2 ^ 18) 0x3F)
    ∷ letter (bit_and (v / 2 ^ 12) 0x3F)
    ∷ letter (bit_and (v / 2 ^ 6) 0x3F)
    ∷ letter (bit_and v 0x3F)
    ∷ base64_encode rest

-- `value`, with `none` for -1.
unfoldable pub value : ℕ → Option ℕ
value c =
    if leb 65 c && leb c 90
    then some (c - 65)
    else if leb 97 c && leb c 122
    then some (c - 97 + 26)
    else if leb 48 c && leb c 57
    then some (c - 48 + 52)
    else if c == 43
    then some 62
    else if c == 47
    then some 63
    else none

-- A character that may be padding: `some none` for -2.
unfoldable pub value_or_pad : Bool → ℕ → Option (Option ℕ)
unfolding value
value_or_pad last c =
    if (c == 61) && last then some none else elim (value c) [ none ↦ none | some n ↦ some (some n) ]

-- The bytes of one group of four characters; padding before a character is refused.
unfoldable pub group_bytes : ℕ → ℕ → Option ℕ → Option ℕ → Option (List ℕ)
group_bytes a b none (some d) = none
group_bytes a b none none =
    let v = bit_or (bit_or (bit_or (a * 2 ^ 18) (b * 2 ^ 12)) 0) 0 in
    some (bit_and (v / 2 ^ 16) 0xFF ∷ [])
group_bytes a b (some c) none =
    let v = bit_or (bit_or (bit_or (a * 2 ^ 18) (b * 2 ^ 12)) (c * 2 ^ 6)) 0 in
    some (bit_and (v / 2 ^ 16) 0xFF ∷ bit_and (v / 2 ^ 8) 0xFF ∷ [])
group_bytes a b (some c) (some d) =
    let v = bit_or (bit_or (bit_or (a * 2 ^ 18) (b * 2 ^ 12)) (c * 2 ^ 6)) d in
    some (bit_and (v / 2 ^ 16) 0xFF ∷ bit_and (v / 2 ^ 8) 0xFF ∷ bit_and v 0xFF ∷ [])

unfoldable pub decode_group : Bool → ℕ → ℕ → ℕ → ℕ → Option (List ℕ)
unfolding value_or_pad group_bytes
decode_group last c0 c1 c2 c3 = do
  a ← value c0
  b ← value c1
  c ← value_or_pad last c2
  d ← value_or_pad last c3
  group_bytes a b c d

-- The loop, on a length that is a multiple of four.
unfoldable pub decode_groups : List ℕ → Option (List ℕ)
unfolding decode_group
decode_groups [] = some []
decode_groups (c0 ∷ c1 ∷ c2 ∷ c3 ∷ rest) = do
  front ← decode_group (length rest == 0) c0 c1 c2 c3
  more ← decode_groups rest
  some (front ++ more)
decode_groups _ = none

unfoldable pub base64_decode : List ℕ → Option (List ℕ)
unfolding decode_groups
base64_decode in_bytes = if length in_bytes % 4 == 0 then decode_groups in_bytes else none

unfoldable pub is_valid_client_key : List ℕ → Bool
unfolding base64_decode
is_valid_client_key client_key =
    if length client_key == 24
    then elim (base64_decode client_key) [ none ↦ false | some decoded ↦ length decoded == 16 ]
    else false

-- The lead byte: how many bytes follow it, and its bits of the code point.
unfoldable pub lead : ℕ → Option (ℕ × ℕ)
lead c =
    if bit_and c 0xE0 == 0xC0
    then if ltb c 0xC2 then none else some (1, bit_and c 0x1F)
    else if bit_and c 0xF0 == 0xE0
    then some (2, bit_and c 0x0F)
    else if bit_and c 0xF8 == 0xF0
    then if ltb 0xF4 c then none else some (3, bit_and c 0x07)
    else none

-- The loop over the `n` bytes that follow: the code point and the rest, or `none` where one of them is no
-- continuation byte or is missing.
unfoldable pub follow : ℕ → ℕ → List ℕ → Option (ℕ × List ℕ)
follow zero cp bs = some (cp, bs)
follow (suc n) cp [] = none
follow (suc n) cp (b ∷ bs) =
    let more = follow n (bit_or (cp * 2 ^ 6 % 2 ^ 32) (bit_and b 0x3F)) bs in
    if bit_and b 0xC0 == 0x80 then more else none

abbrev pub overlong : ℕ → ℕ → Bool
overlong n cp = ((n == 2) && ltb cp 0x800) || ((n == 3) && ltb cp 0x10000)

abbrev pub no_scalar : ℕ → Bool
no_scalar cp = ltb 0x10FFFF cp || (leb 0xD800 cp && leb cp 0xDFFF)

-- One round of the loop: the bytes after the character, or `none` for false.
unfoldable pub next_char : List ℕ → Option (List ℕ)
unfolding lead follow
next_char [] = none
next_char (c ∷ bs) = if ltb c 0x80 then some bs else do
  (n, bits) ← lead c
  (cp, rest) ← follow n bits bs
  if overlong n cp || no_scalar cp then none else some rest

-- Each round takes a byte at least, and the fuel is the number of bytes.
unfoldable pub utf8_loop : ℕ → List ℕ → Bool
unfolding next_char
utf8_loop fuel [] = true
utf8_loop zero (c ∷ bs) = false
utf8_loop (suc fuel) (c ∷ bs) = elim (next_char (c ∷ bs)) [
  | none ↦ false
  | some rest ↦ utf8_loop fuel rest
]

unfoldable pub is_valid_utf8 : List ℕ → Bool
unfolding utf8_loop
is_valid_utf8 s = utf8_loop (length s) s
