-- ===== src/Protos/WebSocket/Text/Runs.antt =====
-- The helpers at work, and the theorems at concrete texts.
use wave_x.Prelude.{ℕ, ◌≤◌, ◌≡◌, refl, true, false, some, List, [], ◌∷◌, length, arith}
use wave_x.Protos.WebSocket.Text.{
  utf8_prefix, close_payload, parse_close_payload, is_valid_close_code, base64_encode,
  base64_decode, decode_groups, letter, is_valid_utf8, header_contains_token, select_subprotocol,
  any_token, equals, trim, iequals, split_comma, trim_front, trim_back, ascii_lower, any_token_from,
  decode_group, group_bytes, value, value_or_pad, utf8_loop, next_char, lead, follow,
}
use wave_x.Protos.WebSocket.Text.Close.{parse_close_payload-close_payload}

abbrev bye : List ℕ
bye = 98 ∷ 121 ∷ 101 ∷ []

parse_close_payload-close_payload_example :
    (length (close_payload 1000 bye) ≤ 125)
    × (parse_close_payload (close_payload 1000 bye) ≡ some (1000, utf8_prefix bye 123))
unfolding is_valid_close_code
parse_close_payload-close_payload_example =
    parse_close_payload-close_payload 1000 bye (omega arith) refl

-- "bye" in base64, and back.
base64_run : base64_encode bye ≡ 89 ∷ 110 ∷ 108 ∷ 108 ∷ []
unfolding base64_encode letter
base64_run = refl

base64_back : base64_decode (89 ∷ 110 ∷ 108 ∷ 108 ∷ []) ≡ some bye
unfolding base64_decode decode_groups decode_group group_bytes value value_or_pad
base64_back = refl

base64_padded : base64_decode (89 ∷ 119 ∷ 61 ∷ 61 ∷ []) ≡ some (99 ∷ [])
unfolding base64_decode decode_groups decode_group group_bytes value value_or_pad
base64_padded = refl

-- A euro sign is text, and half of one is not.
euro_is_text : is_valid_utf8 (0xE2 ∷ 0x82 ∷ 0xAC ∷ 33 ∷ []) ≡ true
unfolding is_valid_utf8 utf8_loop next_char lead follow
euro_is_text = refl

half_euro_is_no_text : is_valid_utf8 (0xE2 ∷ 0x82 ∷ []) ≡ false
unfolding is_valid_utf8 utf8_loop next_char lead follow
half_euro_is_no_text = refl

-- The list "a, B" has the token "b" in a header, and the subprotocol "B" but not "b".
has_token : header_contains_token (97 ∷ 44 ∷ 32 ∷ 66 ∷ []) (98 ∷ []) ≡ true
unfolding header_contains_token any_token any_token_from trim trim_front trim_back split_comma
    iequals ascii_lower
has_token = refl

selected : select_subprotocol (97 ∷ 44 ∷ 32 ∷ 66 ∷ []) ((98 ∷ []) ∷ (66 ∷ []) ∷ []) ≡ 66 ∷ []
unfolding select_subprotocol any_token any_token_from trim trim_front trim_back split_comma equals
selected = refl
