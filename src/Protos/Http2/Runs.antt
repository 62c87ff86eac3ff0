-- ===== src/Protos/Http2/Runs.antt =====
-- Runs of HTTP/2 on concrete inputs, and the witnesses of its theorems.
use wave_x.Prelude.{
  ℕ, ◌+◌, bit_and, ◌≡◌, ◌≢◌, refl, ◌≤◌, ◌++◌, chars, true, List, [], ◌∷◌, length, arith, inl,
}
use wave_x.Protos.Http1.{Method, is_equal, to_string, to_chars, from_string}
use wave_x.Protos.Http2.Frame.{
  pack_frame_header, parse_frame, framed, success, incomplete, unpack_frame_header, settings_frame,
  ping_frame, goaway_frame, window_update_frame, rst_stream_frame,
}
use wave_x.Protos.Http2.Frame.RoundTrip.{parse_frame-pack_frame_header}
use wave_x.Protos.Http2.Message.{Request, Response, new_request, new_response}
use wave_x.Prelude.Digits.{push_number}
use wave_x.Protos.Http2.Encoder.{
  frame_header, settings_payload, serialize_settings, serialize_ping, serialize_window_update,
  serialize_goaway, serialize_rst_stream, serialize_request, serialize,
}
use wave_x.Protos.Http2.Parser.{
  parse_request, parse_response, parsed, parse_loop, store_headers, store_header, finish_request,
}
use wave_x.Protos.Http2.Parser.Commit.{IsCommit, parse_request-IsCommit}
use wave_x.Protos.Http2.Parser.RoundTrip.{
  received, parse-serialize_request, received_response, parse-serialize_response,
}
use wave_x.Protos.Http2.Encoder.Control.{control_frames_whole}
use wave_x.Protos.Http2.Hpack.StaticTable.{static_table, find_from, find_static}
use wave_x.Protos.Http2.Hpack.Integer.{
  encode_integer, encode_more, decode_integer, decode_more, encode_string,
}
use wave_x.Protos.Http2.Hpack.IntegerBack.{decode-encode_integer}
use wave_x.Protos.Http2.Hpack.Outcome.{ok}
use wave_x.Protos.Http2.Hpack.Encoder.{
  encode_fields, encode_request_headers, encode_response_headers,
}
use wave_x.Protos.Http2.Hpack.DynamicTable.{DynamicTable, new_table, insert}
use wave_x.Protos.Http2.Hpack.Capacity.{total, fit, IsSized, entries-insert, insert-IsSized}
use wave_x.Protos.Http2.Hpack.Decoder.{
  field, decode_round, lookup_index, list_size_of, decode_loop, decode_header_block, decoded,
  out_of_fuel,
}
use wave_x.Protos.Http2.Hpack.Limit.{IsSound, decode_header_block-IsSound}
use wave_x.Protos.Http2.Hpack.Stops.{
  Ends, decode_header_block-Ends, looping_block, decode_loop_endless,
}
use wave_x.Protos.Http2.Hpack.Found.{Says, find_static-Says}
use wave_x.Protos.Http2.Hpack.RoundTrip.{HasRoom}
use wave_x.Protos.Http2.Hpack.Sent.{sent_fields, sent_request, decode-encode_request_headers}

abbrev table : DynamicTable
table = new_table 4096

table-IsSized : IsSized table
unfolding total
table-IsSized = record { sum = refl; within = omega arith }

abbrev example_request : Request
example_request = record {
  method_type = Method.post;
  target = chars "/a";
  scheme = [];
  authority = chars "x.org";
  protocol = [];
  headers = field (chars "Accept") (chars "*/*") ∷ field (chars "x-k") (chars "v") ∷ [];
  body = chars "hello";
  stream_id = 3;
}

abbrev example_response : Response
example_response = record {
  status_code = 418;
  status_text = [];
  headers = field (chars "Server") (chars "w") ∷ [];
  body = chars "teapot";
  stream_id = 5;
}

abbrev example_block : List ℕ
example_block =
    encode_request_headers Method.post (chars "/a") [] (chars "x.org")
      (field (chars "Accept") (chars "*/*") ∷ field (chars "x-k") (chars "v") ∷ [])

request_block_size : length example_block ≡ 26
unfolding encode_request_headers encode_fields static_table find_from find_static is_equal
    encode_integer encode_string to_string encode_more
request_block_size = refl

response_block_size :
    length (encode_response_headers 418 (field (chars "Server") (chars "w") ∷ [])) ≡ 9
unfolding encode_response_headers to_chars encode_fields static_table find_from find_static is_equal
    encode_integer encode_string encode_more
response_block_size = refl

request_list_size :
    list_size_of (
      sent_request Method.post
        (chars "/a")
        []
        (chars "x.org")
        (field (chars "Accept") (chars "*/*") ∷ field (chars "x-k") (chars "v") ∷ []))
    ≤ 65536
unfolding list_size_of sent_request sent_fields to_string
request_list_size = omega arith

response_list_size :
    list_size_of (
      field (chars ":status") (to_chars 418)
      ∷ sent_fields (field (chars "Server") (chars "w") ∷ []))
    ≤ 65536
unfolding list_size_of sent_fields to_chars
response_list_size = omega arith

parse-serialize_request_example :
    parse_request (serialize_request example_request ++ (0 ∷ 0 ∷ [])) new_request table
    ≡ parsed success (received example_request) (length (serialize_request example_request)) table
parse-serialize_request_example =
    parse-serialize_request example_request new_request table (0 ∷ 0 ∷ [])
      (omega (arith, request_block_size)) (omega arith) request_list_size

parse-serialize_response_example :
    parse_response (serialize example_response ++ []) new_response table
    ≡ parsed success
        (received_response example_response)
        (length (serialize example_response))
        table
parse-serialize_response_example =
    parse-serialize_response example_response new_response table []
      (omega (arith, response_block_size)) (omega arith) (omega arith) response_list_size

parse_request-IsCommit_example :
    IsCommit 4 table (parse_request (0 ∷ 0 ∷ 9 ∷ 9 ∷ []) new_request table)
parse_request-IsCommit_example =
    parse_request-IsCommit (0 ∷ 0 ∷ 9 ∷ 9 ∷ []) new_request table table-IsSized

decode_header_block-IsSound_example :
    IsSound [] 100 (decode_header_block 100 (0x82 ∷ 0x86 ∷ 0x84 ∷ []) [] table)
decode_header_block-IsSound_example =
    decode_header_block-IsSound 100 (0x82 ∷ 0x86 ∷ 0x84 ∷ []) [] table table-IsSized

abbrev hundred : ℕ
hundred = 100

not_none : hundred ≢ 0
not_none e = absurd (omega (arith, e))

decode_header_block-Ends_example : Ends (decode_header_block 100 looping_block [] table)
decode_header_block-Ends_example = decode_header_block-Ends 100 looping_block [] table not_none

decode_loop_endless_example :
    decode_loop 5 looping_block 0
      (record { cursor = 0; list_size = 0; counted = 0; out_headers = []; dt = table })
    ≡ out_of_fuel
decode_loop_endless_example = decode_loop_endless 5 0 0 [] table

decode-encode_request_headers_example :
    decode_header_block 0 example_block [] table
    ≡ decoded
        ([]
          ++ sent_request Method.post
              (chars "/a")
              []
              (chars "x.org")
              (field (chars "Accept") (chars "*/*") ∷ field (chars "x-k") (chars "v") ∷ []))
        table
unfolding HasRoom
decode-encode_request_headers_example =
    decode-encode_request_headers Method.post (chars "/a") [] (chars "x.org") 0
      (field (chars "Accept") (chars "*/*") ∷ field (chars "x-k") (chars "v") ∷ []) [] table
      (omega (arith, request_block_size)) (inl refl)

entries-insert_example :
    (insert (chars "a") (chars "b") table).entries
    ≡ fit 4096 (record { name = chars "a"; value = chars "b" } ∷ [])
entries-insert_example = entries-insert (chars "a") (chars "b") table table-IsSized

insert-IsSized_example : IsSized (insert (chars "a") (chars "b") table)
insert-IsSized_example = insert-IsSized (chars "a") (chars "b") table table-IsSized

decode-encode_integer_example :
    decode_integer (7 ∷ encode_integer 1337 5 0 ++ (9 ∷ [])) 1 5
    ≡ ok (1337, 1 + length (encode_integer 1337 5 0))
decode-encode_integer_example =
    decode-encode_integer (7 ∷ encode_integer 1337 5 0 ++ (9 ∷ [])) (9 ∷ []) 1 1337 5 0
      (omega arith) (omega arith) refl (omega arith) refl

parse_frame-pack_frame_header_example :
    parse_frame (
      pack_frame_header (record { payload_length = 2; stream_id = 7; kind = 0; flags = 1 })
      ++ ((8 ∷ 9 ∷ []) ++ (1 ∷ [])))
    ≡ framed (record { payload_length = 2; stream_id = 7; kind = 0; flags = 1 }) (8 ∷ 9 ∷ []) 11
parse_frame-pack_frame_header_example =
    parse_frame-pack_frame_header
      (record { payload_length = 2; stream_id = 7; kind = 0; flags = 1 }) (8 ∷ 9 ∷ []) (1 ∷ [])
      (record { length_bits = omega arith; stream_bits = omega arith }) refl

find_static-Says_example :
    Says (chars "accept") (chars "x") (find_static (chars "accept") (chars "x"))
find_static-Says_example = find_static-Says (chars "accept") (chars "x") refl

control_frames_whole_example :
    (parse_frame (serialize_settings ((3, 100) ∷ []) ++ [])
      ≡ framed (frame_header 6 settings_frame 0 0) (settings_payload ((3, 100) ∷ [])) 15)
    × (parse_frame (serialize_ping 77 true ++ [])
        ≡ framed (frame_header 8 ping_frame 1 0) (push_number 8 77) 17)
    × (parse_frame (serialize_window_update 3 1000 ++ [])
        ≡ framed
            (frame_header 4 window_update_frame 0 3)
            (push_number 4 (bit_and 1000 0x7FFFFFFF))
            13)
    × (parse_frame (serialize_goaway 9 2 (chars "bye") ++ [])
        ≡ framed
            (frame_header 11 goaway_frame 0 0)
            (push_number 4 (bit_and 9 0x7FFFFFFF) ++ (push_number 4 2 ++ chars "bye"))
            20)
    × (parse_frame (serialize_rst_stream 3 2 ++ [])
        ≡ framed (frame_header 4 rst_stream_frame 0 3) (push_number 4 2) 13)
control_frames_whole_example =
    control_frames_whole ((3, 100) ∷ []) 77 3 1000 9 2 true (chars "bye") [] (omega arith)
      (omega arith) (omega arith)

-- RFC 7541, C.1.2: the number 1337 with a prefix of five bits.
rfc_1337 : encode_integer 1337 5 0 ≡ 31 ∷ 154 ∷ 10 ∷ []
unfolding encode_integer encode_more
rfc_1337 = refl

-- A HEADERS frame without END_STREAM at the end of the buffer is taken as a whole request, with no body.
no_end_of_stream :
    parse_request
      (0 ∷ 0 ∷ 3 ∷ 1 ∷ 4 ∷ 0 ∷ 0 ∷ 0 ∷ 1 ∷ 0x83 ∷ 0x86 ∷ 0x84 ∷ [])
      new_request
      (new_table 64)
    ≡ parsed success
        (record {
          method_type = Method.post;
          target = chars "/";
          scheme = chars "http";
          authority = [];
          protocol = [];
          headers = [];
          body = [];
          stream_id = 1;
        })
        12
        (new_table 64)
unfolding parse_request parse_loop parse_frame unpack_frame_header decode_header_block decode_loop
    decode_round decode_integer decode_more lookup_index static_table list_size_of store_headers
    store_header finish_request from_string
no_end_of_stream = refl

-- A frame that is not there as a whole.
half_a_frame :
    parse_request (0 ∷ 0 ∷ 3 ∷ 1 ∷ 4 ∷ []) new_request (new_table 64)
    ≡ parsed incomplete new_request 0 (new_table 64)
unfolding parse_request parse_loop parse_frame
half_a_frame = refl
