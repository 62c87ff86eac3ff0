-- ===== src/Protos/Http2/Hpack/Decoder.antt =====
-- include/wavex/protos/http/http2codec.hpp, class hpack::decoder.
use wave_x.Prelude.{
  ℕ, zero, suc, ◌+◌, ◌-◌, ◌*◌, Bool, true, false, Option, none, some, List, [], ◌∷◌, ◌++◌, bit_and,
  ltb, leb, ◌==◌, ◌&&◌, if◌then◌else◌, length, drop, not, get_or,
}
use wave_x.Protos.Http1.{Header, is_empty}
use wave_x.Protos.Http2.Hpack.Outcome.{Outcome, ok, refused, undefined, ◌>=>◌}
use wave_x.Protos.Http2.Hpack.StaticTable.{entry_of, static_table}
use wave_x.Protos.Http2.Hpack.Integer.{decode_integer, decode_string, first_or_zero}
use wave_x.Protos.Http2.Hpack.DynamicTable.{Entry, DynamicTable, insert, set_max_capacity, get}

abbrev pub field : List ℕ → List ℕ → Header
field n v = record { name = n; value = v }

abbrev pub dynamic_field : Option Entry → Header
dynamic_field none = field [] []
dynamic_field (some e) = field e.name e.value

-- lookup_index: a field with an empty name where there is none.
unfoldable pub lookup_index : ℕ → DynamicTable → Header
lookup_index idx dt =
    let entry = get_or static_table idx (entry_of [] []) in
    if idx == 0
    then field [] []
    else if ltb idx (length static_table)
    then field entry.name entry.value
    else dynamic_field (get (idx - length static_table) dt)

-- The variables of decode_header_block.
pub record Block : Type 0 where
  pub cursor : ℕ
  pub list_size : ℕ
  pub counted : ℕ
  pub out_headers : List Header
  pub dt : DynamicTable

abbrev pub emit : Header → ℕ → Block → Block
emit h cursor s = record s { cursor = cursor; out_headers = s.out_headers ++ (h ∷ []) }

-- Case 1
abbrev pub indexed_case : List ℕ → Block → Outcome Block
indexed_case block s = decode_integer block s.cursor 7 >=> λ (index, cursor).
    let h = lookup_index index s.dt in if is_empty h.name then refused else ok (emit h cursor s)

-- The name of a literal: a string, or the name of an index.
abbrev pub literal_name_of : List ℕ → Block → ℕ × ℕ → Outcome (List ℕ × ℕ)
literal_name_of block s (name_idx, cursor) =
    let n = (lookup_index name_idx s.dt).name in
    if name_idx == 0
    then decode_string block cursor
    else if is_empty n
    then refused
    else ok (n, cursor)

-- The literal of the cases 2 and 4: the field and the cursor behind it.
abbrev pub literal_of : List ℕ → ℕ → Block → Outcome (Header × ℕ)
literal_of block prefix_bits s =
    decode_integer block s.cursor prefix_bits >=> literal_name_of block s >=> λ (name, cursor).
    decode_string block cursor >=> λ (val, behind). ok (field name val, behind)

-- Case 2
abbrev pub indexing_case : List ℕ → Block → Outcome Block
indexing_case block s = literal_of block 6 s >=> λ (h, cursor).
    ok (emit h cursor (record s { dt = insert h.name h.value s.dt }))

-- Case 3
abbrev pub resize_case : List ℕ → Block → Outcome Block
resize_case block s = decode_integer block s.cursor 5 >=> λ (new_max_size, cursor).
    ok (record s { cursor = cursor; dt = set_max_capacity new_max_size s.dt })

-- Case 4
abbrev pub plain_case : List ℕ → Block → Outcome Block
plain_case block s = literal_of block 4 s >=> λ (h, cursor). ok (emit h cursor s)

-- One round of the loop, at the byte `b`.
unfoldable pub decode_round : List ℕ → ℕ → Block → Outcome Block
decode_round block b s =
    if not (bit_and b 0x80 == 0)
    then indexed_case block s
    else if not (bit_and b 0x40 == 0)
    then indexing_case block s
    else if not (bit_and b 0x20 == 0)
    then resize_case block s
    else plain_case block s

-- The size of the fields as RFC 7541, 4.1 counts them.
unfoldable pub list_size_of : List Header → ℕ
list_size_of [] = 0
list_size_of (h ∷ hs) = length h.name + length h.value + 32 + list_size_of hs

-- The counting of within_limit.
abbrev pub count_new : Block → Block
count_new s = record s {
  list_size = s.list_size + list_size_of (drop s.counted s.out_headers);
  counted = length s.out_headers;
}

-- The test of within_limit, after the counting.
abbrev pub over_limit : ℕ → Block → Bool
over_limit max_list_size s = not (max_list_size == 0) && ltb max_list_size s.list_size

-- What decode_header_block gives: `true` with the headers and the table, `false` with
-- `limit_exceeded()`, undefined behaviour, or no result within the fuel.
pub data BlockResult : Type 0 where
  decoded : List Header → DynamicTable → BlockResult
  failed : Bool → BlockResult
  undefined_block : BlockResult
  out_of_fuel : BlockResult

abbrev pub next_round : (Block → BlockResult) → Outcome Block → BlockResult
next_round more (ok s) = more s
next_round more refused = failed false
next_round more undefined = undefined_block

-- The loop.
unfoldable pub decode_loop : ℕ → List ℕ → ℕ → Block → BlockResult
decode_loop zero block max_list_size s = out_of_fuel
decode_loop (suc n) block max_list_size s =
    let s1 : Block = count_new s in
    let more =
      next_round (decode_loop n block max_list_size)
        (decode_round block (first_or_zero (drop s.cursor block)) s1) in
    if over_limit max_list_size s1
    then failed true
    else if leb (length block) s.cursor
    then decoded s1.out_headers s1.dt
    else more

abbrev pub start_block : List Header → DynamicTable → Block
start_block out_headers dt = record {
  cursor = 0;
  list_size = 0;
  counted = length out_headers;
  out_headers = out_headers;
  dt = dt;
}

-- The fuel for a list of at most `max_list_size`: of every 32 octets of the list comes one field at most, and
-- between two fields the cursor only grows.
abbrev pub block_fuel : ℕ → List ℕ → ℕ
block_fuel max_list_size block = (max_list_size + 2) * (length block + 1) + 1

unfoldable pub decode_header_block : ℕ → List ℕ → List Header → DynamicTable → BlockResult
decode_header_block max_list_size block out_headers dt =
    decode_loop (block_fuel max_list_size block) block max_list_size (start_block out_headers dt)
