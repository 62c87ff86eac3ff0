-- ===== src/Protos/Http2/Hpack/Rounds.antt =====
-- What one round of the decoder of header blocks does.
use wave_x.Prelude.{
  ℕ, zero, suc, ◌+◌, ◌≤◌, ◌<◌, ◌≡◌, ◌⊎◌, refl, ap, ◌∙◌, false, not, List, [], ◌∷◌, ◌++◌, ltb, ◌==◌,
  length, drop, arith, inl, inr, bit_and, drop-length_append, drop_all,
}
use wave_x.Protos.Http1.{Header, is_empty}
use wave_x.Protos.Http2.Hpack.Outcome.{
  Outcome, OkAll-bind, OkAll-if, OkAll-then, of_ok, of_refused, of_undefined, OkAll-map, OkAll,
}
use wave_x.Protos.Http2.Hpack.Integer.{decode_integer, decode_more, decode_first, max_prefix}
use wave_x.Protos.Http2.Hpack.DynamicTable.{DynamicTable, insert, set_max_capacity}
use wave_x.Protos.Http2.Hpack.Capacity.{IsSized, insert-IsSized, set_max_capacity-IsSized}
use wave_x.Protos.Http2.Hpack.Decoder.{
  Block, emit, lookup_index, indexed_case, indexing_case, resize_case, plain_case, literal_of,
  decode_round, list_size_of, count_new, over_limit, BlockResult, failed, undefined_block,
  next_round,
}

decode_more_advances :
    (bs : List ℕ) (cursor m result : ℕ)
    → OkAll (λ (r : ℕ × ℕ). cursor < r.1) (decode_more bs cursor m result)
unfolding decode_more
decode_more_advances [] cursor m result = of_refused
decode_more_advances (b ∷ bs) cursor m result =
    OkAll-if (bit_and b 0x80 == 0) (of_ok (omega arith)) (
      OkAll-if (ltb 63 (m + 7)) of_refused
        (further (decode_more_advances bs (suc cursor) (m + 7) _)))
  where
    further :
        {o : Outcome (ℕ × ℕ)}
        → OkAll (λ (r : ℕ × ℕ). suc cursor < r.1) o
        → OkAll (λ (r : ℕ × ℕ). cursor < r.1) o
    further all = OkAll-map all (λ r h. omega arith)

decode_integer_advances :
    (block : List ℕ) (cursor p : ℕ)
    → OkAll (λ (r : ℕ × ℕ). cursor < r.1) (decode_integer block cursor p)
unfolding decode_integer
decode_integer_advances block cursor p = go (drop cursor block)
  where
    go : (bs : List ℕ) → OkAll (λ (r : ℕ × ℕ). cursor < r.1) (decode_first p cursor bs)
    go [] = of_refused
    go (b ∷ bs) =
        OkAll-if (ltb (bit_and b (max_prefix p)) (max_prefix p)) (of_ok (omega arith))
          (OkAll-map (decode_more_advances bs (suc cursor) 0 _) (λ r h. omega arith))

-- What a round that goes on does: it emits a field, whose cursor may be anywhere, or it resizes the table and
-- moves on.
pub data Step (s : Block) : Block → Type 0 where
  emits :
      (h : Header) (cursor : ℕ) (t : DynamicTable)
      → (IsSized s.dt → IsSized t)
      → Step s (emit h cursor (record s { dt = t }))
  resizes :
      (cursor : ℕ) (t : DynamicTable)
      → s.cursor < cursor
      → (IsSized s.dt → IsSized t)
      → Step s (record s { cursor = cursor; dt = t })

emits_same : (h : Header) (cursor : ℕ) (s : Block) → Step s (emit h cursor s)
emits_same h cursor s = emits h cursor s.dt (λ k. k)

indexed_case-Step : (block : List ℕ) (s : Block) → OkAll (Step s) (indexed_case block s)
indexed_case-Step block s = OkAll-then (decode_integer block s.cursor 7) (λ (index, cursor).
    OkAll-if (is_empty (lookup_index index s.dt).name) of_refused
      (of_ok (emits_same (lookup_index index s.dt) cursor s)))

indexing_case-Step : (block : List ℕ) (s : Block) → OkAll (Step s) (indexing_case block s)
indexing_case-Step block s = OkAll-then (literal_of block 6 s) (λ (h, cursor).
    of_ok (emits h cursor (insert h.name h.value s.dt) (insert-IsSized h.name h.value s.dt)))

resize_case-Step : (block : List ℕ) (s : Block) → OkAll (Step s) (resize_case block s)
resize_case-Step block s =
    OkAll-bind (decode_integer_advances block s.cursor 5) (λ (size, cursor) p.
      of_ok (resizes cursor (set_max_capacity size s.dt) p (set_max_capacity-IsSized size s.dt)))

plain_case-Step : (block : List ℕ) (s : Block) → OkAll (Step s) (plain_case block s)
plain_case-Step block s =
    OkAll-then (literal_of block 4 s) (λ (h, cursor). of_ok (emits_same h cursor s))

pub decode_round-Step :
    (block : List ℕ) (b : ℕ) (s : Block) → OkAll (Step s) (decode_round block b s)
unfolding decode_round
decode_round-Step block b s = OkAll-if (not (bit_and b 0x80 == 0)) (indexed_case-Step block s) (
    OkAll-if (not (bit_and b 0x40 == 0)) (indexing_case-Step block s)
      (OkAll-if (not (bit_and b 0x20 == 0)) (resize_case-Step block s) (plain_case-Step block s)))

-- The size of the fields that the block has given up to now.
unfoldable pub listed : Block → ℕ
listed s = s.list_size + list_size_of (drop s.counted s.out_headers)

pub list_size_of-append :
    (hs ks : List Header) → list_size_of (hs ++ ks) ≡ list_size_of hs + list_size_of ks
unfolding list_size_of
list_size_of-append [] ks = omega arith
list_size_of-append (h ∷ hs) ks = omega (arith, list_size_of-append hs ks)

pub listed-count_new : (s : Block) → listed (count_new s) ≡ listed s
unfolding listed list_size_of
listed-count_new s =
    omega (arith, ap list_size_of (drop_all (length s.out_headers) s.out_headers (omega arith)))

-- What a step adds to the list.
pub emitted_size :
    (h : Header) (cursor : ℕ) (s : Block)
    → s.counted ≡ length s.out_headers
    → listed (emit h cursor s) ≡ s.list_size + (length h.name + length h.value + 32)
unfolding listed list_size_of
emitted_size h cursor s e = omega (
  arith,
  ap list_size_of (
      ap (λ (n : ℕ). drop n (s.out_headers ++ (h ∷ []))) e
      ∙ drop-length_append s.out_headers (h ∷ [])),
)

pub next_round-All :
    (Q : BlockResult → Type 0) {P : Block → Type 0} (more : Block → BlockResult) {o : Outcome Block}
    → OkAll P o
    → Q (failed false)
    → Q undefined_block
    → ((s : Block) → P s → Q (more s))
    → Q (next_round more o)
next_round-All Q more (of_ok p) f u h = h _ p
next_round-All Q more of_refused f u h = f
next_round-All Q more of_undefined f u h = u

pub within : (max : ℕ) (s : Block) → over_limit max s ≡ false → (max ≡ 0) ⊎ (s.list_size ≤ max)
within zero s h = inl refl
within (suc max) s h = inr (ground (arith, h))
