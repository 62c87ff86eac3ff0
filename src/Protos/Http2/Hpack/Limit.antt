-- ===== src/Protos/Http2/Hpack/Limit.antt =====
-- The decoded list stays within its limit, and the table within its capacity.
use wave_x.Prelude.{
  ℕ, zero, suc, ◌≤◌, ◌≡◌, ◌⊎◌, refl, sym, ap, ◌∙◌, Bool, true, false, List, [], ◌∷◌, ◌++◌, leb,
  if◌then◌else◌, length, drop, arith, inl, inr, append-nil, append_assoc, drop_all,
}
use wave_x.Protos.Http1.{Header}
use wave_x.Protos.Http2.Hpack.Integer.{first_or_zero}
use wave_x.Protos.Http2.Hpack.DynamicTable.{DynamicTable}
use wave_x.Protos.Http2.Hpack.Capacity.{IsSized}
use wave_x.Protos.Http2.Hpack.Decoder.{
  Block, decode_round, list_size_of, count_new, over_limit, BlockResult, decoded, failed,
  next_round, decode_loop, start_block, block_fuel, decode_header_block,
}
use wave_x.Protos.Http2.Hpack.Rounds.{
  Step, emits, resizes, decode_round-Step, listed, list_size_of-append, listed-count_new,
  emitted_size, next_round-All, within,
}

-- The list up to now: what was there, and what the block has given, whose size is counted.
record Reached (out0 : List Header) (s : Block) : Type 0 where
  added : List Header
  grown : s.out_headers ≡ out0 ++ added
  size : listed s ≡ list_size_of added
  sized : IsSized s.dt

Reached-count_new : (out0 : List Header) (s : Block) → Reached out0 s → Reached out0 (count_new s)
Reached-count_new out0 s r = record {
  added = r.added;
  grown = r.grown;
  size = listed-count_new s ∙ r.size;
  sized = r.sized;
}

Reached-Step :
    (out0 : List Header) (s t : Block)
    → s.counted ≡ length s.out_headers
    → Reached out0 s
    → Step s t
    → Reached out0 t
unfolding listed list_size_of
Reached-Step out0 s t e r (emits h cursor dt k) = record {
  added = r.added ++ (h ∷ []);
  grown = ap (λ (hs : List Header). hs ++ (h ∷ [])) r.grown ∙ append_assoc out0 r.added (h ∷ []);
  size = omega (
    arith,
    r.size,
    emitted_size h cursor s e,
    list_size_of-append r.added (h ∷ []),
    ap list_size_of (
        ap (λ (n : ℕ). drop n s.out_headers) e
        ∙ drop_all (length s.out_headers) s.out_headers (omega arith)),
  );
  sized = k r.sized;
}
Reached-Step out0 s t e r (resizes cursor dt p k) = record {
  added = r.added;
  grown = r.grown;
  size = r.size;
  sized = k r.sized;
}

-- A decoded list is the one that was there with fields of the block behind it, whose size is within the limit,
-- if there is one; and the table is within its capacity.
unfoldable pub IsSound : List Header → ℕ → BlockResult → Type 0
IsSound out0 max_list_size (decoded hs t) =
    ((added : List Header) × ((hs ≡ out0 ++ added)
        × ((max_list_size ≡ 0) ⊎ (list_size_of added ≤ max_list_size))))
    × IsSized t
IsSound out0 max_list_size r = Unit

decode_loop-IsSound :
    (n : ℕ) (block : List ℕ) (max : ℕ) (out0 : List Header) (s : Block)
    → Reached out0 s
    → IsSound out0 max (decode_loop n block max s)
unfolding decode_loop IsSound listed
decode_loop-IsSound zero block max out0 s r = tt
decode_loop-IsSound (suc n) block max out0 s r =
    go (over_limit max (count_new s)) refl (leb (length block) s.cursor) (λ t step.
      decode_loop-IsSound n block max out0 t
        (Reached-Step out0 (count_new s) t refl (Reached-count_new out0 s r) step))
  where
    go :
        (over : Bool)
        → over_limit max (count_new s) ≡ over
        → (done : Bool)
        → ((t : Block) → Step (count_new s) t → IsSound out0 max (decode_loop n block max t))
        → IsSound out0 max (
            if over
            then failed true
            else if done
            then decoded (count_new s).out_headers (count_new s).dt
            else next_round
                (decode_loop n block max)
                (decode_round block (first_or_zero (drop s.cursor block)) (count_new s)))
    go true e done more = tt
    go false e true more = (
      (
        r.added,
        (
          r.grown,
          elim (within max (count_new s) e) [
            | inl z ↦ inl z
            | inr b ↦ inr (omega (arith, r.size, b))
          ],
        ),
      ),
      r.sized,
    )
    go false e false more =
        next_round-All (IsSound out0 max) (decode_loop n block max)
          (decode_round-Step block (first_or_zero (drop s.cursor block)) (count_new s)) tt tt more

start-Reached :
    (out0 : List Header) (t : DynamicTable) → IsSized t → Reached out0 (start_block out0 t)
unfolding listed list_size_of
start-Reached out0 t k = record {
  added = [];
  grown = sym (append-nil out0);
  size = omega (arith, ap list_size_of (drop_all (length out0) out0 (omega arith)));
  sized = k;
}

-- Whatever the bytes of a block are, where it is decoded into a list, that is the list given before with the fields
-- of the block behind it, whose size, as RFC 7541 counts it, is at most the limit unless the limit is 0; and
-- from a table whose size is within its capacity comes one whose size is within its own.
pub decode_header_block-IsSound :
    (max_list_size : ℕ) (block : List ℕ) (out_headers : List Header) (dt : DynamicTable)
    → IsSized dt
    → IsSound out_headers max_list_size (decode_header_block max_list_size block out_headers dt)
unfolding decode_header_block
decode_header_block-IsSound max_list_size block out_headers dt k =
    decode_loop-IsSound (block_fuel max_list_size block) block max_list_size out_headers
      (start_block out_headers dt) (start-Reached out_headers dt k)
