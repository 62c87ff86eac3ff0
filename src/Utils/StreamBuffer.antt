-- ===== src/Utils/StreamBuffer.antt =====
-- include/wavex/Utils/StreamBuffer.hpp: the buffer between a transport and its reader, with an offset
-- up to which it has been read. A `std::string_view` is the list of its bytes, and an unbounded
-- `max_bytes` is any number that is large enough. `capacity` and `reserve` concern only the allocation.
pub mod Contents
mod Runs
use wave_x.Prelude.{
  ℕ, ◌+◌, ◌-◌, ◌/◌, Bool, ◌&&◌, ◌||◌, List, [], ◌∷◌, ◌++◌, min, ltb, leb, ◌==◌, if◌then◌else◌,
  length, take, drop,
}

pub record StreamBuffer : Type 0 where
  pub buffer : List ℕ
  pub read_offset : ℕ

abbrev pub new : StreamBuffer
new = record { buffer = []; read_offset = 0 }

unfoldable pub size : StreamBuffer → ℕ
size b = length b.buffer - b.read_offset

unfoldable pub empty : StreamBuffer → Bool
empty b = leb (length b.buffer) b.read_offset

-- `buffer_.clear(); read_offset_ = 0;` where all is read, or `buffer_.erase(0, read_offset_)` where much
-- is; the same lines stand in `append` and in `consume`.
compact : StreamBuffer → StreamBuffer
compact b =
    if leb (length b.buffer) b.read_offset
    then new
    else if leb 16384 b.read_offset && leb (length b.buffer / 2) b.read_offset
    then record { buffer = drop b.read_offset b.buffer; read_offset = 0 }
    else b

unfoldable pub append : StreamBuffer → List ℕ → StreamBuffer
unfolding compact
append b [] = b
append b (c ∷ cs) = let b' = compact b in record b' { buffer = b'.buffer ++ (c ∷ cs) }

unfoldable pub peek : StreamBuffer → ℕ → List ℕ
unfolding empty size
peek b max_bytes =
    if empty b then [] else take (min max_bytes (size b)) (drop b.read_offset b.buffer)

unfoldable pub prepend : StreamBuffer → List ℕ → StreamBuffer
prepend b [] = b
prepend b (c ∷ cs) =
    let chunk = c ∷ cs in
    if leb (length chunk) b.read_offset && leb b.read_offset (length b.buffer)
    then record {
      buffer =
          take (b.read_offset - length chunk) b.buffer ++ (chunk ++ drop b.read_offset b.buffer);
      read_offset = b.read_offset - length chunk;
    }
    else record {
      buffer = chunk ++ drop (min b.read_offset (length b.buffer)) b.buffer;
      read_offset = 0;
    }

unfoldable pub consume : StreamBuffer → ℕ → StreamBuffer
unfolding size compact
consume b bytes =
    if bytes == 0
    then b
    else compact (record b { read_offset = b.read_offset + min bytes (size b) })

-- The bytes copied to `dest`, and the buffer afterwards.
unfoldable pub read : StreamBuffer → ℕ → List ℕ × StreamBuffer
unfolding empty size
read b max_bytes =
    if max_bytes == 0 || empty b
    then ([], b)
    else let to_copy = min max_bytes (size b) in
      let read_offset = b.read_offset + to_copy in
      (
        take to_copy (drop b.read_offset b.buffer),
        if leb (length b.buffer) read_offset then new else record b { read_offset = read_offset },
      )

abbrev pub clear : StreamBuffer → StreamBuffer
clear b = new
