-- ===== src/Utils/StreamBuffer/Runs.antt =====
-- The buffer at work, and the theorems at concrete buffers.
use wave_x.Prelude.{◌≡◌, refl, [], ◌∷◌, arith}
use wave_x.Utils.StreamBuffer.{StreamBuffer, append, prepend, read, consume}
use wave_x.Utils.StreamBuffer.Contents.{
  IsValid, contents, contents-append, contents-prepend, contents-read, contents-consume,
}

abbrev half_read : StreamBuffer
half_read = record { buffer = 1 ∷ 2 ∷ 3 ∷ 4 ∷ []; read_offset = 2 }

read_run : read half_read 1 ≡ (3 ∷ [], record half_read { read_offset = 3 })
unfolding read
read_run = refl

contents-append_example :
    (contents (append half_read (5 ∷ [])) ≡ 3 ∷ 4 ∷ 5 ∷ []) × IsValid (append half_read (5 ∷ []))
contents-append_example = contents-append half_read (5 ∷ []) (omega arith)

contents-prepend_example :
    (contents (prepend half_read (9 ∷ 9 ∷ 9 ∷ [])) ≡ 9 ∷ 9 ∷ 9 ∷ 3 ∷ 4 ∷ [])
    × IsValid (prepend half_read (9 ∷ 9 ∷ 9 ∷ []))
contents-prepend_example = contents-prepend half_read (9 ∷ 9 ∷ 9 ∷ []) (omega arith)

contents-consume_example : (contents (consume half_read 1) ≡ 4 ∷ []) × IsValid (consume half_read 1)
contents-consume_example = contents-consume half_read 1 (omega arith)

contents-read_example :
    ((read half_read 7).0 ≡ 3 ∷ 4 ∷ [])
    × (contents (read half_read 7).1 ≡ [])
    × IsValid (read half_read 7).1
contents-read_example = contents-read half_read 7 (omega arith)
