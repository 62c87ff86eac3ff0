-- ===== src/Utils/StreamBuffer/Contents.antt =====
-- The buffer as a queue of bytes: what has been written and not yet read.
use wave_x.Prelude.{
  ℕ, zero, suc, ◌+◌, ◌-◌, ◌≤◌, ◌<◌, ◌≡◌, refl, sym, ap, ◌∙◌, List, [], ◌∷◌, ◌++◌, min, length, take,
  drop, length-append, length-take, length-drop, append-nil, take_all, drop-append, drop_sum, ◌⊎◌,
  drop_all, arith, inl, inr,
}
use native.Mathlib.Decide.{dec_lt}
use wave_x.Utils.StreamBuffer.{StreamBuffer, size, compact, append, peek, prepend, consume, read}

-- The read offset does not pass the end.
abbrev pub IsValid : StreamBuffer → Type 0
IsValid b = b.read_offset ≤ length b.buffer

abbrev pub contents : StreamBuffer → List ℕ
contents b = drop b.read_offset b.buffer

drop-take_append {ℓ} :
    {A : Type ℓ} (n : ℕ) (xs ys : List A) → n ≤ length xs → drop n (take n xs ++ ys) ≡ ys
drop-take_append zero xs ys h = refl
drop-take_append (suc n) [] ys h = absurd (omega arith)
drop-take_append (suc n) (x ∷ xs) ys h = drop-take_append n xs ys (omega arith)

-- The bytes from an offset on, as many as a read wants: up to the end, or all of those it wants.
read_cases :
    (xs : List ℕ) (o n : ℕ)
    → o ≤ length xs
    → ((min n (length xs - o) ≡ n) × (drop n (drop o xs) ≡ drop (o + n) xs))
      ⊎ ((min n (length xs - o) ≡ length xs - o)
          × (take (length xs - o) (drop o xs) ≡ take n (drop o xs))
          × (drop n (drop o xs) ≡ [])
          × (length xs < o + n))
read_cases xs o n h = elim (dec_lt (length xs) (o + n)) [
  | no fits ↦ inl (omega arith, drop_sum o n (o + n) xs refl)
  | yes over ↦ inr (
    omega arith,
    take_all (length xs - o) (drop o xs) (omega (arith, length-drop o xs))
        ∙ sym (take_all n (drop o xs) (omega (arith, length-drop o xs))),
    drop_all n (drop o xs) (omega (arith, length-drop o xs)),
    over,
  )
]

-- Making room keeps what is still to be read.
compact-contents : (b : StreamBuffer) → (contents (compact b) ≡ contents b) × IsValid (compact b)
unfolding compact
compact-contents b = ground (arith, drop_all b.read_offset b.buffer)

-- Where the read offset lies within the buffer, appended bytes come behind what is still to be read, and
-- the offset stays within.
pub contents-append :
    (b : StreamBuffer) (chunk : List ℕ)
    → IsValid b
    → (contents (append b chunk) ≡ contents b ++ chunk) × IsValid (append b chunk)
unfolding append
contents-append b [] h = (sym (append-nil (contents b)), h)
contents-append b (c ∷ cs) h =
    let (e, v) = compact-contents b in
    (
      drop-append _ _ _ v ∙ ap (λ l. l ++ (c ∷ cs)) e,
      omega (arith, v, length-append {0} (compact b).buffer (c ∷ cs)),
    )

-- Where the read offset lies within the buffer, bytes that are put back come in front of what is still to
-- be read, and the offset stays within.
pub contents-prepend :
    (b : StreamBuffer) (chunk : List ℕ)
    → IsValid b
    → (contents (prepend b chunk) ≡ chunk ++ contents b) × IsValid (prepend b chunk)
unfolding prepend
contents-prepend b [] h = (refl, h)
contents-prepend b (c ∷ cs) h =
    let n : ℕ = b.read_offset - suc (length cs) in
    let kept = c ∷ (cs ++ drop b.read_offset b.buffer) in
    ground (
      arith,
      drop-take_append n b.buffer kept,
      length-append {0} (take n b.buffer) kept,
      length-take {0} n b.buffer,
    )

-- Where the read offset lies within the buffer, bytes that are consumed go from the front, as many as are
-- there, and the offset stays within.
pub contents-consume :
    (b : StreamBuffer) (n : ℕ)
    → IsValid b
    → (contents (consume b n) ≡ drop n (contents b)) × IsValid (consume b n)
unfolding consume
contents-consume b n h = ground (
  arith,
  read_cases b.buffer b.read_offset n h,
  drop_all (b.read_offset + min n (length b.buffer - b.read_offset)) b.buffer,
)

-- Where the read offset lies within the buffer, a read takes the bytes in order, as many as are there and
-- fit, leaves the others, and the offset stays within.
pub contents-read :
    (b : StreamBuffer) (n : ℕ)
    → IsValid b
    → ((read b n).0 ≡ take n (contents b))
      × (contents (read b n).1 ≡ drop n (contents b))
      × IsValid (read b n).1
unfolding read
contents-read b n h = ground (
  arith,
  read_cases b.buffer b.read_offset n h,
  drop_all (b.read_offset + n) b.buffer,
  drop_all b.read_offset b.buffer,
)

-- Looking at the bytes shows the same ones.
pub peek-contents : (b : StreamBuffer) (n : ℕ) → IsValid b → peek b n ≡ take n (contents b)
unfolding peek
peek-contents b n h =
    ground (arith, read_cases b.buffer b.read_offset n h, drop_all b.read_offset b.buffer)

pub size-contents : (b : StreamBuffer) → size b ≡ length (contents b)
unfolding size
size-contents b = sym (length-drop b.read_offset b.buffer)
