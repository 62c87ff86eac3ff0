-- ===== src/Quic/Recovery/Ranges.antt =====
-- Which packet numbers an ACK frame acknowledges, as the format defines it, and as the code decides it.
use wave_x.Prelude.{
  ℕ, ◌+◌, ◌-◌, ◌≤◌, ◌≡◌, ◌↔◌, refl, Bool, true, false, ◌&&◌, List, [], ◌∷◌, leb, ltb, if◌then◌else◌,
  arith,
}
use wave_x.Quic.Frames.Types.{AckRange, AckFrame}
use wave_x.Quic.Recovery.{
  AckedRange, range_start, ranges_below, ranges_from, acked_ranges, is_acked,
}

-- Of ranges of packet numbers, the first goes from `largest` down by `len`; between a range and the next `gap + 1`
-- numbers are left out.
pub data Covers : ℕ → ℕ → List AckRange → ℕ → Type 0 where
  within :
      (largest len : ℕ) (rs : List AckRange) (pn : ℕ)
      → largest ≤ pn + len
      → pn ≤ largest
      → Covers largest len rs pn
  below :
      (largest len next : ℕ) (r : AckRange) (rs : List AckRange) (pn : ℕ)
      → largest ≡ len + (r.gap + 2) + next
      → Covers next r.ack_range_len rs pn
      → Covers largest len (r ∷ rs) pn

-- A frame without ranges acknowledges its largest number alone.
abbrev CoversFrom : ℕ → List AckRange → ℕ → Type 0
CoversFrom largest [] pn = pn ≡ largest
CoversFrom largest (r ∷ rs) pn = Covers largest r.ack_range_len rs pn

unfoldable pub IsAckedBy : AckFrame → ℕ → Type 0
IsAckedBy ack pn = CoversFrom ack.largest_acknowledged ack.ranges pn

-- The code's ranges from one that starts at `start`.
abbrev ranges_of : ℕ → ℕ → List AckRange → List AckedRange
ranges_of start largest rs = record { min_pn = start; max_pn = largest } ∷ ranges_below start rs

between : (a b pn : ℕ) → leb a pn && leb pn b ≡ true → (a ≤ pn) × (pn ≤ b)
between a b pn h = ground arith

range_within :
    (largest len pn : ℕ)
    → leb (range_start largest len) pn && leb pn largest ≡ true
    → (largest ≤ pn + len) × (pn ≤ largest)
range_within largest len pn h = ground arith

within_range :
    (largest len pn : ℕ)
    → largest ≤ pn + len
    → pn ≤ largest
    → leb (range_start largest len) pn && leb pn largest ≡ true
within_range largest len pn h k = ground arith

next_range :
    (largest len gap : ℕ)
    → ltb (range_start largest len) (gap + 2) ≡ false
    → largest ≡ len + (gap + 2) + (range_start largest len - gap - 2)
next_range largest len gap h = ground arith

range_next :
    (largest len gap next : ℕ)
    → largest ≡ len + (gap + 2) + next
    → (ltb (range_start largest len) (gap + 2) ≡ false) × (range_start largest len - gap - 2 ≡ next)
range_next largest len gap next h = ground arith

is_acked-Covers :
    (largest len : ℕ) (rs : List AckRange) (pn : ℕ)
    → is_acked (ranges_of (range_start largest len) largest rs) pn ≡ true
    → Covers largest len rs pn
unfolding is_acked ranges_below
is_acked-Covers largest len [] pn h = go (leb (range_start largest len) pn && leb pn largest) refl h
  where
    go :
        (b : Bool)
        → (leb (range_start largest len) pn && leb pn largest) ≡ b
        → (if b then true else false) ≡ true
        → Covers largest len [] pn
    go true e h' = let (p, q) = range_within largest len pn e in within largest len [] pn p q
    go false e h' = absurd (ground arith)
is_acked-Covers largest len (r ∷ rs) pn h =
    go (leb (range_start largest len) pn && leb pn largest) refl
      (ltb (range_start largest len) (r.gap + 2)) refl
      (is_acked-Covers (range_start largest len - r.gap - 2) r.ack_range_len rs pn) h
  where
    next : ℕ
    next = range_start largest len - r.gap - 2

    go :
        (b : Bool)
        → (leb (range_start largest len) pn && leb pn largest) ≡ b
        → (c : Bool) → ltb (range_start largest len) (r.gap + 2) ≡ c
        → (is_acked (ranges_of (range_start next r.ack_range_len) next rs) pn ≡ true
            → Covers next r.ack_range_len rs pn)
        → (if b
            then true
            else is_acked
                (if c then [] else ranges_of (range_start next r.ack_range_len) next rs)
                pn)
          ≡ true
        → Covers largest len (r ∷ rs) pn
    go true e c f rec h' =
        let (p, q) = range_within largest len pn e in within largest len (r ∷ rs) pn p q
    go false e true f rec h' = absurd (ground arith)
    go false e false f rec h' =
        below largest len next r rs pn (next_range largest len r.gap f) (rec h')

Covers-is_acked :
    (largest len : ℕ) (rs : List AckRange) (pn : ℕ)
    → Covers largest len rs pn
    → is_acked (ranges_of (range_start largest len) largest rs) pn ≡ true
unfolding is_acked ranges_below
Covers-is_acked largest len rs pn (within _ _ _ _ p q) = rw (within_range largest len pn p q) refl
Covers-is_acked largest len (r ∷ rs) pn (below _ _ next _ _ _ e c) =
    let (far, there) = range_next largest len r.gap next e in
    rw (far, there)
      (go (leb (range_start largest len) pn && leb pn largest)
        (Covers-is_acked next r.ack_range_len rs pn c))
  where
    go : (b : Bool) → {c : Bool} → c ≡ true → (if b then true else c) ≡ true
    go true h = refl
    go false h = h

sound_from :
    (largest : ℕ) (rs : List AckRange) (pn : ℕ)
    → is_acked (ranges_from largest rs) pn ≡ true
    → CoversFrom largest rs pn
unfolding ranges_from is_acked
sound_from largest [] pn h = ground arith
sound_from largest (r ∷ rs) pn h = is_acked-Covers largest r.ack_range_len rs pn h

complete_from :
    (largest : ℕ) (rs : List AckRange) (pn : ℕ)
    → CoversFrom largest rs pn
    → is_acked (ranges_from largest rs) pn ≡ true
unfolding ranges_from is_acked
complete_from largest [] pn h = rw (within_range largest 0 pn (omega arith) (omega arith)) refl
complete_from largest (r ∷ rs) pn h = Covers-is_acked largest r.ack_range_len rs pn h

-- The test of the code decides it.
pub is_acked-IsAckedBy :
    (ack : AckFrame) (pn : ℕ) → (is_acked (acked_ranges ack) pn ≡ true) ↔ IsAckedBy ack pn
unfolding acked_ranges IsAckedBy
is_acked-IsAckedBy ack pn = (
  sound_from ack.largest_acknowledged ack.ranges pn,
  complete_from ack.largest_acknowledged ack.ranges pn,
)
