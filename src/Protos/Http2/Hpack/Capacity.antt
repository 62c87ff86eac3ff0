-- ===== src/Protos/Http2/Hpack/Capacity.antt =====
-- The dynamic table keeps its size and its limit, and evicts as RFC 7541, 4.4 says: the newest entries that
-- fit stay.
use wave_x.Prelude.{
  ℕ, zero, suc, ◌+◌, ◌-◌, ◌≤◌, ◌<◌, ◌≡◌, refl, sym, ap, ◌∙◌, List, [], ◌∷◌, leb, if◌then◌else◌,
  length, arith, subst, lt→ltb, not_lt→ltb,
}
use native.Mathlib.Decide.{dec_lt}
use wave_x.Protos.Http2.Hpack.DynamicTable.{
  Entry, entry_size, DynamicTable, back, pop_back, evict_loop, evict_to_fit, set_max_capacity,
  insert,
}

unfoldable pub total : List Entry → ℕ
total [] = 0
total (e ∷ es) = entry_size e + total es

-- The longest front of the entries whose sizes fit in `max`, by itself.
unfoldable pub fit : ℕ → List Entry → List Entry
fit max [] = []
fit max (e ∷ es) =
    let rest = fit (max - entry_size e) es in if leb (entry_size e) max then e ∷ rest else []

-- `current_size` is the size of the entries, and within the capacity.
pub record IsSized (t : DynamicTable) : Type 0 where
  pub sum : t.current_size ≡ total t.entries
  pub within : t.current_size ≤ t.max_capacity

total-pop_back :
    (e : Entry) (es : List Entry) → total (pop_back e es) + entry_size (back e es) ≡ total (e ∷ es)
unfolding total pop_back back
total-pop_back e [] = omega arith
total-pop_back e (x ∷ xs) = omega (arith, total-pop_back x xs)

length-pop_back : (e : Entry) (es : List Entry) → length (pop_back e es) ≡ length es
unfolding pop_back
length-pop_back e [] = refl
length-pop_back e (x ∷ xs) = ap suc (length-pop_back x xs)

-- What does not fit with its last entry fits as much without it.
fit-pop_back :
    (e : Entry) (es : List Entry) (max : ℕ)
    → max < total (e ∷ es)
    → fit max (e ∷ es) ≡ fit max (pop_back e es)
unfolding fit total pop_back
fit-pop_back e [] max h = ground arith
fit-pop_back e (x ∷ xs) max h = elim (dec_lt max (entry_size e)) [
  | yes p ↦ ground arith
  | no p ↦ ground (arith, fit-pop_back x xs (max - entry_size e) (omega arith))
]

fit_all : (es : List Entry) (max : ℕ) → total es ≤ max → fit max es ≡ es
unfolding fit total
fit_all [] max h = refl
fit_all (e ∷ es) max h = ground (arith, fit_all es (max - entry_size e) (omega arith))

fit_none : (e : Entry) (es : List Entry) (max : ℕ) → max < entry_size e → fit max (e ∷ es) ≡ []
unfolding fit
fit_none e es max h = ground arith

added : (e : Entry) (n : ℕ) (es : List Entry) → n ≡ total es → n + entry_size e ≡ total (e ∷ es)
unfolding total
added e n es h = omega (arith, h)

pub total-fit : (es : List Entry) (max : ℕ) → total (fit max es) ≤ max
unfolding fit total
total-fit [] max = omega arith
total-fit (e ∷ es) max = ground (arith, total-fit es (max - entry_size e))

evict_loop_lem :
    (n : ℕ) (es : List Entry) (current max : ℕ)
    → length es ≤ n
    → current ≡ total es
    → evict_loop n es current max ≡ (fit max es, total (fit max es))
unfolding evict_loop fit total
evict_loop_lem n [] current max h e = ap (λ (c : ℕ). ([], c)) e
evict_loop_lem zero (x ∷ xs) current max h e = absurd (omega arith)
evict_loop_lem (suc n) (x ∷ xs) current max h e = elim (dec_lt max current) [
  | yes p ↦ rw (lt→ltb max current p) (
      evict_loop_lem n (pop_back x xs) (current - entry_size (back x xs)) max
        (omega (arith, length-pop_back x xs)) (omega (arith, e, total-pop_back x xs))
      ∙ ap (λ (k : List Entry). (k, total k)) (sym (fit-pop_back x xs max (omega (arith, e)))))
  | no p ↦ rw (not_lt→ltb max current p) (
      ap (λ (c : ℕ). (x ∷ xs, c)) e
      ∙ ap (λ (k : List Entry). (k, total k)) (sym (fit_all (x ∷ xs) max (omega (arith, e)))))
]

evict_to_fit_lem :
    (t : DynamicTable)
    → t.current_size ≡ total t.entries
    → evict_to_fit t ≡ record t {
      entries = fit t.max_capacity t.entries;
      current_size = total (fit t.max_capacity t.entries);
    }
unfolding evict_to_fit
evict_to_fit_lem t e =
    ap (λ (r : List Entry × ℕ). record t { entries = r.0; current_size = r.1 })
      (evict_loop_lem (length t.entries) t.entries t.current_size t.max_capacity (omega arith) e)

insert_lem :
    (name value : List ℕ) (t : DynamicTable)
    → t.current_size ≡ total t.entries
    → let kept = fit t.max_capacity (record { name = name; value = value } ∷ t.entries) in
      insert name value t ≡ record t { entries = kept; current_size = total kept }
unfolding insert total
insert_lem name value t s =
    let e : Entry = record { name = name; value = value } in
    elim (dec_lt t.max_capacity (entry_size e)) [
      | yes p ↦
          let none_left : fit t.max_capacity (e ∷ t.entries) ≡ [] =
            fit_none e t.entries t.max_capacity p in
          rw (lt→ltb t.max_capacity (entry_size e) p) (
            ap (λ (k : List Entry). record t { entries = k; current_size = total k })
              (sym none_left))
      | no p ↦ rw (not_lt→ltb t.max_capacity (entry_size e) p) (
          evict_to_fit_lem
            (record t { entries = e ∷ t.entries; current_size = t.current_size + entry_size e })
            (added e t.current_size t.entries s))
    ]

-- What the table holds after an entry was put in: of the new entry and the old ones, the newest that fit; and no
-- entry where the new one alone does not fit.
pub entries-insert :
    (name value : List ℕ) (t : DynamicTable)
    → IsSized t
    → (insert name value t).entries
      ≡ fit t.max_capacity (record { name = name; value = value } ∷ t.entries)
entries-insert name value t s = ap (λ (u : DynamicTable). u.entries) (insert_lem name value t s.sum)

-- Putting an entry in keeps the size of the table equal to the sum of the sizes of its entries, and within its
-- capacity, also where older entries or the new one itself do not fit.
pub insert-IsSized :
    (name value : List ℕ) (t : DynamicTable) → IsSized t → IsSized (insert name value t)
insert-IsSized name value t s =
    let e : Entry = record { name = name; value = value } in
    subst IsSized (sym (insert_lem name value t s.sum))
      (record { sum = refl; within = total-fit (e ∷ t.entries) t.max_capacity })

pub entries-set_max_capacity :
    (new_cap : ℕ) (t : DynamicTable)
    → IsSized t
    → (set_max_capacity new_cap t).entries ≡ fit new_cap t.entries
unfolding set_max_capacity
entries-set_max_capacity new_cap t s =
    ap (λ (u : DynamicTable). u.entries)
      (evict_to_fit_lem (record t { max_capacity = new_cap }) s.sum)

-- The same of a new capacity.
pub set_max_capacity-IsSized :
    (new_cap : ℕ) (t : DynamicTable) → IsSized t → IsSized (set_max_capacity new_cap t)
unfolding set_max_capacity
set_max_capacity-IsSized new_cap t s =
    subst IsSized (sym (evict_to_fit_lem (record t { max_capacity = new_cap }) s.sum))
      (record { sum = refl; within = total-fit t.entries new_cap })
