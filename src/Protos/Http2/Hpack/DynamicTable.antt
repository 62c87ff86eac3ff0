-- ===== src/Protos/Http2/Hpack/DynamicTable.antt =====
-- include/wavex/protos/http/http2codec.hpp, class dynamic_table: the newest entry stands first. Sizes of
-- strings in memory are far from 2^64, so their sums are plain.
use wave_x.Prelude.{
  ℕ, zero, suc, ◌+◌, ◌-◌, Option, List, [], ◌∷◌, ltb, if◌then◌else◌, length, get_elem?,
}

pub record Entry : Type 0 where
  pub name : List ℕ
  pub value : List ℕ

-- entry::size
abbrev pub entry_size : Entry → ℕ
entry_size e = length e.name + length e.value + 32

pub record DynamicTable : Type 0 where
  pub entries : List Entry
  pub current_size : ℕ
  pub max_capacity : ℕ

abbrev pub new_table : ℕ → DynamicTable
new_table max_capacity = record { entries = []; current_size = 0; max_capacity = max_capacity }

-- `entries_.back()`, for a list that is not empty.
unfoldable pub back : Entry → List Entry → Entry
back e [] = e
back e (x ∷ xs) = back x xs

-- `entries_.pop_back()`
unfoldable pub pop_back : Entry → List Entry → List Entry
pop_back e [] = []
pop_back e (x ∷ xs) = e ∷ pop_back x xs

-- evict_to_fit: every round takes an entry, so as many rounds as there are entries are enough.
unfoldable pub evict_loop : ℕ → List Entry → ℕ → ℕ → List Entry × ℕ
evict_loop n [] current max = ([], current)
evict_loop zero (e ∷ es) current max = (e ∷ es, current)
evict_loop (suc n) (e ∷ es) current max =
    let rest = evict_loop n (pop_back e es) (current - entry_size (back e es)) max in
    if ltb max current then rest else (e ∷ es, current)

unfoldable pub evict_to_fit : DynamicTable → DynamicTable
evict_to_fit t =
    let (kept, size) = evict_loop (length t.entries) t.entries t.current_size t.max_capacity in
    record t { entries = kept; current_size = size }

unfoldable pub set_max_capacity : ℕ → DynamicTable → DynamicTable
set_max_capacity new_cap t = evict_to_fit (record t { max_capacity = new_cap })

unfoldable pub insert : List ℕ → List ℕ → DynamicTable → DynamicTable
insert name value t =
    let e : Entry = record { name = name; value = value } in
    let entry_sz = entry_size e in
    if ltb t.max_capacity entry_sz
    then record t { entries = []; current_size = 0 }
    else evict_to_fit
        (record t { entries = e ∷ t.entries; current_size = t.current_size + entry_sz })

abbrev pub get : ℕ → DynamicTable → Option Entry
get dynamic_index t = get_elem? t.entries dynamic_index
