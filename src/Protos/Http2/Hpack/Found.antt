-- ===== src/Protos/Http2/Hpack/Found.antt =====
-- What find_static finds is in the static table.
use wave_x.Prelude.{
  ℕ, suc, ◌-◌, take, take-length_append, append-nil, All, subst, ◌≤◌, ◌<◌, ◌≡◌, ◌≢◌, ◌⊎◌, refl, sym,
  ap, ◌∙◌, Bool, true, false, not, ◌&&◌, List, [], ◌∷◌, ◌++◌, ◌==◌, if◌then◌else◌, length, arith,
  inl, inr, map, append_assoc, get_or, length-append,
}
use mathlib.Core.Path.{ap₂}
use wave_x.Protos.Http1.{bytes_eq, is_equal, ascii_lower, is_empty}
use wave_x.Protos.Http1.Proofs.{bytes_eq→≡}
use wave_x.Protos.Http2.Hpack.StaticTable.{
  StaticEntry, entry_of, static_table, find_from, find_static, used_entries,
}
use wave_x.Protos.Http2.Hpack.Compare.{and_true, is_equal→≡, flipped, is_equal_self, bytes_eq_self}

-- The entry of an index.
unfoldable pub entry_at : ℕ → StaticEntry
entry_at idx = get_or static_table idx (entry_of [] [])

-- The entries that are used have names, and these no capital letters.
is_lower : List ℕ → Bool
is_lower n = bytes_eq (map ascii_lower n) n

named : List StaticEntry → Bool
named [] = true
named (e ∷ es) = (not (is_empty e.name) && is_lower e.name) && named es

named_table : named (used_entries static_table) ≡ true
unfolding static_table named is_lower
named_table = refl

-- An entry of the table that is used.
pub record IsUsed (idx : ℕ) : Type 0 where
  pub positive : 1 ≤ idx
  pub small : idx < 62
  pub has_name : is_empty (entry_at idx).name ≡ false
  pub lower : map ascii_lower (entry_at idx).name ≡ (entry_at idx).name

get_or-append :
    (pre es : List StaticEntry) (e d : StaticEntry) → get_or (pre ++ (e ∷ es)) (length pre) d ≡ e
get_or-append [] es e d = refl
get_or-append (p ∷ pre) es e d = get_or-append pre es e d

abbrev pub Named : List ℕ → StaticEntry → Type 0
Named name e = e.name ≡ name

abbrev pub Unnamed : List ℕ → StaticEntry → Type 0
Unnamed name e = e.name ≢ name

abbrev pub Differs : List ℕ → List ℕ → StaticEntry → Type 0
Differs name value e = e.name ≡ name → e.value ≢ value

-- The entries before an index, of those that are used.
abbrev pub before : ℕ → List StaticEntry
before idx = take (idx - 1) (used_entries static_table)

-- What find_static says of a field: the first index of an entry with the field's name and value, or, where there is
-- none, the first of an entry with its name, or 0, where there is none of these either.
unfoldable pub Says : List ℕ → List ℕ → ℕ × Bool → Type 0
Says name value (idx, true) =
    IsUsed idx
    × ((entry_at idx).name ≡ name)
    × ((entry_at idx).value ≡ value)
    × All (Differs name value) (before idx)
Says name value (idx, false) =
    All (Differs name value) (used_entries static_table)
    × (((idx ≡ 0) × All (Unnamed name) (used_entries static_table))
        ⊎ (IsUsed idx × Named name (entry_at idx) × All (Unnamed name) (before idx)))

entry_here :
    (pre es : List StaticEntry) (x : StaticEntry) (i : ℕ)
    → pre ++ (x ∷ es) ≡ static_table
    → length pre ≡ i
    → entry_at i ≡ x
unfolding entry_at
entry_here pre es x i e l =
    ap (λ (t : List StaticEntry). get_or t i (entry_of [] [])) (sym e)
    ∙ ap (λ (k : ℕ). get_or (pre ++ (x ∷ es)) k (entry_of [] [])) (sym l)
    ∙ get_or-append pre es x (entry_of [] [])

-- An entry in the table behind others, with a name without capital letters, is used.
IsUsed-here :
    (pre es : List StaticEntry) (x : StaticEntry) (i : ℕ)
    → pre ++ (x ∷ es) ≡ static_table
    → length pre ≡ i
    → 1 ≤ i
    → (not (is_empty x.name) && is_lower x.name) ≡ true
    → IsUsed i
unfolding is_lower static_table
IsUsed-here pre es x i e l p good =
    let (filled, low) = and_true (not (is_empty x.name)) (is_lower x.name) good in
    let here : entry_at i ≡ x = entry_here pre es x i e l in
    let count : length (pre ++ (x ∷ es)) ≡ 62 = ap length e in
    record {
      positive = p;
      small = omega (arith, count, length-append {0} pre (x ∷ es));
      has_name = ap (λ (y : StaticEntry). is_empty y.name) here ∙ flipped (is_empty x.name) filled;
      lower =
          ap (λ (y : StaticEntry). map ascii_lower y.name) here
          ∙ bytes_eq→≡ _ _ low
          ∙ ap (λ (y : StaticEntry). y.name) (sym here);
    }

same_name :
    (x : StaticEntry) (name : List ℕ)
    → is_lower x.name ≡ true
    → map ascii_lower name ≡ name
    → is_equal x.name name ≡ true
    → x.name ≡ name
unfolding is_lower
same_name x name low h e = sym (bytes_eq→≡ _ _ low) ∙ is_equal→≡ x.name name e ∙ h

All-snoc {ℓ κ} :
    {A : Type ℓ} (P : A → Type κ) (xs : List A) (x : A) → All P xs → P x → All P (xs ++ (x ∷ []))
All-snoc P [] x all p = (p, tt)
All-snoc P (y ∷ ys) x (q, all) p = (q, All-snoc P ys x all p)

not_zero : (m : ℕ) → 1 ≤ m → (m == 0) ≡ false
not_zero m h = ground arith

true≢false : true ≢ false
true≢false e = absurd (ground arith)

-- What the search knows behind the entries `seen`: none of them is the field, and `m` is the first with its name.
abbrev FirstName : List ℕ → List StaticEntry → ℕ → Type 0
FirstName name seen m =
    ((m ≡ 0) × All (Unnamed name) seen)
    ⊎ (IsUsed m × Named name (entry_at m) × All (Unnamed name) (before m))

find_from-Says :
    (seen es : List StaticEntry) (i m : ℕ) (name value : List ℕ)
    → (entry_of [] [] ∷ seen) ++ es ≡ static_table
    → suc (length seen) ≡ i
    → named es ≡ true
    → map ascii_lower name ≡ name
    → All (Differs name value) seen
    → FirstName name seen m
    → Says name value (find_from es i m name value)
unfolding find_from Says named
find_from-Says seen [] i m name value e l n low none first =
    let whole : seen ≡ used_entries static_table = sym (append-nil seen) ∙ ap used_entries e in
    (
      subst (All (Differs name value)) whole none,
      elim first [
        | inl (z, unnamed) ↦ inl (z, subst (All (Unnamed name)) whole unnamed)
        | inr found ↦ inr found
      ],
    )
find_from-Says seen (x ∷ es) i m name value e l n low none first =
    let (good, later) = and_true (not (is_empty x.name) && is_lower x.name) (named es) n in
    let (filled, lower) = and_true (not (is_empty x.name)) (is_lower x.name) good in
    let here : entry_at i ≡ x = entry_here (entry_of [] [] ∷ seen) es x i e l in
    let used : IsUsed i = IsUsed-here (entry_of [] [] ∷ seen) es x i e l (omega arith) good in
    let earlier : seen ≡ before i =
      sym (take-length_append seen (x ∷ es))
      ∙ ap₂ take {x = length seen} {y = i - 1} (omega arith) (ap used_entries e) in
    go (is_equal x.name name) refl (bytes_eq x.value value) refl
      (λ same exact. (
        used,
        ap (λ (y : StaticEntry). y.name) here ∙ same_name x name lower low same,
        ap (λ (y : StaticEntry). y.value) here ∙ bytes_eq→≡ x.value value exact,
        subst (All (Differs name value)) earlier none,
      ))
      (λ same. elim first [
        | inl (z, unnamed) ↦ rw z (
            inr (
              used,
              ap (λ (y : StaticEntry). y.name) here ∙ same_name x name lower low same,
              subst (All (Unnamed name)) earlier unnamed,
            ))
        | inr (u, same_m, unnamed) ↦ rw (not_zero m u.positive) (inr (u, same_m, unnamed))
      ])
      (λ other. elim first [
        | inl (z, unnamed) ↦ inl (z, All-snoc (Unnamed name) seen x unnamed other)
        | inr found ↦ inr found
      ])
      (λ m1 differs first1.
        find_from-Says (seen ++ (x ∷ [])) es (suc i) m1 name value
          (append_assoc (entry_of [] [] ∷ seen) (x ∷ []) es ∙ e)
          (omega (arith, length-append {0} seen (x ∷ []))) later low
          (All-snoc (Differs name value) seen x none differs) first1)
  where
    go :
        (same : Bool)
        → is_equal x.name name ≡ same
        → (exact : Bool) → bytes_eq x.value value ≡ exact
        → (is_equal x.name name ≡ true → bytes_eq x.value value ≡ true → Says name value (i, true))
        → (is_equal x.name name ≡ true
            → FirstName name (seen ++ (x ∷ [])) (if m == 0 then i else m))
        → (Unnamed name x → FirstName name (seen ++ (x ∷ [])) m)
        → ((m1 : ℕ)
            → Differs name value x
            → FirstName name (seen ++ (x ∷ [])) m1
            → Says name value (find_from es (suc i) m1 name value))
        → Says name value (
            let rest =
              find_from es (suc i) (if same then if m == 0 then i else m else m) name value in
            if same then if exact then (i, true) else rest else rest)
    go true s true v found first other ih = found s v
    go true s false v found first other ih =
        ih (if m == 0 then i else m)
          (λ a b. absurd (true≢false (sym (bytes_eq_self x.value value b) ∙ v))) (first s)
    go false s exact v found first other ih =
        ih m (λ a. absurd (true≢false (sym (is_equal_self x.name name a) ∙ s)))
          (other (λ a. absurd (true≢false (sym (is_equal_self x.name name a) ∙ s))))

-- For a name without capital letters, find_static answers with the first entry of the static table that has the
-- field's name and value; where there is none, with the first entry that has its name; and with 0 where no entry has
-- its name.
pub find_static-Says :
    (name value : List ℕ) → map ascii_lower name ≡ name → Says name value (find_static name value)
unfolding find_static static_table Says
find_static-Says name value low =
    find_from-Says [] (used_entries static_table) 1 0 name value refl refl named_table low tt
      (inl (refl, tt))
