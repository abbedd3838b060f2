-- ===== src/ToolCache/Entries.antt =====
-- The map of tool-result-cache.ts as entries in their order: keys stand once, and reading after writing.
use uns_kit.Kit.{
  suc, ◌≤◌, ◌≡◌, refl, sym, ap, ◌∙◌, inl, inr, Bool, true, false, none, some, List, [], ◌∷◌, String,
  length, ◌===◌, eq_iff, arith, Bool-cases, if_each, if_split,
}
use uns_kit.ToolCache.{CacheEntry, find_entry, delete_entry, add_entry, keep_entries}

-- No key stands twice.
abbrev pub Distinct : List CacheEntry → Type 0
Distinct [] = Unit
Distinct (e ∷ es) = (find_entry e.key es ≡ none) × Distinct es

pub find_entry-delete_entry :
    (key : String) (es : List CacheEntry) → find_entry key (delete_entry key es) ≡ none
unfolding find_entry delete_entry
find_entry-delete_entry key [] = refl
find_entry-delete_entry key (e ∷ es) = elim (Bool-cases (e.key === key)) [
  | inl same ↦ rw same (find_entry-delete_entry key es)
  | inr other ↦ rw (other, other) (find_entry-delete_entry key es)
]

pub find_entry-delete_none :
    (k key : String) (es : List CacheEntry)
    → find_entry k es ≡ none
    → find_entry k (delete_entry key es) ≡ none
unfolding find_entry delete_entry
find_entry-delete_none k key [] h = refl
find_entry-delete_none k key (e ∷ es) h =
    elim (if_split (e.key === k) (some e) (find_entry k es) none h) [
      | inl (same, wrong) ↦ absurd (ground (arith, wrong))
      | inr (other, gone) ↦
          let below = find_entry-delete_none k key es gone in
          if_each (λ ys. find_entry k ys ≡ none) (e.key === key) (delete_entry key es)
            (e ∷ delete_entry key es) (λ left. below) (λ kept. rw other below)
    ]

pub length-delete_entry :
    (key : String) (es : List CacheEntry) → length (delete_entry key es) ≤ length es
unfolding delete_entry
length-delete_entry key [] = omega arith
length-delete_entry key (e ∷ es) =
    let below = length-delete_entry key es in
    if_each (λ ys. length ys ≤ length (e ∷ es)) (e.key === key) (delete_entry key es)
      (e ∷ delete_entry key es) (λ gone. omega (arith, below)) (λ kept. omega (arith, below))

pub length-delete_first :
    (e : CacheEntry) (es : List CacheEntry) → length (delete_entry e.key (e ∷ es)) ≤ length es
unfolding delete_entry
length-delete_first e es = rw ((eq_iff e.key e.key).1 refl) (length-delete_entry e.key es)

find_entry-cons_none :
    (k : String) (x : CacheEntry) (es : List CacheEntry)
    → find_entry k (x ∷ es) ≡ none
    → ((x.key === k) ≡ false) × (find_entry k es ≡ none)
unfolding find_entry
find_entry-cons_none k x es h = elim (if_split (x.key === k) (some x) (find_entry k es) none h) [
  | inl (same, wrong) ↦ absurd (ground (arith, wrong))
  | inr both ↦ both
]

length-delete_absent :
    (key : String) (es : List CacheEntry)
    → find_entry key es ≡ none
    → length (delete_entry key es) ≡ length es
unfolding delete_entry
length-delete_absent key [] h = refl
length-delete_absent key (e ∷ es) h =
    let rest = find_entry-cons_none key e es h in
    rw rest.0 (omega (arith, length-delete_absent key es rest.1))

-- With distinct keys a found key leaves one entry less.
pub length-delete_found :
    (key : String) (x : CacheEntry) (es : List CacheEntry)
    → Distinct es
    → find_entry key es ≡ some x
    → suc (length (delete_entry key es)) ≡ length es
unfolding find_entry delete_entry
length-delete_found key x [] d h = absurd (ground (arith, h))
length-delete_found key x (e ∷ es) d h =
    elim (if_split (e.key === key) (some e) (find_entry key es) (some x) h) [
      | inl (same, found) ↦
          let gone : find_entry key es ≡ none =
            ap (λ k. find_entry k es) (sym ((eq_iff e.key key).0 same)) ∙ d.0 in
          rw same (omega (arith, length-delete_absent key es gone))
      | inr (other, found) ↦ rw other (omega (arith, length-delete_found key x es d.1 found))
    ]

pub Distinct-delete_entry :
    (key : String) (es : List CacheEntry) → Distinct es → Distinct (delete_entry key es)
unfolding delete_entry
Distinct-delete_entry key [] d = tt
Distinct-delete_entry key (e ∷ es) d =
    let below = Distinct-delete_entry key es d.1 in
    if_each (λ ys. Distinct ys) (e.key === key) (delete_entry key es) (e ∷ delete_entry key es)
      (λ gone. below) (λ kept. (find_entry-delete_none e.key key es d.0, below))

pub find_entry-add_entry :
    (e : CacheEntry) (es : List CacheEntry)
    → find_entry e.key es ≡ none
    → find_entry e.key (add_entry e es) ≡ some e
unfolding find_entry
find_entry-add_entry e [] h = rw ((eq_iff e.key e.key).1 refl) refl
find_entry-add_entry e (x ∷ es) h =
    elim (if_split (x.key === e.key) (some x) (find_entry e.key es) none h) [
      | inl (same, wrong) ↦ absurd (ground (arith, wrong))
      | inr (other, gone) ↦ rw other (find_entry-add_entry e es gone)
    ]

find_entry-add_none :
    (k : String) (e : CacheEntry) (es : List CacheEntry)
    → find_entry k es ≡ none
    → (e.key === k) ≡ false
    → find_entry k (add_entry e es) ≡ none
unfolding find_entry
find_entry-add_none k e [] h o = rw o refl
find_entry-add_none k e (x ∷ es) h o =
    elim (if_split (x.key === k) (some x) (find_entry k es) none h) [
      | inl (same, wrong) ↦ absurd (ground (arith, wrong))
      | inr (other, gone) ↦ rw other (find_entry-add_none k e es gone o)
    ]

same_key : (a b : String) → (a === b) ≡ true → (b === a) ≡ true
same_key a b h = (eq_iff b a).1 (sym ((eq_iff a b).0 h))

other_key : (a b : String) → (a === b) ≡ false → (b === a) ≡ false
other_key a b h = elim (Bool-cases (b === a)) [
  | inl same ↦ absurd (ground (arith, h, same_key b a same))
  | inr other ↦ other
]

pub Distinct-add_entry :
    (e : CacheEntry) (es : List CacheEntry)
    → find_entry e.key es ≡ none
    → Distinct es
    → Distinct (add_entry e es)
unfolding find_entry
Distinct-add_entry e [] h d = (refl, tt)
Distinct-add_entry e (x ∷ es) h d =
    let rest = find_entry-cons_none e.key x es h in
    (
      find_entry-add_none x.key e es d.0 (other_key x.key e.key rest.0),
      Distinct-add_entry e es rest.1 d.1,
    )

find_entry-keep_none :
    (k : String) (in_scope : String → Bool) (es : List CacheEntry)
    → find_entry k es ≡ none
    → find_entry k (keep_entries in_scope es) ≡ none
unfolding keep_entries find_entry
find_entry-keep_none k in_scope [] h = refl
find_entry-keep_none k in_scope (e ∷ es) h =
    let rest = find_entry-cons_none k e es h in
    let below = find_entry-keep_none k in_scope es rest.1 in
    if_each (λ ys. find_entry k ys ≡ none) (in_scope e.key) (keep_entries in_scope es)
      (e ∷ keep_entries in_scope es) (λ left. below) (λ kept. rw rest.0 below)

pub Distinct-keep_entries :
    (in_scope : String → Bool) (es : List CacheEntry)
    → Distinct es
    → Distinct (keep_entries in_scope es)
unfolding keep_entries
Distinct-keep_entries in_scope [] d = tt
Distinct-keep_entries in_scope (e ∷ es) d =
    let below = Distinct-keep_entries in_scope es d.1 in
    if_each (λ ys. Distinct ys) (in_scope e.key) (keep_entries in_scope es)
      (e ∷ keep_entries in_scope es) (λ left. below)
      (λ kept. (find_entry-keep_none e.key in_scope es d.0, below))

pub length-keep_entries :
    (in_scope : String → Bool) (es : List CacheEntry)
    → length (keep_entries in_scope es) ≤ length es
unfolding keep_entries
length-keep_entries in_scope [] = omega arith
length-keep_entries in_scope (e ∷ es) =
    let below = length-keep_entries in_scope es in
    if_each (λ ys. length ys ≤ length (e ∷ es)) (in_scope e.key) (keep_entries in_scope es)
      (e ∷ keep_entries in_scope es) (λ left. omega (arith, below)) (λ kept. omega (arith, below))

-- A found entry is stored under its key.
pub key-find_entry :
    (key : String) (x : CacheEntry) (es : List CacheEntry)
    → find_entry key es ≡ some x
    → x.key ≡ key
unfolding find_entry
key-find_entry key x [] h = absurd (ground (arith, h))
key-find_entry key x (e ∷ es) h =
    elim (if_split (e.key === key) (some e) (find_entry key es) (some x) h) [
      | inl (same, found) ↦
          let e' : e ≡ x = cc found in
          ap (λ (z : CacheEntry). z.key) (sym e') ∙ (eq_iff e.key key).0 same
      | inr (other, found) ↦ key-find_entry key x es found
    ]
