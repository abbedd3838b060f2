-- ===== src/PublishQueue/Order.antt =====
-- Rows by primary key: what inserting keeps, and the backlog as one ascending list.
use uns_kit.Kit.{
  ℕ, suc, ◌+◌, ◌≤◌, ◌<◌, ◌≡◌, refl, ◌≢◌, ap, ◌∙◌, inl, inr, false, List, [], ◌∷◌, ◌++◌, length,
  total, ltb, arith, All, All-append, All-weaken, Bool-cases, ltb→lt,
}
use uns_kit.PublishQueue.Records.{PublishRecord}
use uns_kit.PublishQueue.Store.{insert_row, row_bytes}

-- Every row of the list has a number below that of `r`, or above it.
abbrev pub AllBelow : ℕ → List PublishRecord → Type 0
AllBelow n = All (λ x. x.seq < n)

abbrev pub AllAbove : ℕ → List PublishRecord → Type 0
AllAbove n = All (λ x. n < x.seq)

abbrev pub Ascending : List PublishRecord → Type 0
Ascending [] = Unit
Ascending (x ∷ xs) = AllAbove x.seq xs × Ascending xs

abbrev pub Differs : List PublishRecord → PublishRecord → Type 0
Differs rows m = All (λ x. m.seq ≢ x.seq) rows

-- No number is in both lists.
abbrev pub Disjoint : List PublishRecord → List PublishRecord → Type 0
Disjoint rows = All (Differs rows)

-- The rows with the records of the memory list put to them one by one.
unfoldable pub insert_all : List PublishRecord → List PublishRecord → List PublishRecord
insert_all rows [] = rows
insert_all rows (m ∷ memory) = insert_all (insert_row m rows) memory

module _ (P : PublishRecord → Type 0) where
  pub All-insert_row :
      (r : PublishRecord) (rows : List PublishRecord) → P r → All P rows → All P (insert_row r rows)
  unfolding insert_row
  All-insert_row r [] p h = (p, tt)
  All-insert_row r (x ∷ rows) p h = ground (arith, All-insert_row r rows p h.1)

-- Writing a memory record leaves its numbers apart from those of the later ones.
pub Disjoint-insert_row :
    (m : PublishRecord) (rows memory : List PublishRecord)
    → AllAbove m.seq memory
    → Disjoint rows memory
    → Disjoint (insert_row m rows) memory
Disjoint-insert_row m rows [] h d = tt
Disjoint-insert_row m rows (x ∷ memory) h d = (
  All-insert_row (λ y. x.seq ≢ y.seq) m rows (omega arith) d.0,
  Disjoint-insert_row m rows memory h.1 d.1,
)

pub length-insert_row :
    (r : PublishRecord) (rows : List PublishRecord) → length (insert_row r rows) ≡ suc (length rows)
unfolding insert_row
length-insert_row r [] = refl
length-insert_row r (x ∷ rows) = ground (arith, length-insert_row r rows)

pub total-insert_row :
    (r : PublishRecord) (rows : List PublishRecord)
    → total row_bytes (insert_row r rows) ≡ r.bytes + total row_bytes rows
unfolding insert_row
total-insert_row r [] = refl
total-insert_row r (x ∷ rows) = ground (arith, total-insert_row r rows)

pub insert_row_last :
    (r : PublishRecord) (rows : List PublishRecord)
    → AllBelow r.seq rows
    → insert_row r rows ≡ rows ++ r ∷ []
unfolding insert_row
insert_row_last r [] h = refl
insert_row_last r (x ∷ rows) h = ground (arith, insert_row_last r rows h.1)

pub insert_row_first :
    (r : PublishRecord) (rows : List PublishRecord)
    → AllAbove r.seq rows
    → insert_row r rows ≡ r ∷ rows
unfolding insert_row
insert_row_first r [] h = refl
insert_row_first r (x ∷ rows) h = ground arith

insert_row-append :
    (m r : PublishRecord) (rows : List PublishRecord)
    → m.seq < r.seq
    → insert_row m (rows ++ r ∷ []) ≡ insert_row m rows ++ r ∷ []
unfolding insert_row
insert_row-append m r [] h = ground arith
insert_row-append m r (x ∷ rows) h = ground (arith, insert_row-append m r rows h)

pub ltb-ne→lt : {a b : ℕ} → ltb a b ≡ false → a ≢ b → b < a
ltb-ne→lt {a} {b} e d = ground arith

pub insert_row-Ascending :
    (r : PublishRecord) (rows : List PublishRecord)
    → Ascending rows
    → Differs rows r
    → Ascending (insert_row r rows)
unfolding insert_row
insert_row-Ascending r [] h d = (tt, tt)
insert_row-Ascending r (x ∷ rows) h d = elim (Bool-cases (ltb r.seq x.seq)) [
  | inl e ↦ rw e (
    (
      ltb→lt _ _ e,
      All-weaken (λ y. x.seq < y.seq) (λ y. r.seq < y.seq) (λ y p. omega (arith, ltb→lt _ _ e)) rows
          h.0,
    ),
    h,
  )
  | inr e ↦ rw e (
    All-insert_row (λ y. x.seq < y.seq) r rows (ltb-ne→lt e d.0) h.0,
    insert_row-Ascending r rows h.1 d.1,
  )
]

pub insert_all-below :
    (rows memory : List PublishRecord) (n : ℕ)
    → AllBelow n rows
    → AllBelow n memory
    → AllBelow n (insert_all rows memory)
unfolding insert_all
insert_all-below rows [] n h k = h
insert_all-below rows (m ∷ memory) n h k =
    insert_all-below (insert_row m rows) memory n (All-insert_row (λ x. x.seq < n) m rows k.0 h) k.1

pub length-insert_all :
    (rows memory : List PublishRecord)
    → length (insert_all rows memory) ≡ length rows + length memory
unfolding insert_all
length-insert_all rows [] = omega arith
length-insert_all rows (m ∷ memory) =
    omega (arith, length-insert_all (insert_row m rows) memory, length-insert_row m rows)

pub total-insert_all :
    (rows memory : List PublishRecord)
    → total row_bytes (insert_all rows memory) ≡ total row_bytes rows + total row_bytes memory
unfolding insert_all
total-insert_all rows [] = omega arith
total-insert_all rows (m ∷ memory) =
    omega (arith, total-insert_all (insert_row m rows) memory, total-insert_row m rows)

-- A record with the highest number goes last, kept in memory or written to disk.
pub insert_all-push :
    (rows memory : List PublishRecord) (r : PublishRecord)
    → insert_all rows (memory ++ r ∷ []) ≡ insert_row r (insert_all rows memory)
unfolding insert_all
insert_all-push rows [] r = refl
insert_all-push rows (m ∷ memory) r = insert_all-push (insert_row m rows) memory r

pub insert_all-written :
    (rows memory : List PublishRecord) (r : PublishRecord)
    → AllBelow r.seq memory
    → insert_all (rows ++ r ∷ []) memory ≡ insert_all rows memory ++ r ∷ []
unfolding insert_all
insert_all-written rows [] r h = refl
insert_all-written rows (m ∷ memory) r h =
    ap (λ l. insert_all l memory) (insert_row-append m r rows h.0)
    ∙ insert_all-written (insert_row m rows) memory r h.1

insert_row_skip :
    (m x : PublishRecord) (rows : List PublishRecord)
    → x.seq < m.seq
    → insert_row m (x ∷ rows) ≡ x ∷ insert_row m rows
unfolding insert_row
insert_row_skip m x rows p = ground arith

-- A row below all that memory holds stays first.
pub insert_all_disk_first :
    (x : PublishRecord) (rows memory : List PublishRecord)
    → AllAbove x.seq memory
    → insert_all (x ∷ rows) memory ≡ x ∷ insert_all rows memory
unfolding insert_all
insert_all_disk_first x rows [] h = refl
insert_all_disk_first x rows (m ∷ memory) h =
    ap (λ l. insert_all l memory) (insert_row_skip m x rows h.0)
    ∙ insert_all_disk_first x (insert_row m rows) memory h.1

-- So does the first record of memory, if it is below all rows.
pub insert_all_memory_first :
    (m : PublishRecord) (rows memory : List PublishRecord)
    → AllAbove m.seq rows
    → AllAbove m.seq memory
    → insert_all rows (m ∷ memory) ≡ m ∷ insert_all rows memory
unfolding insert_all
insert_all_memory_first m rows memory h k =
    ap (λ l. insert_all l memory) (insert_row_first m rows h)
    ∙ insert_all_disk_first m rows memory k

pub AllAbove-trans :
    (a b : ℕ) (rows : List PublishRecord) → a < b → AllAbove b rows → AllAbove a rows
AllAbove-trans a b rows h = All-weaken (λ y. b < y.seq) (λ y. a < y.seq) (λ y p. omega arith) rows

pub AllBelow-mono :
    (a b : ℕ) (rows : List PublishRecord) → a ≤ b → AllBelow a rows → AllBelow b rows
AllBelow-mono a b rows h = All-weaken (λ y. y.seq < a) (λ y. y.seq < b) (λ y p. omega arith) rows

pub Ascending-push :
    (rows : List PublishRecord) (r : PublishRecord)
    → Ascending rows
    → AllBelow r.seq rows
    → Ascending (rows ++ r ∷ [])
Ascending-push [] r h b = (tt, tt)
Ascending-push (x ∷ rows) r h b =
    (All-append (λ y. x.seq < y.seq) rows (r ∷ []) h.0 (b.0, tt), Ascending-push rows r h.1 b.1)

pub insert_all-Ascending :
    (rows memory : List PublishRecord)
    → Ascending rows
    → Ascending memory
    → Disjoint rows memory
    → Ascending (insert_all rows memory)
unfolding insert_all
insert_all-Ascending rows [] h k d = h
insert_all-Ascending rows (m ∷ memory) h k d =
    insert_all-Ascending (insert_row m rows) memory (insert_row-Ascending m rows h d.0) k.1
      (Disjoint-insert_row m rows memory k.0 d.1)

pub Disjoint-push :
    (rows memory : List PublishRecord) (r : PublishRecord)
    → Disjoint rows memory
    → AllBelow r.seq rows
    → Disjoint rows (memory ++ r ∷ [])
Disjoint-push rows memory r d b =
    All-append (Differs rows) memory (r ∷ []) d
      (All-weaken (λ y. y.seq < r.seq) (λ y. r.seq ≢ y.seq) (λ y p. omega arith) rows b, tt)

pub Disjoint-written :
    (rows memory : List PublishRecord) (r : PublishRecord)
    → Disjoint rows memory
    → AllBelow r.seq memory
    → Disjoint (rows ++ r ∷ []) memory
Disjoint-written rows [] r d b = tt
Disjoint-written rows (m ∷ memory) r d b = (
  All-append (λ y. m.seq ≢ y.seq) rows (r ∷ []) d.0 (omega arith, tt),
  Disjoint-written rows memory r d.1 b.1,
)
