-- ===== src/Throttled/Publisher/Resume.antt =====
-- Where the queues of throttled-queue.ts resume after a handover.
use mathlib.Core.List.{append_assoc}
use uns_kit.Kit.{
  ℕ, zero, suc, ◌+◌, ◌<◌, ◌≡◌, refl, sym, ap, ◌∙◌, true, false, some, List, [], ◌∷◌, ◌++◌, String,
  length, drop, take, le→leb, ◌===◌, eq_iff, arith, length-append,
}
use uns_kit.Throttled.{Throttled}
use uns_kit.Throttled.Order.{flow, flow-process_queue}
use uns_kit.Throttled.Publisher.{
  batch_of, resume_index, from_index, resumed_queue, activate, snapshot_of,
}

module _ {A : Type 0} (hash : List A → String) where
  take_append : (xs ys : List A) → take (length xs) (xs ++ ys) ≡ xs
  take_append [] ys = refl
  take_append (x ∷ xs) ys = ap (λ zs. x ∷ zs) (take_append xs ys)

  drop_append : (xs ys : List A) (n : ℕ) → n ≡ length xs → drop n (xs ++ ys) ≡ ys
  drop_append [] ys zero e = refl
  drop_append [] ys (suc n) e = absurd (omega (arith, e))
  drop_append (x ∷ xs) ys zero e = absurd (omega (arith, e))
  drop_append (x ∷ xs) ys (suc n) e = drop_append xs ys n (omega (arith, e))

  -- No window that starts before the batch has its hash.
  abbrev pub First : List A → List A → List A → Type 0
  First before batch after =
      (k : ℕ)
      → k < length before
      → (hash (take (length batch) (drop k (before ++ (batch ++ after)))) === hash batch) ≡ false

  resume_index-here :
      (batch after items : List A) (start : ℕ)
      → 0 < length batch
      → items ≡ batch ++ after
      → resume_index hash (hash batch) (length batch) start items ≡ some (start + length batch)
  unfolding resume_index
  resume_index-here batch after [] start l e =
      absurd (omega (arith, l, ap (λ ys. length ys) e, length-append batch after))
  resume_index-here batch after (x ∷ xs) start l e =
      let fits =
        le→leb (length batch) (length (x ∷ xs))
          (omega (arith, ap (λ ys. length ys) e, length-append batch after)) in
      let same =
        ap (λ ys. hash (take (length batch) ys)) e ∙ ap (λ ys. hash ys) (take_append batch after) in
      rw (fits, (eq_iff _ _).1 same) refl

  resume_index-First :
      (before batch after : List A) (start : ℕ)
      → 0 < length batch
      → First before batch after
      → resume_index hash (hash batch) (length batch) start (before ++ (batch ++ after))
        ≡ some (start + length before + length batch)
  unfolding resume_index
  resume_index-First [] batch after start l first =
      resume_index-here batch after (batch ++ after) start l refl ∙ ap (λ n. some n) (omega arith)
  resume_index-First (x ∷ before) batch after start l first =
      let fits =
        le→leb (length batch) (length (x ∷ (before ++ (batch ++ after))))
          (omega (arith, length-append before (batch ++ after), length-append batch after)) in
      rw (fits, first 0 (omega arith))
        (resume_index-First before batch after (suc start) l
            (λ k m. first (suc k) (omega (arith, m)))
          ∙ ap (λ n. some n) (omega arith))

  batch_of-snapshot :
      (batch : List A)
      → 0 < length batch
      → batch_of (snapshot_of hash batch) ≡ some (hash batch, length batch)
  unfolding snapshot_of
  batch_of-snapshot [] l = absurd (omega (arith, l))
  batch_of-snapshot (x ∷ xs) l = refl

  -- A queue that holds the batch of the snapshot, and before it no window of the same hash, resumes right after
  -- the batch: what was called before, then what follows the batch, is all that is ever called or waits.
  pub flow-activate :
      (q : Throttled A) (before batch after : List A)
      → q.queue ≡ before ++ (batch ++ after)
      → 0 < length batch
      → First before batch after
      → flow (activate hash (snapshot_of hash batch) q) ≡ q.calls ++ after
  unfolding activate flow
  flow-activate q before batch after e l first =
      let at = resume_index-First before batch after 0 l first in
      let resumed : resumed_queue hash (batch_of (snapshot_of hash batch)) q.queue ≡ after =
        ap (λ b. resumed_queue hash b q.queue) (batch_of-snapshot batch l)
        ∙ ap (λ ys. from_index hash (resume_index hash (hash batch) (length batch) 0 ys) ys) e
        ∙ ap (λ i. from_index hash i (before ++ (batch ++ after))) at
        ∙ ap (λ ys. drop (0 + length before + length batch) ys)
            (sym (append_assoc before batch after))
        ∙ drop_append (before ++ batch) after (0 + length before + length batch)
            (omega (arith, length-append before batch)) in
      flow-process_queue (record q {
        queue = resumed_queue hash (batch_of (snapshot_of hash batch)) q.queue;
        active = true;
      })
      ∙ ap (λ ys. q.calls ++ ys) resumed
