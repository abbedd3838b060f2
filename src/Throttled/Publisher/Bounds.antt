-- ===== src/Throttled/Publisher/Bounds.antt =====
-- How many publish requests are pending in the bounded publisher of throttled-queue.ts.
use uns_kit.Kit.{
  ℕ, zero, suc, ◌-◌, ◌≤◌, ◌≡◌, refl, ◌∙◌, true, false, ◌&&◌, ◌||◌, not, Option, none, some, List,
  [], ◌∷◌, ◌++◌, String, length, ltb, arith, if_both, length-append, length-drop,
}
use uns_kit.Throttled.{
  Throttled, is_nil, can_start, shift_item, start_next, save_queue, drive, process_queue,
  delay_elapsed, pending_count, remember, after_item, item_done, push_item, start_left,
  start_active, remove_at,
}
use uns_kit.Throttled.Publisher.{
  Snapshot, batch_of, resume_index, from_index, resumed_queue, activate,
}

module _ {A : Type 0} where
  pending_count-shift_item :
      (q : Throttled A) (xs : List A)
      → q.queue ≡ xs
      → pending_count (shift_item xs q) ≡ pending_count q
  unfolding pending_count shift_item
  pending_count-shift_item q [] e = refl
  pending_count-shift_item q (x ∷ xs) e = ground (arith, e)

  pending_count-save_queue : (q : Throttled A) → pending_count (save_queue q) ≡ pending_count q
  unfolding pending_count save_queue
  pending_count-save_queue q = ground arith

  pending_count-start_next : (q : Throttled A) → pending_count (start_next q) ≡ pending_count q
  unfolding start_next
  pending_count-start_next q =
      pending_count-save_queue (shift_item q.queue q) ∙ pending_count-shift_item q q.queue refl

  pending_count-drive :
      (fuel : ℕ) (q : Throttled A) → pending_count (drive fuel q) ≡ pending_count q
  unfolding drive pending_count
  pending_count-drive zero q = refl
  pending_count-drive (suc fuel) q =
      let same = pending_count-start_next q in
      if_both (λ z. pending_count z ≡ pending_count q) (can_start q && q.active) _
        (record q { is_processing = false })
        (if_both (λ z. pending_count z ≡ pending_count q)
          (ltb 0 q.delay && can_start (start_next q)) (record (start_next q) { delaying = true })
          (drive fuel (start_next q)) same (pending_count-drive fuel (start_next q) ∙ same))
        refl

  pending_count-process_queue :
      (q : Throttled A) → pending_count (process_queue q) ≡ pending_count q
  unfolding process_queue pending_count
  pending_count-process_queue q =
      if_both (λ z. pending_count z ≡ pending_count q) (q.is_processing || not q.active) q _ refl
        (pending_count-drive (suc (length q.queue)) (record q { is_processing = true }))

  pub pending_count-delay_elapsed :
      (q : Throttled A) → pending_count (delay_elapsed q) ≡ pending_count q
  unfolding delay_elapsed pending_count
  pending_count-delay_elapsed q =
      if_both (λ z. pending_count z ≡ pending_count q) q.delaying _ q
        (pending_count-drive (suc (length q.queue)) (record q { delaying = false })) refl

  pub pending_count-item_done :
      (place : ℕ) (item : A) (q : Throttled A)
      → pending_count (item_done place item q) ≤ pending_count q
  unfolding item_done after_item start_left pending_count
  pending_count-item_done place item q =
      let done : Throttled A = record q {
        last_processed = remember item q.last_processed;
        in_flight = q.in_flight - 1;
        running = remove_at place q.running;
      } in
      let left : pending_count (save_queue done) ≤ pending_count q =
        omega (arith, pending_count-save_queue done) in
      if_both (λ z. pending_count z ≤ pending_count q)
        ((save_queue done).active && not (is_nil (save_queue done).queue))
        (process_queue (save_queue done)) (save_queue done)
        (omega (arith, left, pending_count-process_queue (save_queue done))) left

  pub pending_count-push_item :
      (item : A) (q : Throttled A) → pending_count (push_item item q) ≡ suc (pending_count q)
  unfolding push_item start_active pending_count
  pending_count-push_item item q =
      let more : Throttled A = record q { queue = q.queue ++ item ∷ [] } in
      let one : pending_count (save_queue more) ≡ suc (pending_count q) =
        omega (arith, pending_count-save_queue more, length-append q.queue (item ∷ [])) in
      if_both (λ z. pending_count z ≡ suc (pending_count q)) (save_queue more).active
        (process_queue (save_queue more)) (save_queue more)
        (pending_count-process_queue (save_queue more) ∙ one) one

  length-resumed_queue :
      (hash : List A → String) (batch : Option (String × ℕ)) (xs : List A)
      → length (resumed_queue hash batch xs) ≤ length xs
  length-resumed_queue hash none xs = omega arith
  length-resumed_queue hash (some batch) xs = from (resume_index hash batch.0 batch.1 0 xs)
    where
      from : (index : Option ℕ) → length (from_index hash index xs) ≤ length xs
      from none = omega arith
      from (some index) = omega (arith, length-drop index xs)

  pub pending_count-activate :
      (hash : List A → String) (snapshot : Snapshot) (q : Throttled A)
      → pending_count (activate hash snapshot q) ≤ pending_count q
  unfolding activate pending_count
  pending_count-activate hash snapshot q = omega (
    arith,
    length-resumed_queue hash (batch_of snapshot) q.queue,
    pending_count-process_queue
        (record q { queue = resumed_queue hash (batch_of snapshot) q.queue; active = true }),
  )
