-- ===== src/Throttled/Order.antt =====
-- The order in which `processItem` of throttled-queue.ts is called.
use mathlib.Core.List.{append_assoc}
use uns_kit.Kit.{
  ℕ, zero, suc, ◌-◌, ◌≡◌, refl, sym, ap, ◌∙◌, true, false, some, ◌&&◌, ◌||◌, not, List, [], ◌∷◌,
  ◌++◌, length, ltb, if_both,
}
use uns_kit.Throttled.{
  Throttled, is_nil, can_start, shift_item, start_next, save_queue, drive, process_queue,
  delay_elapsed, remember, after_item, item_done, push_item, start_left, start_active, remove_at,
}

module _ {A : Type 0} where
  -- All items in their order: those that were called, and those that wait.
  unfoldable pub flow : Throttled A → List A
  flow q = q.calls ++ q.queue

  flow-shift_item : (q : Throttled A) (xs : List A) → q.queue ≡ xs → flow (shift_item xs q) ≡ flow q
  unfolding flow shift_item
  flow-shift_item q [] e = refl
  flow-shift_item q (x ∷ xs) e = append_assoc q.calls (x ∷ []) xs ∙ ap (λ ys. q.calls ++ ys) (sym e)

  flow-save_queue : (q : Throttled A) → flow (save_queue q) ≡ flow q
  unfolding flow save_queue
  flow-save_queue q =
      if_both (λ z. flow z ≡ flow q) q.persist_to_disk (record q { saved = some q.queue }) q refl
        refl

  flow-start_next : (q : Throttled A) → flow (start_next q) ≡ flow q
  unfolding start_next
  flow-start_next q = flow-save_queue (shift_item q.queue q) ∙ flow-shift_item q q.queue refl

  flow-drive : (fuel : ℕ) (q : Throttled A) → flow (drive fuel q) ≡ flow q
  unfolding drive flow
  flow-drive zero q = refl
  flow-drive (suc fuel) q =
      let same = flow-start_next q in
      if_both (λ z. flow z ≡ flow q) (can_start q && q.active) _
        (record q { is_processing = false })
        (if_both (λ z. flow z ≡ flow q) (ltb 0 q.delay && can_start (start_next q))
          (record (start_next q) { delaying = true }) (drive fuel (start_next q)) same
          (flow-drive fuel (start_next q) ∙ same))
        refl

  pub flow-process_queue : (q : Throttled A) → flow (process_queue q) ≡ flow q
  unfolding process_queue flow
  flow-process_queue q =
      if_both (λ z. flow z ≡ flow q) (q.is_processing || not q.active) q _ refl
        (flow-drive (suc (length q.queue)) (record q { is_processing = true }))

  pub flow-delay_elapsed : (q : Throttled A) → flow (delay_elapsed q) ≡ flow q
  unfolding delay_elapsed flow
  flow-delay_elapsed q =
      if_both (λ z. flow z ≡ flow q) q.delaying _ q
        (flow-drive (suc (length q.queue)) (record q { delaying = false })) refl

  flow-start_left : (q : Throttled A) → flow (start_left q) ≡ flow q
  unfolding start_left
  flow-start_left q =
      if_both (λ z. flow z ≡ flow q) (q.active && not (is_nil q.queue)) (process_queue q) q
        (flow-process_queue q) refl

  pub flow-start_active : (q : Throttled A) → flow (start_active q) ≡ flow q
  unfolding start_active
  flow-start_active q =
      if_both (λ z. flow z ≡ flow q) q.active (process_queue q) q (flow-process_queue q) refl

  pub flow-after_item : (place : ℕ) (q : Throttled A) → flow (after_item place q) ≡ flow q
  unfolding after_item flow
  flow-after_item place q =
      let left : Throttled A = record q {
        in_flight = q.in_flight - 1;
        running = remove_at place q.running;
      } in
      flow-start_left (save_queue left) ∙ flow-save_queue left

  pub flow-item_done :
      (place : ℕ) (item : A) (q : Throttled A) → flow (item_done place item q) ≡ flow q
  unfolding item_done flow
  flow-item_done place item q =
      flow-after_item place (record q { last_processed = remember item q.last_processed })

  pub flow-push_item : (item : A) (q : Throttled A) → flow (push_item item q) ≡ flow q ++ item ∷ []
  unfolding push_item flow
  flow-push_item item q =
      let pushed : Throttled A = record q { queue = q.queue ++ item ∷ [] } in
      flow-start_active (save_queue pushed)
      ∙ flow-save_queue pushed
      ∙ sym (append_assoc q.calls q.queue (item ∷ []))
