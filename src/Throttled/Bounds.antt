-- ===== src/Throttled/Bounds.antt =====
-- What the throttled queue keeps: order, concurrency, and that no item is left waiting without cause.
use uns_kit.Kit.{
  ℕ, zero, suc, ◌-◌, ◌≤◌, ◌<◌, ◌≡◌, refl, sym, ◌∙◌, inl, inr, true, false, ◌&&◌, ◌||◌, not, List,
  [], ◌∷◌, ◌++◌, length, ltb, leb, arith, Bool-cases, if_both, if_each, length-append,
}
use uns_kit.Throttled.{
  Throttled, is_nil, can_start, shift_item, start_next, save_queue, drive, process_queue,
  delay_elapsed, remember, after_item, item_done, push_item, start_left, start_active, remove_at,
}

module _ {A : Type 0} where
  -- The concurrency is bounded and counted, and the loop runs between two calls only while it awaits its
  -- delay.
  pub record Ready (q : Throttled A) : Type 0 where
    pub counted : q.in_flight ≡ length q.running
    pub bounded : q.in_flight ≤ q.max_concurrency
    pub suspended : q.is_processing ≡ q.delaying
    pub few : length q.last_processed ≤ 10

  -- And an item waits only for a free place, for the delay, or because the queue is passive.
  pub record Sound (q : Throttled A) : Type 0 where
    pub ready : Ready q
    pub busy : (q.active && not q.delaying && can_start q) ≡ false

  -- What holds inside the loop.
  pub record Looping (q : Throttled A) : Type 0 where
    pub counted : q.in_flight ≡ length q.running
    pub bounded : q.in_flight ≤ q.max_concurrency
    pub processing : q.is_processing ≡ true
    pub not_delaying : q.delaying ≡ false
    pub few : length q.last_processed ≤ 10

  length-snoc : (xs : List A) (x : A) → length (xs ++ x ∷ []) ≡ suc (length xs)
  length-snoc xs x = length-append xs (x ∷ []) ∙ omega arith

  shift_item-Looping :
      (q : Throttled A) (xs : List A)
      → ltb q.in_flight q.max_concurrency ≡ true
      → Looping q
      → Looping (shift_item xs q)
  unfolding shift_item
  shift_item-Looping q [] c h = h
  shift_item-Looping q (x ∷ xs) c h = record {
    counted = omega (arith, length-snoc q.running x, h.counted);
    bounded = ground arith;
    processing = h.processing;
    not_delaying = h.not_delaying;
    few = h.few;
  }

  save_queue-Looping : (q : Throttled A) → Looping q → Looping (save_queue q)
  unfolding save_queue
  save_queue-Looping q h = ground arith

  start_next-Looping : (q : Throttled A) → can_start q ≡ true → Looping q → Looping (start_next q)
  unfolding start_next
  start_next-Looping q c h =
      save_queue-Looping (shift_item q.queue q) (shift_item-Looping q q.queue (ground arith) h)

  pub length-start_next :
      (q : Throttled A) → can_start q ≡ true → length q.queue ≡ suc (length (start_next q).queue)
  unfolding start_next shift_item save_queue
  length-start_next q c = ground arith

  drive-Sound :
      (fuel : ℕ) (q : Throttled A) → length q.queue < fuel → Looping q → Sound (drive fuel q)
  unfolding drive
  drive-Sound zero q f h = absurd (omega arith)
  drive-Sound (suc fuel) q f h = elim (Bool-cases (can_start q && q.active)) [
    | inl go ↦
        let c : can_start q ≡ true = ground arith in
        let next = start_next-Looping q c h in
        let rest = drive-Sound fuel (start_next q) (omega (arith, length-start_next q c)) next in
        rw (go, drive)
          (if_both (λ z. Sound z) (ltb 0 q.delay && can_start (start_next q))
            (record (start_next q) { delaying = true }) (drive fuel (start_next q))
            (record {
              ready = record {
                counted = next.counted;
                bounded = next.bounded;
                suspended = next.processing;
                few = next.few;
              };
              busy = ground arith;
            })
            rest)
    | inr stop ↦
        rw (stop, drive)
          (record {
            ready = record {
              counted = h.counted;
              bounded = h.bounded;
              suspended = sym h.not_delaying;
              few = h.few;
            };
            busy = ground arith;
          })
  ]

  process_queue-Sound : (q : Throttled A) → Ready q → Sound (process_queue q)
  unfolding process_queue
  process_queue-Sound q h =
      if_each (λ z. Sound z) (q.is_processing || not q.active) q
        (drive (suc (length q.queue)) (record q { is_processing = true }))
        (λ stays. record { ready = h; busy = ground (arith, h.suspended, stays) })
        (λ goes.
          drive-Sound (suc (length q.queue)) (record q { is_processing = true }) (omega arith)
            (record {
              counted = h.counted;
              bounded = h.bounded;
              processing = refl;
              not_delaying = ground (arith, h.suspended, goes);
              few = h.few;
            }))

  pub delay_elapsed-Sound : (q : Throttled A) → Sound q → Sound (delay_elapsed q)
  unfolding delay_elapsed
  delay_elapsed-Sound q h =
      if_each (λ z. Sound z) q.delaying
        (drive (suc (length q.queue)) (record q { delaying = false })) q
        (λ goes.
          drive-Sound (suc (length q.queue)) (record q { delaying = false }) (omega arith)
            (record {
              counted = h.ready.counted;
              bounded = h.ready.bounded;
              processing = h.ready.suspended ∙ goes;
              not_delaying = refl;
              few = h.ready.few;
            }))
        (λ stays. h)

  start_left-Sound : (q : Throttled A) → Ready q → Sound (start_left q)
  unfolding start_left
  start_left-Sound q h =
      if_each (λ z. Sound z) (q.active && not (is_nil q.queue)) (process_queue q) q
        (λ goes. process_queue-Sound q h)
        (λ stays. record { ready = h; busy = ground (arith, stays) })

  start_active-Sound : (q : Throttled A) → Ready q → Sound (start_active q)
  unfolding start_active
  start_active-Sound q h =
      if_each (λ z. Sound z) q.active (process_queue q) q (λ goes. process_queue-Sound q h)
        (λ stays. record { ready = h; busy = ground (arith, stays) })

  length-remove_at :
      (n : ℕ) (xs : List A) → n < length xs → suc (length (remove_at n xs)) ≡ length xs
  length-remove_at n [] l = absurd (omega arith)
  length-remove_at zero (x ∷ xs) l = omega arith
  length-remove_at (suc n) (x ∷ xs) l =
      let rest = length-remove_at n xs (omega arith) in omega arith

  remember-few : (x : A) (xs : List A) → length xs ≤ 10 → length (remember x xs) ≤ 10
  remember-few x [] l = ground arith
  remember-few x (y ∷ ys) l = elim (Bool-cases (leb 10 (length (y ∷ ys)))) [
    | inl big ↦ rw big (omega (arith, length-snoc ys x))
    | inr small ↦ rw small (let e = length-snoc (y ∷ ys) x in ground arith)
  ]

  save_queue-Ready : (q : Throttled A) → Ready q → Ready (save_queue q)
  unfolding save_queue
  save_queue-Ready q h = ground arith

  pub after_item-Sound :
      (place : ℕ) (q : Throttled A)
      → place < length q.running
      → Ready q
      → Sound (after_item place q)
  unfolding after_item
  after_item-Sound place q l h =
      start_left-Sound
        (save_queue (record q { in_flight = q.in_flight - 1; running = remove_at place q.running }))
        (save_queue-Ready
          (record q { in_flight = q.in_flight - 1; running = remove_at place q.running })
          (record {
            counted = omega (arith, length-remove_at place q.running l, h.counted);
            bounded = omega (arith, h.bounded);
            suspended = h.suspended;
            few = h.few;
          }))

  pub item_done-Sound :
      (place : ℕ) (item : A) (q : Throttled A)
      → place < length q.running
      → Ready q
      → Sound (item_done place item q)
  unfolding item_done
  item_done-Sound place item q l h =
      after_item-Sound place (record q { last_processed = remember item q.last_processed }) l
        (record {
          counted = h.counted;
          bounded = h.bounded;
          suspended = h.suspended;
          few = remember-few item q.last_processed h.few;
        })

  pub push_item-Sound : (item : A) (q : Throttled A) → Ready q → Sound (push_item item q)
  unfolding push_item
  push_item-Sound item q h =
      start_active-Sound (save_queue (record q { queue = q.queue ++ item ∷ [] })) (
        save_queue-Ready (record q { queue = q.queue ++ item ∷ [] })
          (record {
            counted = h.counted;
            bounded = h.bounded;
            suspended = h.suspended;
            few = h.few;
          }))
