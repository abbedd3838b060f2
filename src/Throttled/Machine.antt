-- ===== src/Throttled/Machine.antt =====
-- The throttled queue of throttled-queue.ts as a machine: its calls and the ends of its awaits, in any order.
use mathlib.Core.List.{append-nil, append_assoc}
use uns_kit.Kit.{
  ℕ, zero, suc, ◌<◌, ◌≡◌, refl, sym, ap, ◌∙◌, false, Option, none, some, List, [], ◌∷◌, ◌++◌,
  length, get_elem?, arith,
}
use uns_kit.Throttled.{Throttled, delay_elapsed, after_item, item_done, push_item}
use uns_kit.Throttled.Bounds.{
  Sound, delay_elapsed-Sound, after_item-Sound, item_done-Sound, push_item-Sound,
}
use uns_kit.Throttled.Order.{
  flow, flow-delay_elapsed, flow-after_item, flow-item_done, flow-push_item,
}

-- `returned` and `threw` name a running call of `processItem` by its place.
pub data Event (A : Type 0) : Type 0 where
  pushed : A → Event A
  delay_over : Event A
  returned : ℕ → Event A
  threw : ℕ → Event A
  silenced : Event A

module _ {A : Type 0} where
  abbrev pub on_return : ℕ → Option A → Throttled A → Throttled A
  on_return place none q = q
  on_return place (some item) q = item_done place item q

  -- The error is logged, and the item is not remembered.
  abbrev pub on_throw : ℕ → Option A → Throttled A → Throttled A
  on_throw place none q = q
  on_throw place (some item) q = after_item place q

  unfoldable pub step : Event A → Throttled A → Throttled A
  unfolding push_item delay_elapsed item_done after_item
  step (pushed item) q = push_item item q
  step delay_over q = delay_elapsed q
  step (returned place) q = on_return place (get_elem? q.running place) q
  step (threw place) q = on_throw place (get_elem? q.running place) q
  step silenced q = record q { active = false }

  unfoldable pub run_events : List (Event A) → Throttled A → Throttled A
  unfolding step
  run_events [] q = q
  run_events (e ∷ es) q = run_events es (step e q)

  unfoldable pub pushed_items : List (Event A) → List A
  pushed_items [] = []
  pushed_items (pushed item ∷ es) = item ∷ pushed_items es
  pushed_items (delay_over ∷ es) = pushed_items es
  pushed_items (returned place ∷ es) = pushed_items es
  pushed_items (threw place ∷ es) = pushed_items es
  pushed_items (silenced ∷ es) = pushed_items es

  place_in_range : (xs : List A) (n : ℕ) (x : A) → get_elem? xs n ≡ some x → n < length xs
  place_in_range [] n x e = absurd (ground (arith, e))
  place_in_range (y ∷ ys) zero x e = omega arith
  place_in_range (y ∷ ys) (suc n) x e = let l = place_in_range ys n x e in omega arith

  on_return-Sound :
      (place : ℕ) (found : Option A) (q : Throttled A)
      → get_elem? q.running place ≡ found
      → Sound q
      → Sound (on_return place found q)
  on_return-Sound place none q e h = h
  on_return-Sound place (some item) q e h =
      item_done-Sound place item q (place_in_range q.running place item e) h.ready

  on_throw-Sound :
      (place : ℕ) (found : Option A) (q : Throttled A)
      → get_elem? q.running place ≡ found
      → Sound q
      → Sound (on_throw place found q)
  on_throw-Sound place none q e h = h
  on_throw-Sound place (some item) q e h =
      after_item-Sound place q (place_in_range q.running place item e) h.ready

  step-Sound : (e : Event A) (q : Throttled A) → Sound q → Sound (step e q)
  unfolding step
  step-Sound (pushed item) q h = push_item-Sound item q h.ready
  step-Sound delay_over q h = delay_elapsed-Sound q h
  step-Sound (returned place) q h = on_return-Sound place (get_elem? q.running place) q refl h
  step-Sound (threw place) q h = on_throw-Sound place (get_elem? q.running place) q refl h
  step-Sound silenced q h = record {
    ready = record {
      counted = h.ready.counted;
      bounded = h.ready.bounded;
      suspended = h.ready.suspended;
      few = h.ready.few;
    };
    busy = refl;
  }

  -- After any events the calls in flight are counted and within the limit, the loop is suspended only by its
  -- delay, no item waits without one of the three causes, and at most ten processed items are kept.
  pub run_events-Sound : (es : List (Event A)) (q : Throttled A) → Sound q → Sound (run_events es q)
  unfolding run_events
  run_events-Sound [] q h = h
  run_events-Sound (e ∷ es) q h = run_events-Sound es (step e q) (step-Sound e q h)

  flow-on_return :
      (place : ℕ) (found : Option A) (q : Throttled A) → flow (on_return place found q) ≡ flow q
  flow-on_return place none q = refl
  flow-on_return place (some item) q = flow-item_done place item q

  flow-on_throw :
      (place : ℕ) (found : Option A) (q : Throttled A) → flow (on_throw place found q) ≡ flow q
  flow-on_throw place none q = refl
  flow-on_throw place (some item) q = flow-after_item place q

  -- Whatever the order of calls, returns, errors and delays, the calls of the processor followed by the items
  -- that wait are what there was, followed by the pushed items in their order: none is lost, repeated or
  -- overtaken.
  pub flow-run_events :
      (es : List (Event A)) (q : Throttled A) → flow (run_events es q) ≡ flow q ++ pushed_items es
  unfolding run_events step pushed_items flow
  flow-run_events [] q = sym (append-nil (flow q))
  flow-run_events (pushed item ∷ es) q =
      flow-run_events es (push_item item q)
      ∙ ap (λ xs. xs ++ pushed_items es) (flow-push_item item q)
      ∙ append_assoc (flow q) (item ∷ []) (pushed_items es)
  flow-run_events (delay_over ∷ es) q =
      flow-run_events es (delay_elapsed q) ∙ ap (λ xs. xs ++ pushed_items es) (flow-delay_elapsed q)
  flow-run_events (returned place ∷ es) q =
      flow-run_events es (on_return place (get_elem? q.running place) q)
      ∙ ap (λ xs. xs ++ pushed_items es) (flow-on_return place (get_elem? q.running place) q)
  flow-run_events (threw place ∷ es) q =
      flow-run_events es (on_throw place (get_elem? q.running place) q)
      ∙ ap (λ xs. xs ++ pushed_items es) (flow-on_throw place (get_elem? q.running place) q)
  flow-run_events (silenced ∷ es) q = flow-run_events es (record q { active = false })
