-- ===== src/Throttled.antt =====
-- `ThrottledQueue` (packages/uns-core/src/uns-mqtt/throttled-queue.ts), the queue that the throttled
-- publisher and subscriber extend. What runs between two awaits is one step. `calls` are the calls of
-- `processItem` in their order, `running` those that have not returned, and `saved` the items in the
-- persistence file; a log line is output only. The file is read by nothing here: the constructor looks
-- for it before the subclass has set its path.
pub mod Bounds
pub mod Order
pub mod Machine
pub mod Ends
pub mod Publisher
pub mod Subscriber
mod Tests
use uns_kit.Kit.{
  ℕ, zero, suc, ◌+◌, ◌-◌, Bool, true, false, ◌&&◌, ◌||◌, not, Option, none, some, List, [], ◌∷◌,
  ◌++◌, length, drop, ltb, leb, if◌then◌else◌,
}

pub record Throttled (A : Type 0) : Type 0 where
  pub queue : List A
  pub last_processed : List A
  pub is_processing : Bool
  pub in_flight : ℕ
  pub max_concurrency : ℕ
  pub delay : ℕ
  pub persist_to_disk : Bool
  pub active : Bool
  pub delaying : Bool
  pub running : List A
  pub calls : List A
  pub saved : Option (List A)

abbrev pub is_nil : {A : Type 0} → List A → Bool
is_nil [] = true
is_nil (x ∷ xs) = false

-- `items.slice(-n)`, which is all of them at 0.
abbrev pub slice_last : {A : Type 0} → ℕ → List A → List A
slice_last zero xs = xs
slice_last (suc n) xs = drop (length xs - suc n) xs

-- An element leaves a list by its place.
abbrev pub remove_at : {A : Type 0} → ℕ → List A → List A
remove_at n [] = []
remove_at zero (x ∷ xs) = xs
remove_at (suc n) (x ∷ xs) = x ∷ remove_at n xs

module _ {A : Type 0} where
  -- `new ThrottledQueue`, with `active` as the subclass sets it.
  unfoldable pub new_throttled : ℕ → Bool → ℕ → Bool → Throttled A
  new_throttled delay persist_to_disk max_concurrency active = record {
    queue = [];
    last_processed = [];
    is_processing = false;
    in_flight = 0;
    max_concurrency = if ltb max_concurrency 1 then 1 else max_concurrency;
    delay = delay;
    persist_to_disk = persist_to_disk;
    active = active;
    delaying = false;
    running = [];
    calls = [];
    saved = none;
  }

  unfoldable pub pending_count : Throttled A → ℕ
  pending_count q = length q.queue + q.in_flight

  unfoldable pub save_queue : Throttled A → Throttled A
  save_queue q = if q.persist_to_disk then record q { saved = some q.queue } else q

  -- `queue.length > 0 && inFlight < maxConcurrency`
  abbrev pub can_start : Throttled A → Bool
  can_start q = not (is_nil q.queue) && ltb q.in_flight q.max_concurrency

  -- `queue.shift()`, and the call of `processItem`.
  unfoldable pub shift_item : List A → Throttled A → Throttled A
  shift_item [] q = q
  shift_item (item ∷ rest) q = record q {
    queue = rest;
    in_flight = q.in_flight + 1;
    running = q.running ++ item ∷ [];
    calls = q.calls ++ item ∷ [];
  }

  unfoldable pub start_next : Throttled A → Throttled A
  unfolding save_queue shift_item
  start_next q = save_queue (shift_item q.queue q)

  -- The `while` of `processQueue`, to its end or to the await of the delay. At its end `finally` tests
  -- again what ended the loop, so it calls nothing.
  unfoldable pub drive : ℕ → Throttled A → Throttled A
  unfolding start_next
  drive zero q = q
  drive (suc fuel) q =
      let more = drive fuel (start_next q) in
      if can_start q && q.active
      then (if ltb 0 q.delay && can_start (start_next q)
          then record (start_next q) { delaying = true }
          else more)
      else record q { is_processing = false }

  unfoldable pub process_queue : Throttled A → Throttled A
  unfolding drive
  process_queue q =
      if q.is_processing || not q.active
      then q
      else drive (suc (length q.queue)) (record q { is_processing = true })

  -- The timer of the delay: the loop goes on.
  unfoldable pub delay_elapsed : Throttled A → Throttled A
  unfolding drive
  delay_elapsed q =
      if q.delaying then drive (suc (length q.queue)) (record q { delaying = false }) else q

  -- Only the ten last items are kept.
  abbrev pub remember : A → List A → List A
  remember item items = (if leb 10 (length items) then drop 1 items else items) ++ item ∷ []

  -- What is left is started when the queue is active.
  unfoldable pub start_left : Throttled A → Throttled A
  unfolding process_queue
  start_left q = if q.active && not (is_nil q.queue) then process_queue q else q

  -- `finally` of `processItemWithBookkeeping`, of the call at `place`.
  unfoldable pub after_item : ℕ → Throttled A → Throttled A
  unfolding save_queue start_left
  after_item place q =
      start_left
        (save_queue (record q { in_flight = q.in_flight - 1; running = remove_at place q.running }))

  -- `processItem` returned.
  unfoldable pub item_done : ℕ → A → Throttled A → Throttled A
  unfolding after_item
  item_done place item q =
      after_item place (record q { last_processed = remember item q.last_processed })

  -- A new item at the end of the queue, which is started when the queue is active.
  unfoldable pub start_active : Throttled A → Throttled A
  unfolding process_queue
  start_active q = if q.active then process_queue q else q

  unfoldable pub push_item : A → Throttled A → Throttled A
  unfolding save_queue start_active
  push_item item q = start_active (save_queue (record q { queue = q.queue ++ item ∷ [] }))
