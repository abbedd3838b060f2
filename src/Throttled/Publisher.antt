-- ===== src/Throttled/Publisher.antt =====
-- `ThrottledPublisher` (packages/uns-core/src/uns-mqtt/throttled-queue.ts): the bounded queue of publish
-- requests and the resume after a handover. The hash of a batch and the options are parameters. A settled
-- request is listed with the error of the publish function, if there was one. The text of the error of a full
-- queue is shortened.
pub mod Bounds
pub mod Resume
pub mod Machine
use uns_kit.Kit.{
  ℕ, zero, suc, ◌+◌, Bool, true, false, not, ◌&&◌, ◌||◌, Option, none, some, List, [], ◌∷◌, ◌++◌,
  String, length, get_elem?, drop, take, leb, ◌==◌, ◌===◌, is_empty, if◌then◌else◌, Result, ok, err,
  throw_if, ◌>>◌,
}
use uns_kit.Throttled.{
  Throttled, new_throttled, slice_last, process_queue, item_done, push_item, delay_elapsed,
  pending_count,
}

-- What a passive queue hands over. A missing field is `none`.
pub record Snapshot : Type 0 where
  pub reference_hash : Option String
  pub batch_size : Option ℕ

-- `batchSize === 0 || batchSize === undefined || referenceHash === undefined`, or the two fields.
abbrev pub batch_of : Snapshot → Option (String × ℕ)
batch_of snapshot = elim snapshot.reference_hash [
  | none ↦ none
  | some reference_hash ↦ elim snapshot.batch_size [
    | none ↦ none
    | some zero ↦ none
    | some (suc n) ↦ some (reference_hash, suc n)
  ]
]

module _ {A : Type 0} (compute_hash_for_batch : List A → String) where
  -- The loop over windows from `start` on, the items being those from there; a size is above zero.
  unfoldable pub resume_index : String → ℕ → ℕ → List A → Option ℕ
  resume_index reference_hash batch_size start [] = none
  resume_index reference_hash batch_size start (x ∷ xs) =
      let rest = resume_index reference_hash batch_size (suc start) xs in
      if leb batch_size (length (x ∷ xs))
      then (if compute_hash_for_batch (take batch_size (x ∷ xs)) === reference_hash
          then some (start + batch_size)
          else rest)
      else none

  -- The queue from which processing resumes: all of it when no window matches.
  abbrev pub from_index : Option ℕ → List A → List A
  from_index none queue = queue
  from_index (some index) queue = drop index queue

  abbrev pub resumed_queue : Option (String × ℕ) → List A → List A
  resumed_queue none queue = queue
  resumed_queue (some batch) queue = from_index (resume_index batch.0 batch.1 0 queue) queue

  -- `becomeActive`
  unfoldable pub activate : Snapshot → Throttled A → Throttled A
  unfolding resume_index process_queue
  activate snapshot q =
      process_queue (record q { queue = resumed_queue (batch_of snapshot) q.queue; active = true })

  -- The snapshot of a batch.
  unfoldable pub snapshot_of : List A → Snapshot
  snapshot_of batch = record {
    reference_hash = some (compute_hash_for_batch batch);
    batch_size = some (length batch);
  }

pub record PublisherQueueItem (O : Type 0) : Type 0 where
  pub topic : String
  pub message : String
  pub id : String
  pub options : O

pub record Publisher (O : Type 0) : Type 0 where
  pub base : Throttled (PublisherQueueItem O)
  pub instance_name : String
  pub max_pending_publishes : Option ℕ
  pub settled : List (PublisherQueueItem O × Option String)

abbrev pub is_full : Option ℕ → ℕ → Bool
is_full none pending = false
is_full (some limit) pending = leb limit pending

module _ {O : Type 0} where
  unfoldable pub new_publisher : ℕ → Bool → String → Bool → ℕ → Option ℕ → Publisher O
  unfolding new_throttled
  new_publisher delay persist_to_disk instance_name active max_concurrency max_pending_publishes =
      record {
        base = new_throttled delay persist_to_disk max_concurrency active;
        instance_name = instance_name;
        max_pending_publishes = max_pending_publishes;
        settled = [];
      }

  unfoldable pub assert_can_accept_publish : Publisher O → Result (Unit {0})
  unfolding pending_count
  assert_can_accept_publish p =
      throw_if (is_full p.max_pending_publishes (pending_count p.base)) "Publisher queue is full."

  unfoldable pub enqueue_accepted_publish : PublisherQueueItem O → Publisher O → Publisher O
  unfolding push_item
  enqueue_accepted_publish item p = record p { base = push_item item p.base }

  -- `enqueueOrThrow`, and `enqueue`, which rejects with the error that the other throws.
  unfoldable pub enqueue_or_throw : PublisherQueueItem O → Publisher O → Result (Publisher O)
  unfolding assert_can_accept_publish enqueue_accepted_publish
  enqueue_or_throw item p = assert_can_accept_publish p >> ok (enqueue_accepted_publish item p)

  -- `processItem` ends, without an error in either case: it settles the request.
  abbrev pub settle : ℕ → Option String → Option (PublisherQueueItem O) → Publisher O → Publisher O
  settle place problem none p = p
  settle place problem (some item) p = record p {
    base = item_done place item p.base;
    settled = p.settled ++ (item, problem) ∷ [];
  }

  unfoldable pub publish_ended : ℕ → Option String → Publisher O → Publisher O
  unfolding item_done
  publish_ended place problem p = settle place problem (get_elem? p.base.running place) p

  unfoldable pub publish_delay_elapsed : Publisher O → Publisher O
  unfolding delay_elapsed
  publish_delay_elapsed p = record p { base = delay_elapsed p.base }

  module _ (compute_hash_for_batch : List (PublisherQueueItem O) → String) where
    unfoldable pub become_active : Snapshot → Publisher O → Publisher O
    unfolding activate
    become_active snapshot p = record p { base = activate compute_hash_for_batch snapshot p.base }

    -- The batch is the end of what waits.
    unfoldable pub become_passive : ℕ → Publisher O → Publisher O × Snapshot
    unfolding snapshot_of
    become_passive n p = (
      record p { base = record p.base { active = false } },
      snapshot_of compute_hash_for_batch (slice_last n p.base.queue),
    )
