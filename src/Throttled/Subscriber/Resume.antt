-- ===== src/Throttled/Subscriber/Resume.antt =====
-- The handover of input between two subscribers of throttled-queue.ts.
use uns_kit.Kit.{
  ℕ, ◌≡◌, refl, sym, ap, ◌∙◌, ◌⊎◌, Bool, true, false, Option, none, some, List, [], ◌++◌, String,
  map, drop, if◌then◌else◌, arith, Result, ok, err, ok_injective, throw_if, ◌>>◌,
}
use uns_kit.InputBoundary.{unique_input_boundary}
use uns_kit.InputBoundary.Unique.{Boundary, unique_input_boundary-Boundary}
use uns_kit.Throttled.{Throttled}
use uns_kit.Throttled.Order.{flow, flow-process_queue}
use uns_kit.Throttled.Subscriber.{
  SubscriberQueueItem, InputQueueCursor, Subscriber, boundary_of, prepare_at, prepare_parsed,
  prepare_resume, resume_prepared, activate_prepared_resume,
}

module _ (input_fingerprint : SubscriberQueueItem → String)
    (compute_hash_for_batch : Bool → List SubscriberQueueItem → String) where
  -- The successor was passive, and what it skips ends the input of its predecessor.
  pub record Prepared (tail : List String) (s s' : Subscriber) (index : ℕ) : Type 0 where
    pub same : s'.base ≡ s.base
    pub index_kept : s'.prepared_resume ≡ some index
    pub confirmed : s.input_failed ≡ false
    pub passive : s.base.active ≡ false
    pub boundary :
        ((tail ≡ []) × (index ≡ 0)) ⊎ Boundary tail (map input_fingerprint s.base.queue) index

  failed_not_ok :
      {problem : String} {s s' : Subscriber}
      → ◌≡◌ {A = Result (Unit {0}) × Subscriber} (err problem, s) (ok tt, s')
      → ⊥
  failed_not_ok h =
      let e : ◌≡◌ {A = Result (Unit {0})} (err _) (ok tt) =
        ap (λ (r : Result (Unit {0}) × Subscriber). r.0) h in
      ground (arith, e)

  prepare_at-Prepared :
      (tail : List String) (s s' : Subscriber) (found : Result ℕ)
      → unique_input_boundary tail (map input_fingerprint s.base.queue) ≡ found
      → s.input_failed ≡ false
      → s.base.active ≡ false
      → prepare_at input_fingerprint compute_hash_for_batch found
          (record s { prepared_resume = none })
        ≡ (ok tt, s')
      → (index : ℕ) × Prepared tail s s' index
  prepare_at-Prepared tail s s' (err problem) e f a h = absurd (failed_not_ok h)
  prepare_at-Prepared tail s s' (ok index) e f a h = (
    index,
    record {
      same = ap (λ (r : Result (Unit {0}) × Subscriber). r.1.base) (sym h);
      index_kept = ap (λ (r : Result (Unit {0}) × Subscriber). r.1.prepared_resume) (sym h);
      confirmed = f;
      passive = a;
      boundary = unique_input_boundary-Boundary tail (map input_fingerprint s.base.queue) index e;
    },
  )

  prepare-cases :
      (failed active : Bool) (tail : List String) (cursor : InputQueueCursor) (s s' : Subscriber)
      → s.input_failed ≡ failed
      → s.base.active ≡ active
      → cursor.processed_tail ≡ some tail
      → (if failed
          then (err "Managed MQTT input outcome requires review", s)
          else if active
          then (err "MQTT successor is not passive", s)
          else prepare_parsed input_fingerprint compute_hash_for_batch
              (some cursor)
              (record s { prepared_resume = none }))
        ≡ (ok tt, s')
      → (index : ℕ) × Prepared tail s s' index
  prepare-cases true active tail cursor s s' f a t h = absurd (failed_not_ok h)
  prepare-cases false true tail cursor s s' f a t h = absurd (failed_not_ok h)
  prepare-cases false false tail cursor s s' f a t h =
      prepare_at-Prepared tail s s'
        (unique_input_boundary tail (map input_fingerprint s.base.queue)) refl f a
        (sym (
            ap
              (λ o.
                prepare_at input_fingerprint compute_hash_for_batch
                  (boundary_of input_fingerprint compute_hash_for_batch o cursor s.base.queue)
                  (record s { prepared_resume = none }))
              t)
          ∙ h)

  prepare_resume-Prepared :
      (tail : List String) (cursor : InputQueueCursor) (s s' : Subscriber)
      → cursor.processed_tail ≡ some tail
      → prepare_resume input_fingerprint compute_hash_for_batch (some cursor) s ≡ (ok tt, s')
      → (index : ℕ) × Prepared tail s s' index
  unfolding prepare_resume
  prepare_resume-Prepared tail cursor s s' t h =
      prepare-cases s.input_failed s.base.active tail cursor s s' refl refl t h

  resumed_flow :
      (index : ℕ) (s s'' : Subscriber) (prepared : Option ℕ) (active : Bool)
      → active ≡ false
      → prepared ≡ some index
      → (throw_if active "MQTT resume was not prepared"
          >> resume_prepared input_fingerprint compute_hash_for_batch prepared s)
        ≡ ok s''
      → flow s''.base ≡ s.base.calls ++ drop index s.base.queue
  unfolding flow
  resumed_flow index s s'' prepared true a p h = absurd (ground (arith, a))
  resumed_flow index s s'' none false a p h = absurd (ground (arith, p))
  resumed_flow index s s'' (some d) false a p h =
      ap (λ (z : Subscriber). flow z.base) (sym (ok_injective h))
      ∙ flow-process_queue (record s.base { queue = drop d s.base.queue; active = true })
      ∙ ap (λ o. s.base.calls ++ drop o s.base.queue) (ground (arith, p))

  -- A successor that prepares for the processed tail of its predecessor is passive, has not failed, and consumes
  -- nothing; and when it is then activated, it skips exactly the input up to the one place where a suffix of
  -- that tail stands in its buffer, or nothing for an empty tail, and calls its handler for the rest in order.
  pub activate_prepared_resume-prepare_resume :
      (tail : List String) (cursor : InputQueueCursor) (s s' s'' : Subscriber)
      → cursor.processed_tail ≡ some tail
      → prepare_resume input_fingerprint compute_hash_for_batch (some cursor) s ≡ (ok tt, s')
      → activate_prepared_resume input_fingerprint compute_hash_for_batch s' ≡ ok s''
      → (index : ℕ) × Prepared tail s s' index
        × (flow s''.base ≡ s.base.calls ++ drop index s.base.queue)
  unfolding activate_prepared_resume
  activate_prepared_resume-prepare_resume tail cursor s s' s'' t h k =
      let found = prepare_resume-Prepared tail cursor s s' t h in
      let quiet : s'.base.active ≡ false =
        ap (λ (q : Throttled SubscriberQueueItem). q.active) found.1.same ∙ found.1.passive in
      (
        found.0,
        found.1,
        resumed_flow found.0 s' s'' s'.prepared_resume s'.base.active quiet found.1.index_kept k
            ∙ ap (λ (q : Throttled SubscriberQueueItem). q.calls ++ drop found.0 q.queue)
                found.1.same,
      )
