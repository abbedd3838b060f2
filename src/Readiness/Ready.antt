-- ===== src/Readiness/Ready.antt =====
-- What an answer of the broker changes in the state of subscription-readiness.ts.
use uns_kit.Kit.{
  ℕ, ◌+◌, ◌≡◌, refl, ap, ◌∙◌, ◌⊎◌, inl, inr, Bool, false, not, ◌&&◌, Option, none, some, List, [],
  ◌∷◌, String, ◌==◌, ◌===◌, eq_iff, get_elem?, if◌then◌else◌, if_each, if_true, arith, Bool-cases,
  All,
}
use uns_kit.Readiness.{
  Filter, Request, SubscriptionReadiness, set_filter, delete_filter, find_filter, set_pending,
  revised, mark_all, sent, accepts, settle_filter, settle_all, no_requests, handover_ready,
}

find_filter-set_filter :
    (t : String) (f : Filter) (gs : List Filter)
    → (f.topic === t) ≡ false
    → find_filter t (set_filter f gs) ≡ find_filter t gs
unfolding find_filter set_filter
find_filter-set_filter t f [] o = rw o refl
find_filter-set_filter t f (g ∷ gs) o =
    if_each (λ ys. find_filter t ys ≡ find_filter t (g ∷ gs)) (g.topic === f.topic) (f ∷ gs)
      (g ∷ set_filter f gs)
      (λ same.
        let o' : (g.topic === t) ≡ false =
          ap (λ u. u === t) ((eq_iff g.topic f.topic).0 same) ∙ o in
        rw (o, o') refl)
      (λ other.
        if_each (λ z. (if g.topic === t then some g else find_filter t (set_filter f gs)) ≡ z)
          (g.topic === t) (some g) (find_filter t gs) (λ here. rw here refl)
          (λ there. rw there (find_filter-set_filter t f gs o)))

find_filter-delete_filter :
    (t topic : String) (gs : List Filter)
    → (topic === t) ≡ false
    → find_filter t (delete_filter topic gs) ≡ find_filter t gs
unfolding find_filter delete_filter
find_filter-delete_filter t topic [] o = refl
find_filter-delete_filter t topic (g ∷ gs) o =
    if_each (λ ys. find_filter t ys ≡ find_filter t (g ∷ gs)) (g.topic === topic)
      (delete_filter topic gs) (g ∷ delete_filter topic gs)
      (λ same.
        let o' : (g.topic === t) ≡ false = ap (λ u. u === t) ((eq_iff g.topic topic).0 same) ∙ o in
        rw o' (find_filter-delete_filter t topic gs o))
      (λ other.
        if_each
          (λ z. (if g.topic === t then some g else find_filter t (delete_filter topic gs)) ≡ z)
          (g.topic === t) (some g) (find_filter t gs) (λ here. rw here refl)
          (λ there. rw there (find_filter-delete_filter t topic gs o)))

-- The part of a request does not name this revision of the topic.
abbrev pub Older : String → ℕ → String × ℕ → Type 0
Older t revision f = ((f.0 === t) ≡ false) ⊎ ((revision == f.1) ≡ false)

settle_other :
    (remove : Bool) (grant : Option ℕ) (t : String) (f : String × ℕ) (found : Option Filter)
    (filters : List Filter)
    → (f.0 === t) ≡ false
    → find_filter t (settle_filter remove grant f found filters) ≡ find_filter t filters
settle_other remove grant t f none filters o = refl
settle_other remove grant t f (some g) filters o =
    let P = λ (ys : List Filter). find_filter t ys ≡ find_filter t filters in
    if_each P (not (g.revision == f.1)) filters _ (λ old. refl)
      (λ current.
        if_each P (remove && accepts remove grant) (delete_filter f.0 filters) _
          (λ gone. find_filter-delete_filter t f.0 filters o)
          (λ kept.
            find_filter-set_filter t
              (record {
                topic = f.0;
                revision = f.1;
                acknowledged = accepts remove grant && not remove;
              })
              filters o))

settle_older :
    (remove : Bool) (grant : Option ℕ) (f : String × ℕ) (g : Filter) (filters : List Filter)
    → (g.revision == f.1) ≡ false
    → settle_filter remove grant f (some g) filters ≡ filters
settle_older remove grant f g filters o =
    if_true (not (g.revision == f.1)) filters _ (ground (arith, o))

-- An answer of the broker to a request that names no revision of a topic as new as the current one leaves the
-- filter of that topic as it is: a late acknowledgement confirms nothing, and removes nothing.
pub find_filter-settle_all :
    (remove : Bool) (granted : List ℕ) (index : ℕ) (t : String) (g : Filter)
    (fs : List (String × ℕ)) (filters : List Filter)
    → find_filter t filters ≡ some g
    → All (Older t g.revision) fs
    → find_filter t (settle_all remove granted index fs filters) ≡ some g
unfolding settle_all
find_filter-settle_all remove granted index t g [] filters e h = e
find_filter-settle_all remove granted index t g (f ∷ fs) filters e h =
    find_filter-settle_all remove granted (index + 1) t g fs _ (one h.0 ∙ e) h.1
  where
    one :
        Older t g.revision f
        → find_filter t
            (settle_filter remove (get_elem? granted index) f (find_filter f.0 filters) filters)
          ≡ find_filter t filters
    one (inl other) =
        settle_other remove (get_elem? granted index) t f (find_filter f.0 filters) filters other
    one (inr old) = elim (Bool-cases (f.0 === t)) [
      | inr other ↦
          settle_other remove (get_elem? granted index) t f (find_filter f.0 filters) filters other
      | inl same ↦
          let found : find_filter f.0 filters ≡ some g =
            ap (λ u. find_filter u filters) ((eq_iff f.0 t).0 same) ∙ e in
          ap (λ o. find_filter t (settle_filter remove (get_elem? granted index) f o filters)) found
          ∙ ap (λ ys. find_filter t ys)
              (settle_older remove (get_elem? granted index) f g filters old)
    ]

no_requests-set_pending : (p : Request) (ps : List Request) → no_requests (set_pending p ps) ≡ false
unfolding set_pending
no_requests-set_pending p [] = refl
no_requests-set_pending p (q ∷ qs) =
    if_each (λ ys. no_requests ys ≡ false) (q.message_id == p.message_id) (p ∷ qs)
      (q ∷ set_pending p qs) (λ same. refl) (λ other. refl)

-- Once a request for a topic is sent, the connection is not ready for a handover.
pub handover_ready-sent :
    (remove : Bool) (message_id : ℕ) (t : String) (ts : List String) (r : SubscriptionReadiness)
    → handover_ready (sent remove message_id (t ∷ ts) r) ≡ false
unfolding handover_ready sent
handover_ready-sent remove message_id t ts r =
    let marked = mark_all (revised r.sequence (t ∷ ts)) r in
    ground (
      arith,
      no_requests-set_pending
          (record {
            message_id = message_id;
            remove = remove;
            filters = revised r.sequence (t ∷ ts);
          })
          marked.pending,
    )
