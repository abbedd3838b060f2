-- ===== src/Readiness.antt =====
-- `SubscriptionReadiness` (packages/uns-core/src/uns-mqtt/subscription-readiness.ts): which filters the broker
-- has acknowledged. A packet of another command, or without a number, leaves the state as it is.
pub mod Ready
mod Tests
use uns_kit.Kit.{
  ℕ, zero, suc, ◌+◌, Bool, true, false, not, ◌&&◌, ◌||◌, Option, none, some, List, [], ◌∷◌, ◌++◌,
  String, ◌==◌, ◌===◌, get_elem?, if◌then◌else◌,
}

pub record Filter : Type 0 where
  pub topic : String
  pub revision : ℕ
  pub acknowledged : Bool

pub record Request : Type 0 where
  pub message_id : ℕ
  pub remove : Bool
  pub filters : List (String × ℕ)

pub record SubscriptionReadiness : Type 0 where
  pub connected : Bool
  pub sequence : ℕ
  pub filters : List Filter
  pub pending : List Request

abbrev pub new_readiness : SubscriptionReadiness
new_readiness = record { connected = false; sequence = 0; filters = []; pending = [] }

unfoldable pub connection : Bool → SubscriptionReadiness → SubscriptionReadiness
connection true r = record r { connected = true }
connection false r = record r { connected = false; filters = []; pending = [] }

-- `filters.set`
unfoldable pub set_filter : Filter → List Filter → List Filter
set_filter f [] = f ∷ []
set_filter f (g ∷ gs) =
    let rest = set_filter f gs in if g.topic === f.topic then f ∷ gs else g ∷ rest

unfoldable pub delete_filter : String → List Filter → List Filter
delete_filter topic [] = []
delete_filter topic (g ∷ gs) =
    let rest = delete_filter topic gs in if g.topic === topic then rest else g ∷ rest

unfoldable pub find_filter : String → List Filter → Option Filter
find_filter topic [] = none
find_filter topic (g ∷ gs) = if g.topic === topic then some g else find_filter topic gs

unfoldable pub set_pending : Request → List Request → List Request
set_pending p [] = p ∷ []
set_pending p (q ∷ qs) =
    let rest = set_pending p qs in if q.message_id == p.message_id then p ∷ qs else q ∷ rest

unfoldable pub delete_pending : ℕ → List Request → List Request
delete_pending id [] = []
delete_pending id (q ∷ qs) =
    let rest = delete_pending id qs in if q.message_id == id then rest else q ∷ rest

unfoldable pub find_pending : ℕ → List Request → Option Request
find_pending id [] = none
find_pending id (q ∷ qs) = if q.message_id == id then some q else find_pending id qs

-- The revisions of the topics of a request, from the one after `sequence` on.
unfoldable pub revised : ℕ → List String → List (String × ℕ)
revised sequence [] = []
revised sequence (t ∷ ts) = (t, suc sequence) ∷ revised (suc sequence) ts

abbrev pub mark_all : List (String × ℕ) → SubscriptionReadiness → SubscriptionReadiness
mark_all [] r = r
mark_all (f ∷ fs) r = mark_all fs (record r {
  sequence = f.1;
  filters = set_filter (record { topic = f.0; revision = f.1; acknowledged = false }) r.filters;
})

-- `sent` of a subscribe, or of an unsubscribe when `remove`, with at least one topic.
unfoldable pub sent : Bool → ℕ → List String → SubscriptionReadiness → SubscriptionReadiness
unfolding set_filter set_pending revised
sent remove message_id [] r = r
sent remove message_id (t ∷ ts) r =
    let marked = mark_all (revised r.sequence (t ∷ ts)) r in
    record marked {
      pending =
          set_pending
            (record {
              message_id = message_id;
              remove = remove;
              filters = revised r.sequence (t ∷ ts);
            })
            marked.pending;
    }

abbrev pub is_one_of : List ℕ → Option ℕ → Bool
is_one_of codes none = false
is_one_of [] (some g) = false
is_one_of (c ∷ cs) (some g) = g == c || is_one_of cs (some g)

abbrev pub is_none : Option ℕ → Bool
is_none none = true
is_none (some g) = false

-- Whether the broker's code accepts the request.
unfoldable pub accepts : Bool → Option ℕ → Bool
accepts true grant = is_none grant || is_one_of (0 ∷ 17 ∷ []) grant
accepts false grant = is_one_of (0 ∷ 1 ∷ 2 ∷ []) grant

abbrev pub settle_filter : Bool → Option ℕ → String × ℕ → Option Filter → List Filter → List Filter
settle_filter remove grant f none filters = filters
settle_filter remove grant f (some g) filters =
    if not (g.revision == f.1)
    then filters
    else if remove && accepts remove grant
    then delete_filter f.0 filters
    else set_filter
        (record { topic = f.0; revision = f.1; acknowledged = accepts remove grant && not remove })
        filters

-- The filters of a request, with the codes granted to them from `index` on.
unfoldable pub settle_all : Bool → List ℕ → ℕ → List (String × ℕ) → List Filter → List Filter
unfolding delete_filter find_filter set_filter accepts
settle_all remove granted index [] filters = filters
settle_all remove granted index (f ∷ fs) filters =
    settle_all remove granted (index + 1) fs
      (settle_filter remove (get_elem? granted index) f (find_filter f.0 filters) filters)

abbrev pub same_kind : Bool → Bool → Bool
same_kind true b = b
same_kind false b = not b

abbrev pub settle_request :
    Bool → List ℕ → Option Request → SubscriptionReadiness → SubscriptionReadiness
settle_request unsubscribed granted none r = r
settle_request unsubscribed granted (some p) r =
    if same_kind p.remove unsubscribed
    then record r {
      pending = delete_pending p.message_id r.pending;
      filters = settle_all p.remove granted 0 p.filters r.filters;
    }
    else r

-- `received` of a suback, or of an unsuback when `unsubscribed`; a missing list of codes is empty.
unfoldable pub received : Bool → ℕ → List ℕ → SubscriptionReadiness → SubscriptionReadiness
unfolding find_pending delete_pending settle_all
received unsubscribed message_id granted r =
    settle_request unsubscribed granted (find_pending message_id r.pending) r

abbrev pub all_acknowledged : List Filter → Bool
all_acknowledged [] = true
all_acknowledged (f ∷ fs) = f.acknowledged && all_acknowledged fs

abbrev pub no_requests : List Request → Bool
no_requests [] = true
no_requests (p ∷ ps) = false

abbrev pub has_filters : List Filter → Bool
has_filters [] = false
has_filters (f ∷ fs) = true

unfoldable pub handover_ready : SubscriptionReadiness → Bool
handover_ready r = r.connected && no_requests r.pending && all_acknowledged r.filters

unfoldable pub ready : SubscriptionReadiness → Bool
unfolding handover_ready
ready r = has_filters r.filters && handover_ready r
