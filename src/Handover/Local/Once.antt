-- ===== src/Handover/Local/Once.antt =====
-- A process imports a handed over state at most once in its life.
use uns_kit.Kit.{
  ℕ, zero, suc, ◌+◌, ◌≤◌, ◌≡◌, refl, List, [], ◌∷◌, ◌++◌, map, take, ◌===◌, ltb, if_both, arith,
}
use uns_kit.Handover.{
  Body, Message, Proxy, HandoverRequest, TargetPreparation, idle, checking, applying, accepted,
  stuck, Output, published, emitted, released, activated, publisher_active, publisher_passive,
  subscriber_active, subscriber_passive, imported, stopped, drained_receipt, Manager, put,
}
use uns_kit.Handover.Messages.{same_text}
use uns_kit.Handover.Source.{Worker, subscriber_messages}
use uns_kit.Handover.Target.{activate_named, acks, digest_of}

-- How many states were imported.
unfoldable pub imports : List Output → ℕ
imports [] = 0
imports (imported state ∷ os) = suc (imports os)
imports (published message ∷ os) = imports os
imports (emitted active ∷ os) = imports os
imports (released ∷ os) = imports os
imports (activated ∷ os) = imports os
imports (publisher_active name ∷ os) = imports os
imports (publisher_passive name ∷ os) = imports os
imports (subscriber_active name cursor ∷ os) = imports os
imports (subscriber_passive name ∷ os) = imports os
imports (stopped name ∷ os) = imports os
imports (drained_receipt id digest ∷ os) = imports os

-- An import is still possible.
abbrev pub credit : TargetPreparation → ℕ
credit idle = 1
credit (checking state digest) = 1
credit (applying state digest) = 0
credit accepted = 0
credit stuck = 0

abbrev pub Once : Manager → Type 0
Once m = imports m.outputs + credit m.target ≤ 1

pub imports-append : (os ps : List Output) → imports (os ++ ps) ≡ imports os + imports ps
unfolding imports
imports-append [] ps = omega arith
imports-append (imported state ∷ os) ps = omega (arith, imports-append os ps)
imports-append (published message ∷ os) ps = imports-append os ps
imports-append (emitted active ∷ os) ps = imports-append os ps
imports-append (released ∷ os) ps = imports-append os ps
imports-append (activated ∷ os) ps = imports-append os ps
imports-append (publisher_active name ∷ os) ps = imports-append os ps
imports-append (publisher_passive name ∷ os) ps = imports-append os ps
imports-append (subscriber_active name cursor ∷ os) ps = imports-append os ps
imports-append (subscriber_passive name ∷ os) ps = imports-append os ps
imports-append (stopped name ∷ os) ps = imports-append os ps
imports-append (drained_receipt id digest ∷ os) ps = imports-append os ps

pub imports-map :
    (f : Proxy → Output)
    → ((x : Proxy) → imports (f x ∷ []) ≡ 0)
    → (xs : List Proxy) → imports (map f xs) ≡ 0
unfolding imports
imports-map f h [] = refl
imports-map f h (x ∷ xs) =
    omega (arith, imports-append (f x ∷ []) (map f xs), h x, imports-map f h xs)

-- What a process says or does but for an import leaves the count.
pub Once-put : (m : Manager) (os : List Output) → imports os ≡ 0 → Once m → Once (put os m)
Once-put m os none_new h = omega (arith, imports-append m.outputs os, none_new, h)

pub imports_two : (os ps : List Output) → imports os ≡ 0 → imports ps ≡ 0 → imports (os ++ ps) ≡ 0
imports_two os ps h k = omega (arith, imports-append os ps, h, k)

pub imports-acks : (m : Manager) (fins : List Message) → imports (acks m fins) ≡ 0
unfolding acks imports
imports-acks m [] = refl
imports-acks m (fin ∷ fins) =
    if_both (λ (os : List Output). imports os ≡ 0)
      (same_text (digest_of fin.body) m.accepted_state_digest) _ (acks m fins) (imports-acks m fins)
      (imports-acks m fins)

pub imports-activate_named : (body : Body) (xs : List Proxy) → imports (activate_named body xs) ≡ 0
unfolding activate_named imports
imports-activate_named body [] = refl
imports-activate_named body (x ∷ xs) =
    if_both (λ (os : List Output). imports os ≡ 0) (x.instance_name === body.instance_name) _
      (activate_named body xs) (imports-activate_named body xs) (imports-activate_named body xs)

pub imports-subscriber_messages :
    (m : Manager) (r : HandoverRequest) (ws : List Worker)
    → imports (subscriber_messages m r ws) ≡ 0
unfolding subscriber_messages imports
imports-subscriber_messages m r [] = refl
imports-subscriber_messages m r (w ∷ ws) =
    if_both (λ (os : List Output). imports os ≡ 0) (ltb 0 w.batch_size) _
      (subscriber_messages m r ws) (imports-subscriber_messages m r ws)
      (imports-subscriber_messages m r ws)

pub imports-take : (n : ℕ) (os : List Output) → imports os ≡ 0 → imports (take n os) ≡ 0
unfolding imports
imports-take zero os h = refl
imports-take (suc n) [] h = refl
imports-take (suc n) (imported state ∷ os) h = absurd (omega (arith, h))
imports-take (suc n) (published message ∷ os) h = imports-take n os h
imports-take (suc n) (emitted active ∷ os) h = imports-take n os h
imports-take (suc n) (released ∷ os) h = imports-take n os h
imports-take (suc n) (activated ∷ os) h = imports-take n os h
imports-take (suc n) (publisher_active name ∷ os) h = imports-take n os h
imports-take (suc n) (publisher_passive name ∷ os) h = imports-take n os h
imports-take (suc n) (subscriber_active name cursor ∷ os) h = imports-take n os h
imports-take (suc n) (subscriber_passive name ∷ os) h = imports-take n os h
imports-take (suc n) (stopped name ∷ os) h = imports-take n os h
imports-take (suc n) (drained_receipt id digest ∷ os) h = imports-take n os h
