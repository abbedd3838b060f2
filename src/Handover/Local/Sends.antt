-- ===== src/Handover/Local/Sends.antt =====
-- Which outputs are no fin and no acknowledgement, and what the messages of a source and a successor carry.
use uns_kit.Kit.{
  ◌≡◌, refl, ap, inl, inr, Bool, true, Option, none, some, List, [], ◌∷◌, map, String, All-append,
  eq_iff, Bool-cases,
}
use uns_kit.Handover.{Message, Proxy, Output, published, Manager, put}
use uns_kit.Handover.Messages.{
  is_given, same_text, first_of, normalize_handover_id, get_handover_id, handover_payload,
  handover_message,
}
use uns_kit.Handover.Source.{state_message}
use uns_kit.Handover.Target.{acks, ack_message, digest_of}
use uns_kit.Handover.Handle.{Input}
use uns_kit.Handover.Local.{Safe, Sent, Local, fin_id, stage, rests, Kept}

pub Sent-map :
    (m : Manager) (f : Proxy → Output)
    → ((given : Bool) → (fin digest : Option String) → (x : Proxy) → Safe given fin digest (f x))
    → (xs : List Proxy) → Sent m (map f xs)
Sent-map m f h [] = tt
Sent-map m f h (x ∷ xs) = (h _ _ _ x, Sent-map m f h xs)

first_of-same : (o : Option String) → first_of o o ≡ o
first_of-same none = refl
first_of-same (some s) = refl

-- The state that a source sends is a fin with its identifier.
pub state_message-Safe :
    (m : Manager) (topic : String) (id digest : Option String)
    → is_given m.source_peer ≡ true
    → id ≡ m.accepted_id
    → Safe (is_given m.source_peer) (fin_id m) digest (published (state_message m topic id))
unfolding state_message handover_payload handover_message get_handover_id
state_message-Safe m topic id digest given same = (
  inr (
    given,
    rw (same, first_of-same (normalize_handover_id (first_of m.accepted_id m.handover_id))) refl,
  ),
  inl refl,
)

pub same_text-eq : (a b : Option String) → same_text a b ≡ true → a ≡ b
same_text-eq none none h = refl
same_text-eq none (some b) h = cc
same_text-eq (some a) none h = cc
same_text-eq (some a) (some b) h = ap some ((eq_iff a b).0 h)

pub acks-Sent :
    (m : Manager) (fins : List Message)
    → is_given m.accepted_state_digest ≡ true
    → Sent m (acks m fins)
unfolding acks ack_message handover_message handover_payload
acks-Sent m [] h = tt
acks-Sent m (fin ∷ fins) h =
    elim (Bool-cases (same_text (digest_of fin.body) m.accepted_state_digest)) [
      | inl e ↦ rw e ((inl refl, inr (h, refl)), acks-Sent m fins h)
      | inr e ↦ rw e (acks-Sent m fins h)
    ]

abbrev pub Rest : Manager → Manager → Type 0
Rest m m' =
    Local m' × (m'.handover_id ≡ m.handover_id) × (stage m' ≡ stage m) × (fin_id m' ≡ fin_id m)

pub Rest-Kept : (i : Input) (m m' : Manager) → Rest m m' → Kept i m m'
Rest-Kept i m m' (a, b, c, d) = (a, b, rests c d)

pub Local-put : (m : Manager) (os : List Output) → Local m → Sent m os → Local (put os m)
Local-put m os (a, b, c, d, e, f, g, h, k, l, sent) more =
    (a, b, c, d, e, f, g, h, k, l, All-append _ m.outputs os sent more)

pub Rest-put : (m : Manager) (os : List Output) → Local m → Sent m os → Rest m (put os m)
Rest-put m os h more = (Local-put m os h more, refl, refl, refl)

pub Rest-same : (m : Manager) → Local m → Rest m m
Rest-same m h = (h, refl, refl, refl)
