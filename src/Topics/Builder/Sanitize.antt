-- ===== src/Topics/Builder/Sanitize.antt =====
-- What `MqttTopicBuilder.sanitizeTopicPart` leaves of a name.

use uns_kit.Kit.{
  Char, code, String, ◌≡◌, refl, Bool, true, false, ◌&&◌, is_empty, arith, Bool-cases, ap, ◌∙◌, inl,
  inr,
}
use uns_kit.Topics.Builder.{
  is_allowed, is_dash, dash, dash_runs, one_dash, trim_start, put_unless_last, trim_end,
  sanitize_topic_part,
}

-- Every character may stand in a topic part.
abbrev pub IsAllowed : String → Type 0
IsAllowed String.[] = Unit
IsAllowed (String.◌∷◌ c s) = (is_allowed (code c) ≡ true) × IsAllowed s

-- No dash follows a dash; `before` tells that a dash stands in front.
abbrev pub NoPair : Bool → String → Type 0
NoPair before String.[] = Unit
NoPair before (String.◌∷◌ c s) = ((before && is_dash c) ≡ false) × NoPair (is_dash c) s

abbrev pub EndsPlain : String → Type 0
EndsPlain String.[] = Unit
EndsPlain (String.◌∷◌ c String.[]) = is_dash c ≡ false
EndsPlain (String.◌∷◌ c (String.◌∷◌ d s)) = EndsPlain (String.◌∷◌ d s)

-- `NoPair true` says too that the text starts with no dash.
pub record IsPart (s : String) : Type 0 where
  pub filled : is_empty s ≡ false
  pub allowed : IsAllowed s
  pub single : NoPair true s
  pub plain_end : EndsPlain s

dash_IsAllowed : is_allowed (code dash) ≡ true
unfolding is_allowed
dash_IsAllowed = refl

dash_runs-IsAllowed : (b : Bool) (s : String) → IsAllowed (dash_runs b s)
unfolding dash_runs
dash_runs-IsAllowed b String.[] = tt
dash_runs-IsAllowed b (String.◌∷◌ c s) =
    ground (arith, dash_runs-IsAllowed false s, dash_runs-IsAllowed true s, dash_IsAllowed)

one_dash-IsAllowed : (b : Bool) (s : String) → IsAllowed s → IsAllowed (one_dash b s)
unfolding one_dash
one_dash-IsAllowed b String.[] h = tt
one_dash-IsAllowed b (String.◌∷◌ c s) h = ground (arith, one_dash-IsAllowed (is_dash c) s h.1)

one_dash-NoPair : (b : Bool) (s : String) → NoPair b (one_dash b s)
unfolding one_dash
one_dash-NoPair b String.[] = tt
one_dash-NoPair b (String.◌∷◌ c s) = ground (arith, one_dash-NoPair (is_dash c) s)

NoPair-start :
    (c : Char) (s : String)
    → is_dash c ≡ false
    → NoPair false (String.◌∷◌ c s)
    → NoPair true (String.◌∷◌ c s)
NoPair-start c s e h = (e, h.1)

NoPair-relax : (b : Bool) (s : String) → NoPair b s → NoPair false s
NoPair-relax b String.[] h = tt
NoPair-relax b (String.◌∷◌ c s) h = (refl, h.1)

trim_start-NoPair : (s : String) → NoPair false s → NoPair true (trim_start s)
unfolding trim_start
trim_start-NoPair String.[] h = tt
trim_start-NoPair (String.◌∷◌ c s) h = elim (Bool-cases (is_dash c)) [
  | inl e ↦ rw e (trim_start-NoPair s (NoPair-relax (is_dash c) s h.1))
  | inr e ↦ rw e (NoPair-start c s e h)
]

trim_start-IsAllowed : (s : String) → IsAllowed s → IsAllowed (trim_start s)
unfolding trim_start
trim_start-IsAllowed String.[] h = tt
trim_start-IsAllowed (String.◌∷◌ c s) h = ground (arith, trim_start-IsAllowed s h.1)

put_unless_last-IsAllowed :
    (b : Bool) (c : Char) (s : String)
    → is_allowed (code c) ≡ true
    → IsAllowed s
    → IsAllowed (put_unless_last b c s)
put_unless_last-IsAllowed true c String.[] p h = tt
put_unless_last-IsAllowed false c String.[] p h = (p, tt)
put_unless_last-IsAllowed b c (String.◌∷◌ d s) p h = (p, h)

put_unless_last-NoPair :
    (b before : Bool) (c : Char) (s : String)
    → (before && is_dash c) ≡ false
    → NoPair (is_dash c) s
    → NoPair before (put_unless_last b c s)
put_unless_last-NoPair true before c String.[] p h = tt
put_unless_last-NoPair false before c String.[] p h = (p, tt)
put_unless_last-NoPair b before c (String.◌∷◌ d s) p h = (p, h)

put_unless_last-EndsPlain :
    (c : Char) (s : String) → EndsPlain s → EndsPlain (put_unless_last (is_dash c) c s)
put_unless_last-EndsPlain c String.[] h = elim (Bool-cases (is_dash c)) [
  | inl e ↦ rw e tt
  | inr e ↦ rw e e
]
put_unless_last-EndsPlain c (String.◌∷◌ d s) h = h

trim_end-IsAllowed : (s : String) → IsAllowed s → IsAllowed (trim_end s)
unfolding trim_end
trim_end-IsAllowed String.[] h = tt
trim_end-IsAllowed (String.◌∷◌ c s) h =
    put_unless_last-IsAllowed (is_dash c) c (trim_end s) h.0 (trim_end-IsAllowed s h.1)

trim_end-NoPair : (b : Bool) (s : String) → NoPair b s → NoPair b (trim_end s)
unfolding trim_end
trim_end-NoPair b String.[] h = tt
trim_end-NoPair b (String.◌∷◌ c s) h =
    put_unless_last-NoPair (is_dash c) b c (trim_end s) h.0 (trim_end-NoPair (is_dash c) s h.1)

trim_end-EndsPlain : (s : String) → EndsPlain (trim_end s)
unfolding trim_end
trim_end-EndsPlain String.[] = tt
trim_end-EndsPlain (String.◌∷◌ c s) =
    put_unless_last-EndsPlain c (trim_end s) (trim_end-EndsPlain s)

uns_process-IsPart : IsPart "uns-process"
unfolding is_allowed
uns_process-IsPart = record {
  filled = refl;
  allowed =
      (refl, (refl, (refl, (refl, (refl, (refl, (refl, (refl, (refl, (refl, (refl, tt)))))))))));
  single =
      (refl, (refl, (refl, (refl, (refl, (refl, (refl, (refl, (refl, (refl, (refl, tt)))))))))));
  plain_end = refl;
}

-- Whatever the name, the sanitized part is not empty, holds letters, digits, `_` and `-` only, and
-- no dash starts it, ends it or follows another.
pub sanitize_topic_part-IsPart : (name : String) → IsPart (sanitize_topic_part name)
unfolding sanitize_topic_part
sanitize_topic_part-IsPart name =
    let spaced = one_dash false (dash_runs false name) in
    let allowed = one_dash-IsAllowed false _ (dash_runs-IsAllowed false name) in
    let body = trim_end (trim_start spaced) in
    elim (Bool-cases (is_empty body)) [
      | inl e ↦ rw e uns_process-IsPart
      | inr e ↦ rw e (record {
        filled = e;
        allowed = trim_end-IsAllowed _ (trim_start-IsAllowed spaced allowed);
        single = trim_end-NoPair true _ (trim_start-NoPair spaced (one_dash-NoPair false _));
        plain_end = trim_end-EndsPlain (trim_start spaced);
      })
    ]

dash_runs_same : (b : Bool) (s : String) → IsAllowed s → dash_runs b s ≡ s
unfolding dash_runs
dash_runs_same b String.[] h = refl
dash_runs_same b (String.◌∷◌ c s) h = rw h.0 (ap (String.◌∷◌ c) (dash_runs_same false s h.1))

one_dash_same : (b : Bool) (s : String) → NoPair b s → one_dash b s ≡ s
unfolding one_dash
one_dash_same b String.[] h = refl
one_dash_same b (String.◌∷◌ c s) h = rw h.0 (ap (String.◌∷◌ c) (one_dash_same (is_dash c) s h.1))

trim_start_same : (s : String) → NoPair true s → trim_start s ≡ s
unfolding trim_start
trim_start_same String.[] h = refl
trim_start_same (String.◌∷◌ c s) h = rw h.0

put_unless_last_same :
    (c : Char) (s : String)
    → EndsPlain (String.◌∷◌ c s)
    → put_unless_last (is_dash c) c s ≡ String.◌∷◌ c s
put_unless_last_same c String.[] h = rw h
put_unless_last_same c (String.◌∷◌ d s) h = refl

EndsPlain-tail : (c : Char) (s : String) → EndsPlain (String.◌∷◌ c s) → EndsPlain s
EndsPlain-tail c String.[] h = tt
EndsPlain-tail c (String.◌∷◌ d s) h = h

trim_end_same : (s : String) → EndsPlain s → trim_end s ≡ s
unfolding trim_end
trim_end_same String.[] h = refl
trim_end_same (String.◌∷◌ c s) h =
    ap (put_unless_last (is_dash c) c) (trim_end_same s (EndsPlain-tail c s h))
    ∙ put_unless_last_same c s h

sanitize_topic_part_same : (s : String) → IsPart s → sanitize_topic_part s ≡ s
unfolding sanitize_topic_part
sanitize_topic_part_same s h =
    let spaced : one_dash false (dash_runs false s) ≡ s =
      ap (one_dash false) (dash_runs_same false s h.allowed)
      ∙ one_dash_same false s (NoPair-relax true s h.single) in
    let same : trim_end (trim_start (one_dash false (dash_runs false s))) ≡ s =
      ap (λ t. trim_end (trim_start t)) spaced
      ∙ ap trim_end (trim_start_same s h.single)
      ∙ trim_end_same s h.plain_end in
    rw (same, h.filled)

-- Sanitizing a part a second time changes nothing.
pub sanitize_topic_part_idem :
    (name : String) → sanitize_topic_part (sanitize_topic_part name) ≡ sanitize_topic_part name
sanitize_topic_part_idem name = sanitize_topic_part_same _ (sanitize_topic_part-IsPart name)
