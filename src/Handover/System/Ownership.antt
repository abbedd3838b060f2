-- ===== src/Handover/System/Ownership.antt =====
-- Who holds the application: an invariant of the parts that the processes play.
use uns_kit.Kit.{ℕ, ◌≡◌, sym, ap, ◌∙◌, ◌<◌, ◌⊎◌, inl, inr, Bool, true, false, Option, String}
use uns_kit.Handover.Local.{Stage, waits, takes, owns, gave, fails}

pub record Part : Type 0 where
  pub part_stage : Stage
  pub id : Option String
  pub fin : Option String

abbrev pub is_past : Stage → Bool
is_past owns = true
is_past gave = true
is_past waits = false
is_past takes = false
is_past fails = false

-- The application is with `holder`, who owns it or has given it to a successor that has not taken it over. Everyone
-- else who gave it away gave it to a process that once owned it; who takes over does so from one who gave.
pub record Own (n : ℕ) (f : ℕ → Part) : Type 0 where
  pub holder : ℕ
  pub inside : holder < n
  pub holds : is_past (f holder).part_stage ≡ true
  pub owner_is : (x : ℕ) → x < n → (f x).part_stage ≡ owns → x ≡ holder
  pub given :
      (x : ℕ)
      → x < n
      → (f x).part_stage ≡ gave
      → (x ≡ holder)
        ⊎ ((q : ℕ) × (q < n) × ((f q).id ≡ (f x).fin) × (is_past (f q).part_stage ≡ true))
  pub taking :
      (x : ℕ)
      → x < n
      → (f x).part_stage ≡ takes
      → (q : ℕ) × (q < n) × ((f q).part_stage ≡ gave) × ((f q).fin ≡ (f x).id)
  pub distinct : (x y : ℕ) → x < n → y < n → (f x).id ≡ (f y).id → x ≡ y

-- How one process may change its part, among the others.
pub data PartMove (n : ℕ) (f : ℕ → Part) (p : ℕ) (a : Part) : Type 0 where
  part_rests : a.part_stage ≡ (f p).part_stage → a.fin ≡ (f p).fin → PartMove n f p a
  part_starts :
      (q : ℕ)
      → q < n
      → (f q).part_stage ≡ gave
      → (f q).fin ≡ (f p).id
      → (f p).part_stage ≡ waits
      → a.part_stage ≡ takes
      → PartMove n f p a
  part_ends :
      (f p).part_stage ≡ takes → (a.part_stage ≡ waits) ⊎ (a.part_stage ≡ fails) → PartMove n f p a
  part_wins : (f p).part_stage ≡ takes → a.part_stage ≡ owns → PartMove n f p a
  part_gives : (f p).part_stage ≡ owns → a.part_stage ≡ gave → PartMove n f p a

-- Who takes over takes from the holder, who gave it away.
pub taken_from_holder :
    {n : ℕ} {f : ℕ → Part}
    → (own : Own n f) → (p : ℕ) → p < n
    → (f p).part_stage ≡ takes
    → ((f own.holder).part_stage ≡ gave) × ((f own.holder).fin ≡ (f p).id)
taken_from_holder {n} {f} own p inside now =
    let (q, q_inside, q_gave, q_fin) = own.taking p inside now in
    elim (own.given q q_inside q_gave) [
      | inl e ↦ (
        ap (λ (x : ℕ). (f x).part_stage) (sym e) ∙ q_gave,
        ap (λ (x : ℕ). (f x).fin) (sym e) ∙ q_fin,
      )
      | inr (r, r_inside, r_id, r_past) ↦
          let same : r ≡ p = own.distinct r p r_inside inside (r_id ∙ q_fin) in
          absurd (no_past (f r).part_stage (ap (λ (x : ℕ). (f x).part_stage) same ∙ now) r_past)
    ]
  where
    no_past : (s : Stage) → s ≡ takes → is_past s ≡ true → ⊥
    no_past s e h = cc (ap is_past e, h)

-- A part that is past stays past, and what it gave away stays given.
move_past :
    {n : ℕ} {f : ℕ → Part} (p : ℕ) (a : Part)
    → PartMove n f p a
    → is_past (f p).part_stage ≡ true
    → is_past a.part_stage ≡ true
move_past p a (part_rests e k) h = ap is_past e ∙ h
move_past p a (part_starts q b c d now e) h = absurd (cc (ap is_past now, h))
move_past p a (part_ends now e) h = absurd (cc (ap is_past now, h))
move_past p a (part_wins now e) h = ap is_past e
move_past p a (part_gives now e) h = ap is_past e

move_gave :
    {n : ℕ} {f : ℕ → Part} (p : ℕ) (a : Part)
    → PartMove n f p a
    → (f p).part_stage ≡ gave
    → (a.part_stage ≡ gave) × (a.fin ≡ (f p).fin)
move_gave p a (part_rests e k) h = (e ∙ h, k)
move_gave p a (part_starts q b c d now e) h = absurd (cc (now, h))
move_gave p a (part_ends now e) h = absurd (cc (now, h))
move_gave p a (part_wins now e) h = absurd (cc (now, h))
move_gave p a (part_gives now e) h = absurd (cc (now, h))

-- Where a part that took, owns or gave comes from.
from_takes :
    {n : ℕ} {f : ℕ → Part} (p : ℕ) (a : Part)
    → PartMove n f p a
    → a.part_stage ≡ takes
    → ((f p).part_stage ≡ takes)
      ⊎ ((q : ℕ) × (q < n) × ((f q).part_stage ≡ gave) × ((f q).fin ≡ (f p).id))
from_takes p a (part_rests e k) h = inl (sym e ∙ h)
from_takes p a (part_starts q b c d now e) h = inr (q, b, c, d)
from_takes p a (part_ends now (inl e)) h = absurd (cc (e, h))
from_takes p a (part_ends now (inr e)) h = absurd (cc (e, h))
from_takes p a (part_wins now e) h = absurd (cc (e, h))
from_takes p a (part_gives now e) h = absurd (cc (e, h))

from_owns :
    {n : ℕ} {f : ℕ → Part} (p : ℕ) (a : Part)
    → PartMove n f p a
    → a.part_stage ≡ owns
    → ((f p).part_stage ≡ owns) ⊎ ((f p).part_stage ≡ takes)
from_owns p a (part_rests e k) h = inl (sym e ∙ h)
from_owns p a (part_starts q b c d now e) h = absurd (cc (e, h))
from_owns p a (part_ends now (inl e)) h = absurd (cc (e, h))
from_owns p a (part_ends now (inr e)) h = absurd (cc (e, h))
from_owns p a (part_wins now e) h = inr now
from_owns p a (part_gives now e) h = absurd (cc (e, h))

from_gave :
    {n : ℕ} {f : ℕ → Part} (p : ℕ) (a : Part)
    → PartMove n f p a
    → a.part_stage ≡ gave
    → (((f p).part_stage ≡ gave) × (a.fin ≡ (f p).fin)) ⊎ ((f p).part_stage ≡ owns)
from_gave p a (part_rests e k) h = inl (sym e ∙ h, k)
from_gave p a (part_starts q b c d now e) h = absurd (cc (e, h))
from_gave p a (part_ends now (inl e)) h = absurd (cc (e, h))
from_gave p a (part_ends now (inr e)) h = absurd (cc (e, h))
from_gave p a (part_wins now e) h = absurd (cc (e, h))
from_gave p a (part_gives now e) h = inr now

-- The move of process `p`, with the other parts as they were.
pub record Moved (n : ℕ) (f g : ℕ → Part) (p : ℕ) : Type 0 where
  pub inside : p < n
  pub move : PartMove n f p (g p)
  pub same_id : (g p).id ≡ (f p).id
  pub others : (x : ℕ) → (x ≡ p) ⊎ (g x ≡ f x)

module _ {n : ℕ} {f g : ℕ → Part} {p : ℕ} (m : Moved n f g p) where
  moved_id : (x : ℕ) → (g x).id ≡ (f x).id
  moved_id x = elim (m.others x) [
    | inl e ↦ ap (λ (y : ℕ). (g y).id) e ∙ m.same_id ∙ ap (λ (y : ℕ). (f y).id) (sym e)
    | inr e ↦ ap (λ (a : Part). a.id) e
  ]

  moved_past : (x : ℕ) → is_past (f x).part_stage ≡ true → is_past (g x).part_stage ≡ true
  moved_past x h = elim (m.others x) [
    | inl e ↦
        ap (λ (y : ℕ). is_past (g y).part_stage) e
        ∙ move_past p (g p) m.move (ap (λ (y : ℕ). is_past (f y).part_stage) (sym e) ∙ h)
    | inr e ↦ ap (λ (a : Part). is_past a.part_stage) e ∙ h
  ]

  moved_gave :
      (x : ℕ) → (f x).part_stage ≡ gave → ((g x).part_stage ≡ gave) × ((g x).fin ≡ (f x).fin)
  moved_gave x h = elim (m.others x) [
    | inl e ↦
        let (a, b) = move_gave p (g p) m.move (ap (λ (y : ℕ). (f y).part_stage) (sym e) ∙ h) in
        (
          ap (λ (y : ℕ). (g y).part_stage) e ∙ a,
          ap (λ (y : ℕ). (g y).fin) e ∙ b ∙ ap (λ (y : ℕ). (f y).fin) (sym e),
        )
    | inr e ↦ (ap (λ (a : Part). a.part_stage) e ∙ h, ap (λ (a : Part). a.fin) e)
  ]

  moved_distinct :
      ((x y : ℕ) → x < n → y < n → (f x).id ≡ (f y).id → x ≡ y)
      → (x y : ℕ) → x < n
      → y < n
      → (g x).id ≡ (g y).id
      → x ≡ y
  moved_distinct d x y hx hy e = d x y hx hy (sym (moved_id x) ∙ e ∙ moved_id y)

  moved_taking :
      (own : Own n f) (x : ℕ)
      → x < n
      → (g x).part_stage ≡ takes
      → (q : ℕ) × (q < n) × ((g q).part_stage ≡ gave) × ((g q).fin ≡ (g x).id)
  moved_taking own x hx h = elim (m.others x) [
    | inr e ↦ carry (own.taking x hx (ap (λ (a : Part). a.part_stage) (sym e) ∙ h))
    | inl e ↦ elim (from_takes p (g p) m.move (ap (λ (y : ℕ). (g y).part_stage) (sym e) ∙ h)) [
      | inl k ↦ carry (own.taking x hx (ap (λ (y : ℕ). (f y).part_stage) e ∙ k))
      | inr (q, a, b, c) ↦ carry (q, a, b, c ∙ ap (λ (y : ℕ). (f y).id) (sym e))
    ]
  ]
    where
      carry :
          (q : ℕ) × (q < n) × ((f q).part_stage ≡ gave) × ((f q).fin ≡ (f x).id)
          → (q : ℕ) × (q < n) × ((g q).part_stage ≡ gave) × ((g q).fin ≡ (g x).id)
      carry (q, a, b, c) =
          let (now, fin) = moved_gave q b in (q, a, now, fin ∙ c ∙ sym (moved_id x))

  moved_given :
      (own : Own n f) (x : ℕ)
      → x < n
      → (g x).part_stage ≡ gave
      → (x ≡ own.holder)
        ⊎ ((q : ℕ) × (q < n) × ((g q).id ≡ (g x).fin) × (is_past (g q).part_stage ≡ true))
  moved_given own x hx h = elim (m.others x) [
    | inr e ↦
        carry (ap (λ (a : Part). a.fin) e)
          (own.given x hx (ap (λ (a : Part). a.part_stage) (sym e) ∙ h))
    | inl e ↦ elim (from_gave p (g p) m.move (ap (λ (y : ℕ). (g y).part_stage) (sym e) ∙ h)) [
      | inl (k, l) ↦
          carry (ap (λ (y : ℕ). (g y).fin) e ∙ l ∙ ap (λ (y : ℕ). (f y).fin) (sym e))
            (own.given x hx (ap (λ (y : ℕ). (f y).part_stage) e ∙ k))
      | inr k ↦ inl (own.owner_is x hx (ap (λ (y : ℕ). (f y).part_stage) e ∙ k))
    ]
  ]
    where
      carry :
          (g x).fin ≡ (f x).fin
          → (x ≡ own.holder)
            ⊎ ((q : ℕ) × (q < n) × ((f q).id ≡ (f x).fin) × (is_past (f q).part_stage ≡ true))
          → (x ≡ own.holder)
            ⊎ ((q : ℕ) × (q < n) × ((g q).id ≡ (g x).fin) × (is_past (g q).part_stage ≡ true))
      carry fin (inl e) = inl e
      carry fin (inr (q, a, b, c)) = inr (q, a, moved_id q ∙ b ∙ sym fin, moved_past q c)

Own-rests :
    {n : ℕ} {f g : ℕ → Part} {p : ℕ} (m : Moved n f g p)
    → ((g p).part_stage ≡ owns → (f p).part_stage ≡ owns)
    → Own n f
    → Own n g
Own-rests {n} {f} {g} {p} m kept own = record {
  holder = own.holder;
  inside = own.inside;
  holds = moved_past m own.holder own.holds;
  owner_is = λ x hx h. elim (m.others x) [
    | inr e ↦ own.owner_is x hx (ap (λ (a : Part). a.part_stage) (sym e) ∙ h)
    | inl e ↦
        own.owner_is x hx
          (ap (λ (y : ℕ). (f y).part_stage) e ∙ kept (ap (λ (y : ℕ). (g y).part_stage) (sym e) ∙ h))
  ];
  given = moved_given m own;
  taking = moved_taking m own;
  distinct = moved_distinct m own.distinct;
}

Own-wins :
    {n : ℕ} {f g : ℕ → Part} {p : ℕ} (m : Moved n f g p)
    → (f p).part_stage ≡ takes
    → (g p).part_stage ≡ owns
    → Own n f
    → Own n g
Own-wins {n} {f} {g} {p} m took won own = record {
  holder = p;
  inside = m.inside;
  holds = ap is_past won;
  owner_is = λ x hx h. elim (m.others x) [
    | inl e ↦ e
    | inr e ↦ absurd (no_owner x hx (ap (λ (a : Part). a.part_stage) (sym e) ∙ h))
  ];
  given = λ x hx h. from (x) h (moved_given m own x hx h);
  taking = moved_taking m own;
  distinct = moved_distinct m own.distinct;
}
  where
    source : ((f own.holder).part_stage ≡ gave) × ((f own.holder).fin ≡ (f p).id)
    source = taken_from_holder own p m.inside took

    no_owner : (x : ℕ) → x < n → (f x).part_stage ≡ owns → ⊥
    no_owner x hx h =
        let e : x ≡ own.holder = own.owner_is x hx h in
        cc (ap (λ (y : ℕ). (f y).part_stage) e, h, source.0)

    from :
        (x : ℕ)
        → (g x).part_stage ≡ gave
        → (x ≡ own.holder)
          ⊎ ((q : ℕ) × (q < n) × ((g q).id ≡ (g x).fin) × (is_past (g q).part_stage ≡ true))
        → (x ≡ p) ⊎ ((q : ℕ) × (q < n) × ((g q).id ≡ (g x).fin) × (is_past (g q).part_stage ≡ true))
    from x h (inr r) = inr r
    from x h (inl e) = inr (
      p,
      m.inside,
      moved_id m p
          ∙ sym source.1
          ∙ sym (moved_gave m own.holder source.0).1
          ∙ ap (λ (y : ℕ). (g y).fin) (sym e),
      ap is_past won,
    )

Own-by :
    {n : ℕ} {f g : ℕ → Part} {p : ℕ} (m : Moved n f g p) → PartMove n f p (g p) → Own n f → Own n g
Own-by m (part_rests e k) own = Own-rests m (λ h. sym e ∙ h) own
Own-by m (part_starts q b c d now e) own = Own-rests m (λ h. absurd (cc (e, h))) own
Own-by m (part_ends now (inl e)) own = Own-rests m (λ h. absurd (cc (e, h))) own
Own-by m (part_ends now (inr e)) own = Own-rests m (λ h. absurd (cc (e, h))) own
Own-by m (part_wins now e) own = Own-wins m now e own
Own-by m (part_gives now e) own = Own-rests m (λ h. absurd (cc (e, h))) own

-- The move of one process keeps the invariant.
pub Own-Moved : {n : ℕ} {f g : ℕ → Part} {p : ℕ} → Moved n f g p → Own n f → Own n g
Own-Moved m own = Own-by m m.move own
