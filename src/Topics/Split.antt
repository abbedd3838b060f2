-- ===== src/Topics/Split.antt =====
-- `topic.split('/')`, `parts.join('/')` and `.filter(Boolean)` on the parts of a topic.
use uns_kit.Kit.{
  Char, code, String, ◌≡◌, refl, ◌≢◌, ap, sym, ◌∙◌, inl, inr, Bool, true, false, List, [], ◌∷◌,
  ◌++◌, ◌==◌, ==_iff, is_empty, if◌then◌else◌, Bool-cases, arith, All,
}
use Prim.Native.String
use text.Mathlib.TextLemmas.{nil-append, cons-append}
use text.Mathlib.TextEquality.{Char-path}

abbrev slash : Char
slash = "/"

-- A character joins the first part, or closes it when it is a slash.
abbrev put_char : Bool → Char → List String → List String
put_char true c parts = "" ∷ parts
put_char false c [] = String.◌∷◌ c "" ∷ []
put_char false c (part ∷ parts) = String.◌∷◌ c part ∷ parts

unfoldable pub split : String → List String
split String.[] = "" ∷ []
split (String.◌∷◌ c s) = put_char (code c == b'/') c (split s)

unfoldable pub join : List String → String
join [] = ""
join (part ∷ []) = part
join (part ∷ next ∷ parts) = String.◌++◌ part (String.◌++◌ "/" (join (next ∷ parts)))

-- `.filter(Boolean)` drops the empty parts.
unfoldable pub filled : List String → List String
filled [] = []
filled (part ∷ parts) = if is_empty part then filled parts else part ∷ filled parts

unfoldable pub segments : String → List String
unfolding split filled
segments topic = filled (split topic)

abbrev pub NoSlash : String → Type 0
NoSlash String.[] = Unit
NoSlash (String.◌∷◌ c s) = (code c ≢ b'/') × NoSlash s

split-ne-nil : (s : String) → split s ≢ []
unfolding split
split-ne-nil String.[] = cc
split-ne-nil (String.◌∷◌ c s) = ground (arith, split-ne-nil s)

put_char-NoSlash :
    (c : Char) (parts : List String)
    → All NoSlash parts
    → All NoSlash (put_char (code c == b'/') c parts)
put_char-NoSlash c [] h = ground arith
put_char-NoSlash c (p ∷ ps) h = ground arith

pub split-NoSlash : (s : String) → All NoSlash (split s)
unfolding split
split-NoSlash String.[] = (tt, tt)
split-NoSlash (String.◌∷◌ c s) = put_char-NoSlash c (split s) (split-NoSlash s)

pub split_tests :
    (split "a//b/" ≡ "a" ∷ "" ∷ "b" ∷ "" ∷ [])
    × (segments "/a//b/" ≡ "a" ∷ "b" ∷ [])
    × (join ("a" ∷ "b" ∷ []) ≡ "a/b")
unfolding split segments filled join
split_tests = (refl, refl, refl)

-- A non-empty list of parts, with what it starts with.
abbrev PartsCons : List String → Type 0
PartsCons parts = (p : String) × (ps : List String) × (parts ≡ p ∷ ps)

split-cons : (s : String) → PartsCons (split s)
unfolding split
split-cons String.[] = ("", [], refl)
split-cons (String.◌∷◌ c s) =
    let (p, ps, e) = split-cons s in
    elim (Bool-cases (code c == b'/')) [
      | inl slash ↦ ("", split s, rw slash)
      | inr other ↦ (String.◌∷◌ c p, ps, rw (other, e))
    ]

put_char-append :
    (b : Bool) (c : Char) (parts more : List String)
    → PartsCons parts
    → put_char b c (parts ++ more) ≡ put_char b c parts ++ more
put_char-append true c parts more h = refl
put_char-append false c [] more h = cc (h.2)
put_char-append false c (p ∷ ps) more h = refl

slash_append : (s : String) → String.◌++◌ "/" s ≡ String.◌∷◌ slash s
slash_append s = cons-append slash "" s ∙ ap (String.◌∷◌ slash) (nil-append s)

-- A slash between two texts parts them.
pub split-slash : (s t : String) → split (String.◌++◌ s (String.◌++◌ "/" t)) ≡ split s ++ split t
unfolding split
split-slash String.[] t = rw (nil-append, slash_append t)
split-slash (String.◌∷◌ c s) t = rw (cons-append c s _) (
    ap (put_char (code c == b'/') c) (split-slash s t)
    ∙ put_char-append (code c == b'/') c (split s) (split t) (split-cons s))

pub split_of_NoSlash : (s : String) → NoSlash s → split s ≡ s ∷ []
unfolding split
split_of_NoSlash String.[] h = refl
split_of_NoSlash (String.◌∷◌ c s) h = ground (arith, split_of_NoSlash s h.1)

join_push :
    (c : Char) (part : String) (parts : List String)
    → join (String.◌∷◌ c part ∷ parts) ≡ String.◌∷◌ c (join (part ∷ parts))
unfolding join
join_push c part [] = refl
join_push c part (q ∷ qs) = cons-append c part _

join-slash : (p : String) (ps : List String) → join ("" ∷ p ∷ ps) ≡ String.◌∷◌ slash (join (p ∷ ps))
unfolding join
join-slash p ps = nil-append _ ∙ slash_append (join (p ∷ ps))

join-put_char :
    (c : Char) (p : String) (ps : List String)
    → join (put_char (code c == b'/') c (p ∷ ps)) ≡ String.◌∷◌ c (join (p ∷ ps))
join-put_char c p ps = elim (Bool-cases (code c == b'/')) [
  | inl h ↦ rw h (
      join-slash p ps
      ∙ ap (λ d. String.◌∷◌ d (join (p ∷ ps))) (sym (Char-path c slash ((==_iff _ _).0 h))))
  | inr h ↦ rw h (join_push c p ps)
]

pub join-split : (s : String) → join (split s) ≡ s
unfolding split
join-split String.[] = unfold join in refl
join-split (String.◌∷◌ c s) =
    let (p, ps, e) = split-cons s in
    ap (λ (parts : List String). join (put_char (code c == b'/') c parts)) e
    ∙ join-put_char c p ps
    ∙ ap (String.◌∷◌ c) (ap join (sym e) ∙ join-split s)

pub filled-append : (xs ys : List String) → filled (xs ++ ys) ≡ filled xs ++ filled ys
unfolding filled
filled-append [] ys = refl
filled-append (x ∷ xs) ys = ground (arith, filled-append xs ys)
