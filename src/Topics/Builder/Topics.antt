-- ===== src/Topics/Builder/Topics.antt =====
-- The topics that a builder derives, and the base topic that is read back from them.
use Prim.Native.String
use text.Mathlib.TextLemmas.{nil-append, append_assoc}
use mathlib.Core.Path.{subst}
use uns_kit.Kit.{
  String, ◌≡◌, refl, true, false, List, [], ◌∷◌, ap, sym, ◌∙◌, ◌===◌, is_empty, arith, eq_iff,
  Bool-cases, inl, inr, All, take, ok,
}
use uns_kit.Topics.Split.{
  split, join, NoSlash, segments, filled, split-slash, split_of_NoSlash, join-split, split-NoSlash,
}
use uns_kit.Topics.Matcher.{matches, matches_iff, Accepts, one_level, rest_of, literal, both_end}
use uns_kit.Topics.Builder.{
  status_parts, MqttTopicBuilder, topic_builder, active_topic, handover_topic,
  service_metadata_topic, wildcard_active_topic, extract_base_topic,
}

-- The text with these four parts, and `rest` behind them.
spelled : String → String → String → String → String → String
spelled a b c d rest = String.◌++◌ a (
    String.◌++◌ "/" (
      String.◌++◌ b
        (String.◌++◌ "/" (String.◌++◌ c (String.◌++◌ "/" (String.◌++◌ d (String.◌++◌ "/" rest)))))))

record StatusTopic (topic : String) : Type 0 where
  root : String
  package_name : String
  version : String
  process_name : String
  root_is : root ≡ "uns-infra"
  text : topic ≡ spelled root package_name version process_name ""
  root_plain : NoSlash root
  package_plain : NoSlash package_name
  version_plain : NoSlash version
  process_plain : NoSlash process_name
  package_filled : is_empty package_name ≡ false
  version_filled : is_empty version ≡ false
  process_filled : is_empty process_name ≡ false

status_parts-StatusTopic :
    (topic : String) (ps : List String)
    → split topic ≡ ps
    → status_parts ps ≡ true
    → StatusTopic topic
unfolding spelled join
status_parts-StatusTopic topic (a ∷ b ∷ c ∷ d ∷ e ∷ []) s h =
    let last_empty : e ≡ "" = ground (arith, eq_iff e "") in
    let plain : All NoSlash (a ∷ b ∷ c ∷ d ∷ e ∷ []) = rw s at (split-NoSlash topic) in
    record {
      root = a;
      package_name = b;
      version = c;
      process_name = d;
      root_is = ground (arith, eq_iff a "uns-infra");
      text = sym (join-split topic) ∙ ap join s ∙ ap (spelled a b c d) last_empty;
      root_plain = plain.0;
      package_plain = plain.1.0;
      version_plain = plain.1.1.0;
      process_plain = plain.1.1.1.0;
      package_filled = ground arith;
      version_filled = ground arith;
      process_filled = ground arith;
    }
status_parts-StatusTopic topic _ s h = cc

topic_builder-StatusTopic :
    (topic : String) (b : MqttTopicBuilder)
    → topic_builder topic ≡ ok b
    → StatusTopic topic × (b.process_status_topic ≡ topic)
unfolding topic_builder
topic_builder-StatusTopic topic b h = elim (Bool-cases (status_parts (split topic))) [
  | inl e ↦ (status_parts-StatusTopic topic (split topic) refl e, ground arith)
  | inr e ↦ cc (e, h)
]

spelled-append :
    (a b c d rest more : String)
    → String.◌++◌ (spelled a b c d rest) more ≡ spelled a b c d (String.◌++◌ rest more)
unfolding spelled
spelled-append a b c d rest more = simp append_assoc

split-spelled :
    (a b c d rest : String)
    → NoSlash a
    → NoSlash b
    → NoSlash c
    → NoSlash d
    → split (spelled a b c d rest) ≡ a ∷ b ∷ c ∷ d ∷ split rest
unfolding spelled
split-spelled a b c d rest pa pb pc pd = simp (
  split-slash,
  split_of_NoSlash a pa,
  split_of_NoSlash b pb,
  split_of_NoSlash c pc,
  split_of_NoSlash d pd,
)

module _ (suffix : String) (plain : NoSlash suffix) {topic : String} (s : StatusTopic topic) where
  open s use {root, package_name, version, process_name}

  split-suffixed :
      split (String.◌++◌ topic suffix) ≡ root ∷ package_name ∷ version ∷ process_name ∷ suffix ∷ []
  split-suffixed =
      ap (λ t. split (String.◌++◌ t suffix)) s.text
      ∙ ap split (spelled-append root package_name version process_name "" suffix)
      ∙ split-spelled root package_name version process_name _ s.root_plain s.package_plain
          s.version_plain s.process_plain
      ∙ ap (λ l. root ∷ package_name ∷ version ∷ process_name ∷ l)
          (ap split (nil-append suffix) ∙ split_of_NoSlash suffix plain)

  join-four : String.◌++◌ (join (root ∷ package_name ∷ version ∷ process_name ∷ [])) "/" ≡ topic
  unfolding join
  join-four = simp append_assoc (unfold spelled in sym s.text)

  extract-suffixed : extract_base_topic (String.◌++◌ topic suffix) ≡ ok topic
  unfolding extract_base_topic
  extract-suffixed = rw split-suffixed (ap ok join-four)

-- From each topic that a builder derives, the base topic that is read back is the one that it was
-- built from.
pub extract_base_topic-derived :
    (topic : String) (b : MqttTopicBuilder)
    → topic_builder topic ≡ ok b
    → (extract_base_topic (active_topic b) ≡ ok topic)
      × (extract_base_topic (handover_topic b) ≡ ok topic)
      × (extract_base_topic (service_metadata_topic b) ≡ ok topic)
unfolding active_topic handover_topic service_metadata_topic
extract_base_topic-derived topic b h =
    let (s, same) = topic_builder-StatusTopic topic b h in
    rw same (
      extract-suffixed "active" (omega arith) s,
      extract-suffixed "handover" (omega arith) s,
      extract-suffixed "service-metadata" (omega arith) s,
    )

filled_cons : (p : String) (ps : List String) → is_empty p ≡ false → filled (p ∷ ps) ≡ p ∷ filled ps
unfolding filled
filled_cons p ps h = rw h

module _ {topic : String} (s : StatusTopic topic) where
  segments_active :
      segments (String.◌++◌ topic "active")
      ≡ s.root ∷ s.package_name ∷ s.version ∷ s.process_name ∷ "active" ∷ []
  unfolding segments filled
  segments_active = rw (
    split-suffixed "active" (omega arith) s,
    s.root_is,
    s.package_filled,
    s.version_filled,
    s.process_filled,
  )

  two-parts :
      String.◌++◌ (join (s.root ∷ s.package_name ∷ [])) "/+/+/active"
      ≡ String.◌++◌ s.root
          (String.◌++◌ "/" (String.◌++◌ s.package_name (String.◌++◌ "/" "+/+/active")))
  unfolding join
  two-parts = simp append_assoc

  segments_wildcard :
      segments (String.◌++◌ (join (s.root ∷ s.package_name ∷ [])) "/+/+/active")
      ≡ s.root ∷ s.package_name ∷ "+" ∷ "+" ∷ "active" ∷ []
  unfolding segments filled
  segments_wildcard =
      ap segments two-parts
      ∙ simp
          (
            split-slash,
            split_of_NoSlash s.package_name s.package_plain,
            s.root_is,
            s.package_filled,
          )
          (unfold split in refl)

package_step : (p : String) {fs ts : List String} → Accepts fs ts → Accepts (p ∷ fs) (p ∷ ts)
package_step p a = elim (Bool-cases (p === "#")) [
  | inl hash ↦ rest_of ((eq_iff p "#").0 hash)
  | inr other ↦ elim (Bool-cases (p === "+")) [
    | inl plus ↦ one_level ((eq_iff p "+").0 plus) a
    | inr text ↦ literal (ground (arith, eq_iff p "#")) (ground (arith, eq_iff p "+")) refl a
  ]
]

active_word : Accepts ("active" ∷ []) ("active" ∷ [])
active_word =
    literal (ground (arith, eq_iff "active" "#")) (ground (arith, eq_iff "active" "+")) refl
      both_end

wildcard-Accepts :
    {r p r' p' v n : String}
    → r ≡ r'
    → r ≡ "uns-infra"
    → p ≡ p'
    → Accepts (r ∷ p ∷ "+" ∷ "+" ∷ "active" ∷ []) (r' ∷ p' ∷ v ∷ n ∷ "active" ∷ [])
wildcard-Accepts {r} {p} {r'} {p'} {v} {n} roots root packages =
    literal (ground (arith, eq_iff "uns-infra" "#")) (ground (arith, eq_iff "uns-infra" "+")) roots
      (subst (λ q. Accepts (p ∷ "+" ∷ "+" ∷ "active" ∷ []) (q ∷ v ∷ n ∷ "active" ∷ [])) packages
        (package_step p (one_level refl (one_level refl active_word))))

take-split :
    {topic : String} (s : StatusTopic topic) → take 2 (split topic) ≡ s.root ∷ s.package_name ∷ []
take-split s =
    ap (λ t. take 2 (split t)) s.text
    ∙ ap (take 2) (
        split-spelled s.root s.package_name s.version s.process_name "" s.root_plain s.package_plain
          s.version_plain s.process_plain)

-- The wildcard topic that a builder derives accepts the active topic of every process with the
-- same first two parts, the root and the package.
pub matches-wildcard_active_topic :
    (topic other : String) (b c : MqttTopicBuilder)
    → topic_builder topic ≡ ok b
    → topic_builder other ≡ ok c
    → take 2 (split topic) ≡ take 2 (split other)
    → matches (wildcard_active_topic b) (active_topic c) ≡ true
unfolding wildcard_active_topic active_topic
matches-wildcard_active_topic topic other b c hb hc same =
    let (s, eb) = topic_builder-StatusTopic topic b hb in
    let (u, ec) = topic_builder-StatusTopic other c hc in
    let heads : s.root ∷ s.package_name ∷ [] ≡ u.root ∷ u.package_name ∷ [] =
      sym (take-split s) ∙ same ∙ take-split u in
    (matches_iff _ _).1 (
      rw (eb, ec, take-split s, segments_wildcard s, segments_active u)
        (wildcard-Accepts (s.root_is ∙ sym u.root_is) s.root_is (cc heads)))
