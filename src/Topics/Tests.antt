-- ===== src/Topics/Tests.antt =====
-- Topics at concrete inputs.
use uns_kit.Kit.{◌≡◌, refl, ◌↔◌, true, false, ok, take, String}
use uns_kit.Topics.Split.{split, segments}
use uns_kit.Topics.Matcher.{matches, matches_iff, Accepts}
use uns_kit.Topics.Builder.{
  MqttTopicBuilder, topic_builder, active_topic, handover_topic, service_metadata_topic,
  wildcard_active_topic, extract_base_topic, sanitize_topic_part,
}
use uns_kit.Topics.Builder.Sanitize.{IsPart, sanitize_topic_part-IsPart, sanitize_topic_part_idem}
use uns_kit.Topics.Builder.Topics.{extract_base_topic-derived, matches-wildcard_active_topic}

matches_tests :
    (matches "a/+/c" "a/b/c" ≡ true)
    × (matches "a/#" "a" ≡ true)
    × (matches "/a//b" "a/b/" ≡ true)
    × (matches "a/+" "a" ≡ false)
    × (matches "a" "a/b" ≡ false)
unfolding matches segments
matches_tests = (refl, refl, refl, refl, refl)

sanitize_tests :
    (sanitize_topic_part "--My app (v2)!" ≡ "My-app-v2")
    × (sanitize_topic_part "***" ≡ "uns-process")
unfolding sanitize_topic_part
sanitize_tests = (refl, refl)

abbrev base : String
base = "uns-infra/pkg/1.0/proc/"

abbrev other : String
other = "uns-infra/pkg/2.0/x/"

abbrev builder : String → MqttTopicBuilder
builder topic = record { process_status_topic = topic }

builds : (topic_builder base ≡ ok (builder base)) × (topic_builder other ≡ ok (builder other))
unfolding topic_builder split
builds = (refl, refl)

same_package : take 2 (split base) ≡ take 2 (split other)
unfolding split
same_package = refl

matches_iff_example : (matches "a/+" "a/b" ≡ true) ↔ Accepts (segments "a/+") (segments "a/b")
matches_iff_example = matches_iff "a/+" "a/b"

extract_base_topic-derived_example :
    (extract_base_topic (active_topic (builder base)) ≡ ok base)
    × (extract_base_topic (handover_topic (builder base)) ≡ ok base)
    × (extract_base_topic (service_metadata_topic (builder base)) ≡ ok base)
extract_base_topic-derived_example = extract_base_topic-derived base (builder base) builds.0

matches-wildcard_active_topic_example :
    matches (wildcard_active_topic (builder base)) (active_topic (builder other)) ≡ true
matches-wildcard_active_topic_example =
    matches-wildcard_active_topic base other (builder base) (builder other) builds.0 builds.1
      same_package

sanitize_topic_part-IsPart_example : IsPart (sanitize_topic_part "a b")
sanitize_topic_part-IsPart_example = sanitize_topic_part-IsPart "a b"

sanitize_topic_part_idem_example :
    sanitize_topic_part (sanitize_topic_part "a  b") ≡ sanitize_topic_part "a  b"
sanitize_topic_part_idem_example = sanitize_topic_part_idem "a  b"
