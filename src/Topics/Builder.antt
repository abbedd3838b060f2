-- ===== src/Topics/Builder.antt =====
-- `MqttTopicBuilder` (packages/uns-core/src/uns-mqtt/mqtt-topic-builder.ts).
pub mod Sanitize
pub mod Topics
use Prim.Native.String
use uns_kit.Kit.{
  ℕ, Char, code, String, Bool, true, false, ◌&&◌, ◌||◌, not, List, [], ◌∷◌, take, length, leb, ltb,
  ◌==◌, ◌===◌, is_empty, if◌then◌else◌, Result, ok, err,
}
use uns_kit.Topics.Split.{split, join}

-- `[a-zA-Z0-9_-]`
unfoldable pub is_allowed : ℕ → Bool
is_allowed c =
    (leb b'a' c && leb c b'z')
    || (leb b'A' c && leb c b'Z')
    || (leb b'0' c && leb c b'9')
    || c == b'_'
    || c == b'-'

abbrev pub is_dash : Char → Bool
is_dash c = code c == b'-'

abbrev pub dash : Char
dash = "-"

-- `.replace(/[^a-zA-Z0-9_-]+/g, "-")`: `run` tells that the run of other characters has its dash.
unfoldable pub dash_runs : Bool → String → String
dash_runs run String.[] = ""
dash_runs run (String.◌∷◌ c s) =
    let kept = String.◌∷◌ c (dash_runs false s) in
    let skipped = dash_runs true s in
    if is_allowed (code c) then kept else if run then skipped else String.◌∷◌ dash skipped

-- `.replace(/-{2,}/g, "-")`: `run` tells that the character before was a dash.
unfoldable pub one_dash : Bool → String → String
one_dash run String.[] = ""
one_dash run (String.◌∷◌ c s) =
    let rest = one_dash (is_dash c) s in if run && is_dash c then rest else String.◌∷◌ c rest

-- `.replace(/^-+|-+$/g, "")`, its two ends.
unfoldable pub trim_start : String → String
trim_start String.[] = ""
trim_start (String.◌∷◌ c s) = let rest = trim_start s in if is_dash c then rest else String.◌∷◌ c s

abbrev put_unless_last : Bool → Char → String → String
put_unless_last true c String.[] = ""
put_unless_last false c String.[] = String.◌∷◌ c ""
put_unless_last b c (String.◌∷◌ d s) = String.◌∷◌ c (String.◌∷◌ d s)

unfoldable pub trim_end : String → String
trim_end String.[] = ""
trim_end (String.◌∷◌ c s) = put_unless_last (is_dash c) c (trim_end s)

unfoldable pub sanitize_topic_part : String → String
unfolding is_allowed dash_runs one_dash trim_start trim_end
sanitize_topic_part name =
    let sanitized = trim_end (trim_start (one_dash false (dash_runs false name))) in
    if is_empty sanitized then "uns-process" else sanitized

-- `/^uns-infra\/[^/]+\/[^/]+\/[^/]+\/$/`
abbrev status_parts : List String → Bool
status_parts (root ∷ package_name ∷ version ∷ process_name ∷ last ∷ []) =
    root === "uns-infra"
    && not (is_empty package_name)
    && not (is_empty version)
    && not (is_empty process_name)
    && is_empty last
status_parts _ = false

pub record MqttTopicBuilder : Type 0 where
  pub process_status_topic : String

-- The constructor.
unfoldable pub topic_builder : String → Result MqttTopicBuilder
topic_builder topic =
    if status_parts (split topic)
    then ok (record { process_status_topic = topic })
    else err
        "processStatusTopic must follow the pattern 'uns-infra/<packageName>/<version>/<processName>/'"

unfoldable pub active_topic : MqttTopicBuilder → String
active_topic b = String.◌++◌ b.process_status_topic "active"

unfoldable pub handover_topic : MqttTopicBuilder → String
handover_topic b = String.◌++◌ b.process_status_topic "handover"

unfoldable pub service_metadata_topic : MqttTopicBuilder → String
service_metadata_topic b = String.◌++◌ b.process_status_topic "service-metadata"

unfoldable pub wildcard_active_topic : MqttTopicBuilder → String
wildcard_active_topic b = String.◌++◌ (join (take 2 (split b.process_status_topic))) "/+/+/active"

unfoldable pub extract_base_topic : String → Result String
extract_base_topic full_topic =
    let parts = split full_topic in
    if ltb (length parts) 4
    then err "Invalid topic format. Expected 'uns-infra/<packageName>/<version>/<processName>/'."
    else ok (String.◌++◌ (join (take 4 parts)) "/")
