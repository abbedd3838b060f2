-- ===== src/Handover/Messages.antt =====
-- Identifiers, payloads and topics of handover messages.
use uns_kit.Kit.{
  ℕ, Bool, true, false, not, ◌&&◌, ◌||◌, Option, none, some, List, [], ◌∷◌, String, code, ◌===◌,
  ◌==◌, leb, is_empty, if◌then◌else◌, Result, ok, ◌>>=◌,
}
use uns_kit.AppState.{Json, text, flag, number}
use uns_kit.HandoverState.Schema.{text_length}
use uns_kit.Topics.Split.{split}
use uns_kit.Topics.Builder.{topic_builder, handover_topic, extract_base_topic, sanitize_topic_part}
use uns_kit.Handover.{Body, Message, Manager}

-- White space and line ends, as `trim` takes them off.
abbrev is_white : ℕ → Bool
is_white c =
    (leb 9 c && leb c 13)
    || c == 32
    || c == 160
    || c == 5760
    || (leb 8192 c && leb c 8202)
    || c == 8232
    || c == 8233
    || c == 8239
    || c == 8287
    || c == 12288
    || c == 65279

unfoldable trim_left : String → String
trim_left String.[] = ""
trim_left (String.◌∷◌ c s) = if is_white (code c) then trim_left s else String.◌∷◌ c s

unfoldable trim_right : String → String
trim_right String.[] = ""
trim_right (String.◌∷◌ c s) =
    let rest = trim_right s in if is_empty rest && is_white (code c) then "" else String.◌∷◌ c rest

-- `trim`
unfoldable pub trim : String → String
unfolding trim_left trim_right
trim s = trim_right (trim_left s)

abbrev sized : String → Option String
sized s = if leb 1 (text_length s) && leb (text_length s) 128 then some s else none

-- `normalizeHandoverId`
unfoldable pub normalize_handover_id : Option String → Option String
unfolding trim_left trim_right text_length
normalize_handover_id none = none
normalize_handover_id (some s) = sized (trim_right (trim_left s))

-- `handoverId ?? this.handoverId`
abbrev pub first_of {ℓ} : {A : Type ℓ} → Option A → Option A → Option A
first_of none fallback = fallback
first_of (some a) fallback = some a

abbrev pub is_given {ℓ} : {A : Type ℓ} → Option A → Bool
is_given none = false
is_given (some a) = true

-- `===` of texts that may be absent
abbrev pub same_text : Option String → Option String → Bool
same_text none none = true
same_text (some a) (some b) = a === b
same_text none (some b) = false
same_text (some a) none = false

abbrev pub or_empty : Option String → String
or_empty none = ""
or_empty (some s) = s

abbrev pub blank_body : String → Body
blank_body kind = record {
  message_value = none;
  data_value = none;
  kind = kind;
  protocol = none;
  handover_id = none;
  application_contract = none;
  offer = none;
  instance_name = "";
  batch_size = 0;
  reference_hash = "";
  state = none;
  state_digest = none;
}

-- `handoverPayload`
unfoldable pub handover_payload : Manager → String → Option String → Body
handover_payload m kind id = record (blank_body kind) {
  protocol = if m.stateful then some 2 else none;
  handover_id = normalize_handover_id (first_of id m.handover_id);
}

-- A message with the properties of `getUserProperties`.
unfoldable pub handover_message : Manager → String → Option String → Option String → Body → Message
handover_message m topic id response_topic body = record {
  topic = topic;
  process_id = some m.process_id;
  property_id = normalize_handover_id (first_of id m.handover_id);
  response_topic = response_topic;
  body = some body;
}

-- `getHandoverId`: the payload's before the properties'.
unfoldable pub get_handover_id : Body → Message → Option String
get_handover_id body message = normalize_handover_id (first_of body.handover_id message.property_id)

-- `acceptsHandoverResponse`
unfoldable pub accepts_handover_response : Manager → Option String → Bool
accepts_handover_response m received =
    not (is_given m.handover_id) || not (is_given received) || same_text m.handover_id received

abbrev pub active_value : Option Json → Option Bool
active_value (some (number true digits)) =
    if digits === "1" then some true else (if digits === "0" then some false else none)
active_value (some (text s)) =
    if s === "1" || s === "true"
    then some true
    else (if s === "0" || s === "false" then some false else none)
active_value (some (flag b)) = some b
active_value _ = none

-- `parseActiveValue`
unfoldable pub parse_active_value : Option Body → Option Bool
parse_active_value none = none
parse_active_value (some body) = active_value (first_of body.message_value body.data_value)

abbrev active_parts : Manager → List String → Bool
active_parts m (root ∷ package_part ∷ version ∷ process_part ∷ last ∷ []) =
    root === "uns-infra"
    && last === "active"
    && package_part === sanitize_topic_part m.package_name
    && process_part === sanitize_topic_part m.process_name
active_parts m _ = false

-- `isProcessActiveTopic`
unfoldable pub is_process_active_topic : Manager → String → Bool
is_process_active_topic m topic = active_parts m (split topic)

-- The handover topic of the process that an active topic belongs to.
unfoldable pub handover_topic_of : String → Result String
handover_topic_of topic =
    extract_base_topic topic >>= (λ base. topic_builder base >>= (λ b. ok (handover_topic b)))
