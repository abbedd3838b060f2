-- ===== src/PublishQueue/Records.antt =====
-- The options and records of the output queue (packages/uns-core/src/uns-mqtt/publish-queue-contract.ts
-- and publish-queue-store.ts), and the checks on an envelope, by the writer
-- (`MqttPublishQueue.enqueueOrThrow`) and by the reader (`validateOutputRow` of
-- packages/uns-core/src/runtime/mqtt-output-state-program.mjs).
use Prim.Native.String.{len}
use uns_kit.Kit.{
  ℕ, ◌+◌, ◌^◌, ◌-◌, code, String, Bool, true, false, ◌&&◌, ◌||◌, not, Option, none, some, List, [],
  ◌∷◌, ltb, leb, ◌==◌, is_empty, if◌then◌else◌, Result, ◌>>◌, throw_if,
}

pub data Mode : Type 0 where
  buffered durable : Mode

-- `ResolvedMqttPublishQueueOptions`: the fields that the queue and its store read. The two time-outs
-- only set timers.
pub record Config : Type 0 where
  pub mode : Mode
  pub max_records : ℕ
  pub max_bytes : ℕ
  pub memory_records : ℕ
  pub memory_bytes : ℕ
  pub max_message_bytes : ℕ
  pub max_disk_bytes : ℕ
  pub min_free_bytes : ℕ

pub record PublishRecord : Type 0 where
  pub seq : ℕ
  pub id : String
  pub topic : String
  pub message : String
  pub qos : ℕ
  pub retain : Bool
  pub bytes : ℕ

-- `IClientPublishOptions`, with the keys besides `qos` and `retain`.
pub record PublishOptions : Type 0 where
  pub qos : Option ℕ
  pub retain : Option Bool
  pub other_keys : List String

-- `text.length`, in UTF-16 code units.
unfoldable pub utf16_length : String → ℕ
utf16_length String.[] = 0
utf16_length (String.◌∷◌ c s) = (if ltb (code c) 0x10000 then 1 else 2) + utf16_length s

-- `text.includes("\0")`
unfoldable pub has_nul : String → Bool
has_nul String.[] = false
has_nul (String.◌∷◌ c s) = code c == 0 || has_nul s

-- `/[+#]/.test(text)`
unfoldable pub has_wildcard : String → Bool
has_wildcard String.[] = false
has_wildcard (String.◌∷◌ c s) = code c == b'+' || code c == b'#' || has_wildcard s

abbrev pub qos_of : Option PublishOptions → ℕ
qos_of none = 1
qos_of (some o) = elim o.qos [ none ↦ 1 | some q ↦ q ]

abbrev pub retain_of : Option PublishOptions → Bool
retain_of none = false
retain_of (some o) = elim o.retain [ none ↦ false | some r ↦ r ]

abbrev pub has_other_keys : Option PublishOptions → Bool
has_other_keys none = false
has_other_keys (some o) = elim o.other_keys [ [] ↦ false | _ ∷ _ ↦ true ]

-- `Buffer.byteLength(topic) + Buffer.byteLength(message) + 256`
abbrev pub envelope_bytes : String → String → ℕ
envelope_bytes topic message = len topic + len message + 256

-- The checks of `enqueueOrThrow` on its arguments.
unfoldable pub check_envelope :
    Config → String → String → String → Option PublishOptions → Result (Unit {0})
check_envelope config topic message id options = do
  throw_if
      (is_empty topic
        || has_nul topic
        || has_wildcard topic
        || ltb 65535 (len topic)
        || is_empty id
        || ltb 200 (utf16_length id))
      "Invalid MQTT publish envelope"
  throw_if (has_other_keys options)
      "Persistent MQTT output currently supports only qos and retain publish options"
  throw_if (not (qos_of options == 1) && not (qos_of options == 2))
      "Persistent MQTT output requires QoS 1 or 2 broker acknowledgement"
  throw_if (ltb config.max_message_bytes (envelope_bytes topic message))
      "MQTT publish exceeds maxMessageBytes"

abbrev pub max_safe_integer : ℕ
max_safe_integer = 2 ^ 53 - 1

-- `validateOutputRow`, on a row whose text is the one that was written.
unfoldable pub validate_output_row : PublishRecord → Bool
validate_output_row r =
    leb 1 r.seq
    && leb r.seq max_safe_integer
    && not (is_empty r.id)
    && leb (utf16_length r.id) 200
    && not (is_empty r.topic)
    && not (has_nul r.topic || has_wildcard r.topic)
    && leb (len r.topic) 65535
    && (r.qos == 1 || r.qos == 2)
    && r.bytes == envelope_bytes r.topic r.message
