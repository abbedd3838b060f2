-- ===== src/HandoverState/Schema.antt =====
-- The tests of the schemas, `parseMqttHandoverState` and `mqttHandoverStateDigest`.
use uns_kit.Kit.{
  ℕ, suc, ◌+◌, ◌*◌, Bool, true, false, not, ◌&&◌, ◌||◌, Option, none, some, List, [], ◌∷◌, map,
  String, code, ◌===◌, ◌==◌, ltb, leb, length, all, if◌then◌else◌, Result, ok, ◌>>=◌, ◌>>◌,
  throw_if,
}
use uns_kit.AppState.{clone_application_state}
use uns_kit.HandoverState.{
  Cursor, Scalar, number_value, text_value, Value, one, many, ValueEntry, ProxyState,
  ApplicationPart, HandoverState, Offer, Codec,
}

-- `length` of a text: a character beyond the basic plane counts twice.
unfoldable pub text_length : String → ℕ
text_length String.[] = 0
text_length (String.◌∷◌ c s) = (if ltb 65535 (code c) then 2 else 1) + text_length s

unfoldable pub all_chars : (ℕ → Bool) → String → Bool
all_chars p String.[] = true
all_chars p (String.◌∷◌ c s) = p (code c) && all_chars p s

abbrev pub is_hex : ℕ → Bool
is_hex c = (leb 48 c && leb c 57) || (leb 97 c && leb c 102)

-- `/^[a-f0-9]{64}$/`
unfoldable pub is_digest : String → Bool
unfolding text_length all_chars
is_digest s = (text_length s == 64) && all_chars is_hex s

abbrev pub within : ℕ → ℕ → String → Bool
within low high s = leb low (text_length s) && leb (text_length s) high

abbrev pub is_text : String → Bool
is_text s = within 1 65535 s && all_chars (λ c. not (c == 0)) s

abbrev pub all_of {ℓ} : {A : Type ℓ} → (A → Bool) → Option A → Bool
all_of p none = true
all_of p (some a) = p a

unfoldable pub contains : String → List String → Bool
contains k [] = false
contains k (x ∷ xs) = (x === k) || contains k xs

-- `new Set(keys).size`
unfoldable pub set_size : List String → ℕ
unfolding contains
set_size [] = 0
set_size (k ∷ ks) = let rest = set_size ks in if contains k ks then rest else suc rest

abbrev pub is_preview : List String → Bool
is_preview items = all is_digest items && leb (length items) 100

unfoldable pub is_cursor : Cursor → Bool
unfolding is_digest
is_cursor c =
    leb c.batch_size 100 && is_digest c.reference_hash && all_of is_preview c.processed_tail

abbrev pub is_scalar : Scalar → Bool
is_scalar (number_value finite digits) = finite
is_scalar (text_value s) = leb (text_length s) 65535

abbrev pub is_value : Value → Bool
is_value (one s) = is_scalar s
is_value (many ss) = all is_scalar ss && leb (length ss) 4096

abbrev pub typed_if_null : ValueEntry → Bool
typed_if_null e = elim e.value [
  | none ↦ elim e.value_type [ none ↦ false | some t ↦ true ]
  | some v ↦ true
]

abbrev pub is_entry : Codec → ValueEntry → Bool
is_entry codec e =
    is_text e.topic
    && all_of is_value e.value
    && all_of (λ u. leb (text_length u) 256) e.uom
    && codec.is_datetime e.timestamp
    && typed_if_null e

abbrev pub is_sequence : String × ℕ → Bool
is_sequence entry = is_text entry.0 && leb entry.1 9007199254740991

-- `new Set(keys).size === keys.length`
abbrev pub is_distinct : List String → Bool
is_distinct keys = set_size keys == length keys

-- `mqttProxyHandoverStateSchema`
unfoldable pub is_proxy_state : Codec → ProxyState → Bool
unfolding is_cursor
is_proxy_state codec p =
    within 1 256 p.instance_name
    && is_digest p.compatibility
    && all (is_entry codec) p.values
    && leb (length p.values) 10000
    && all is_sequence p.sequences
    && leb (length p.sequences) 10000
    && is_cursor p.cursor
    && is_distinct (map (λ (v : ValueEntry). v.topic) p.values)
    && is_distinct (map (λ (v : String × ℕ). v.0) p.sequences)

-- `mqttHandoverStateSchema`
unfoldable pub is_handover_state : Codec → HandoverState → Bool
unfolding is_proxy_state
is_handover_state codec state =
    (state.protocol == 1)
    && all_of (λ (a : ApplicationPart). within 1 128 a.contract) state.application
    && all (is_proxy_state codec) state.proxies
    && leb (length state.proxies) 64
    && is_distinct (map (λ (p : ProxyState). p.instance_name) state.proxies)

-- `mqttHandoverOfferSchema`
unfoldable pub is_offer : List Offer → Bool
unfolding is_digest set_size
is_offer offer =
    all
      (λ (o : Offer).
        within 1 256 o.instance_name
        && is_digest o.compatibility
        && all_of is_preview o.input_preview)
      offer
    && leb (length offer) 64
    && is_distinct (map (λ (o : Offer). o.instance_name) offer)

unfoldable pub clone_application : Codec → Option ApplicationPart → Result (Option ApplicationPart)
clone_application codec none = ok none
clone_application codec (some a) =
    clone_application_state codec.json_bytes a.data_value
    >>= (λ copy. ok (some (record a { data_value = copy })))

-- `parseMqttHandoverState`
unfoldable pub parse_handover_state : Codec → HandoverState → Result HandoverState
unfolding is_handover_state clone_application
parse_handover_state codec input =
    throw_if (ltb (1024 * 1024) (codec.state_bytes input)) "MQTT handover state exceeds its bound"
    >> (throw_if (not (is_handover_state codec input)) "Invalid MQTT handover state"
        >> (clone_application codec input.application
            >>= (λ copy. ok (record input { application = copy }))))

-- `mqttHandoverStateDigest`
unfoldable pub handover_state_digest : Codec → HandoverState → Result String
unfolding parse_handover_state
handover_state_digest codec state =
    parse_handover_state codec state >>= (λ parsed. ok (codec.hash parsed))
