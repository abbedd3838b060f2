-- ===== src/HandoverState/Tests.antt =====
-- The parser of the handover state at a concrete state.
use uns_kit.Kit.{◌≡◌, ◌≤◌, refl, true, none, some, [], ◌∷◌, String, err, ok}
use uns_kit.AppState.{flag, visit, clone_application_state}
use uns_kit.HandoverState.{ProxyState, HandoverState, Codec}
use uns_kit.HandoverState.Schema.{
  parse_handover_state, handover_state_digest, text_length, all_chars, set_size,
}
use uns_kit.HandoverState.Valid.{IsHandoverState, parse_handover_state-IsHandoverState}

abbrev test_codec : Codec
test_codec = record {
  is_datetime = λ s. true;
  json_bytes = λ v. 4;
  state_bytes = λ s. 300;
  hash = λ s. "5f";
}

abbrev digest : String
digest = "0123456789abcdef0123456789abcdef0123456789abcdef0123456789abcdef"

abbrev test_proxy : String → ProxyState
test_proxy name = record {
  instance_name = name;
  compatibility = digest;
  values = [];
  sequences = ("plant/line", 7) ∷ [];
  cursor = record { batch_size = 3; reference_hash = digest; processed_tail = none };
}

abbrev test_state : HandoverState
test_state = record {
  protocol = 1;
  application = some (record { contract = "totals/1"; data_value = flag true });
  proxies = test_proxy "input" ∷ test_proxy "output" ∷ [];
}

parsed : parse_handover_state test_codec test_state ≡ ok test_state
unfolding parse_handover_state text_length all_chars set_size clone_application_state visit
parsed = refl

doubled :
    parse_handover_state test_codec
      (record test_state { proxies = test_proxy "input" ∷ test_proxy "input" ∷ [] })
    ≡ err "Invalid MQTT handover state"
unfolding parse_handover_state set_size
doubled = refl

parse_handover_state-IsHandoverState_example :
    (test_state ≡ test_state)
    × (300 ≤ 1048576)
    × IsHandoverState test_state
    × (handover_state_digest test_codec test_state ≡ ok "5f")
parse_handover_state-IsHandoverState_example =
    parse_handover_state-IsHandoverState test_codec test_state test_state parsed
