-- ===== src/HandoverState.antt =====
-- The state that a handover moves, and the checks of its schema
-- (packages/uns-core/src/runtime/mqtt-handover-state.ts). A schema is modelled as a test of a value that already
-- has the fields' types; the number of bytes of a text that `JSON.stringify` writes, the hash of the state and the
-- schema library's test of a date are parameters.
pub mod Schema
pub mod Valid
mod Tests
use uns_kit.Kit.{ℕ, String, Bool, Option, List}
use uns_kit.AppState.{Json}

-- `inputCursorSchema` (packages/uns-core/src/runtime/input-queue-boundary.ts)
pub record Cursor : Type 0 where
  pub batch_size : ℕ
  pub reference_hash : String
  pub processed_tail : Option (List String)

pub data Scalar : Type 0 where
  number_value : (finite : Bool) → (digits : String) → Scalar
  text_value : String → Scalar

pub data Value : Type 0 where
  one : Scalar → Value
  many : List Scalar → Value

pub data ValueType : Type 0 where
  string_type : ValueType
  number_type : ValueType

pub record ValueEntry : Type 0 where
  pub topic : String
  pub value : Option Value
  pub value_type : Option ValueType
  pub uom : Option String
  pub timestamp : String

-- `MqttProxyHandoverState`
pub record ProxyState : Type 0 where
  pub instance_name : String
  pub compatibility : String
  pub values : List ValueEntry
  pub sequences : List (String × ℕ)
  pub cursor : Cursor

pub record ApplicationPart : Type 0 where
  pub contract : String
  pub data_value : Json

pub record HandoverState : Type 0 where
  pub protocol : ℕ
  pub application : Option ApplicationPart
  pub proxies : List ProxyState

-- An entry of `mqttHandoverOfferSchema`
pub record Offer : Type 0 where
  pub instance_name : String
  pub compatibility : String
  pub input_preview : Option (List String)

-- What the checks use of the runtime and of its libraries.
pub record Codec : Type 0 where
  pub is_datetime : String → Bool
  pub json_bytes : Json → ℕ
  pub state_bytes : HandoverState → ℕ
  pub hash : HandoverState → String
