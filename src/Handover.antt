-- ===== src/Handover.antt =====
-- `HandoverManager` (packages/uns-core/src/uns/handover-manager.ts): the state of a process that takes part in
-- handovers, and the messages it gets and sends. A handler is cut where it awaits: what an awaited call gives is an
-- input of the segment that follows.
pub mod Messages
pub mod Source
pub mod Target
pub mod Handle
pub mod Local
pub mod System
use uns_kit.Kit.{
  ℕ, zero, String, Bool, true, false, Option, none, some, List, [], ◌∷◌, ◌++◌, Result,
}
use uns_kit.AppState.{Json}
use uns_kit.HandoverState.{Cursor, ProxyState, HandoverState, Offer}
use uns_kit.Topics.Builder.{MqttTopicBuilder}

-- What a handler reads of a parsed message. An identifier that is not a text is absent, as is a state or an offer
-- that has not the fields of one.
pub record Body : Type 0 where
  pub message_value : Option Json
  pub data_value : Option Json
  pub kind : String
  pub protocol : Option ℕ
  pub handover_id : Option String
  pub application_contract : Option String
  pub offer : Option (List Offer)
  pub instance_name : String
  pub batch_size : ℕ
  pub reference_hash : String
  pub state : Option HandoverState
  pub state_digest : Option String

-- A message with its user properties; without a body it is no JSON text.
pub record Message : Type 0 where
  pub topic : String
  pub process_id : Option String
  pub property_id : Option String
  pub response_topic : Option String
  pub body : Option Body

-- `UnsEvents["input"]`
pub record Event : Type 0 where
  pub message : Message
  pub size : ℕ
  pub retain : Bool

-- What the manager asks of a proxy without awaiting it.
pub record Proxy : Type 0 where
  pub instance_name : String
  pub compatibility : String
  pub validate_handover_state : ProxyState → Result (Unit {0})

-- `ApplicationHandoverState`
pub record Application : Type 0 where
  pub contract : String
  pub validate_state : Json → Result (Unit {0})

-- `activeTimeout`: a timer that has fired can be refreshed, one that was cleared cannot.
pub data ActiveTimer : Type 0 where
  cleared : ActiveTimer
  armed : ActiveTimer
  fired : ActiveTimer

-- A request: who asks, under which migration, and where to reply.
pub record HandoverRequest : Type 0 where
  pub peer : String
  pub handover_id : Option String
  pub reply_topic : String

-- `sourcePreparation`
pub data Preparation : Type 0 where
  not_started : Preparation
  running : Preparation
  finished : Preparation
  broken : Preparation

-- `sourceExit`, and how the process ended.
pub data SourceExit : Type 0 where
  staying : SourceExit
  draining : SourceExit
  exited : (status : ℕ) → SourceExit

-- `targetPreparation` and `targetStateApplied`: cursors are being prepared, the state is applied and activation
-- runs, the successor is active, or the effect of a failed activation is unknown.
pub data TargetPreparation : Type 0 where
  idle : TargetPreparation
  checking : (state : HandoverState) → (digest : String) → TargetPreparation
  applying : (state : HandoverState) → (digest : String) → TargetPreparation
  accepted : TargetPreparation
  stuck : TargetPreparation

pub data Output : Type 0 where
  published : Message → Output
  emitted : (active : Bool) → Output
  released : Output
  activated : Output
  publisher_active : (instance_name : String) → Output
  publisher_passive : (instance_name : String) → Output
  subscriber_active : (instance_name : String) → Option (ℕ × String) → Output
  subscriber_passive : (instance_name : String) → Output
  imported : HandoverState → Output
  stopped : (instance_name : String) → Output
  drained_receipt : Option String → Option String → Output

pub record Manager : Type 0 where
  pub process_name : String
  pub package_name : String
  pub process_id : String
  pub topics : MqttTopicBuilder
  pub handover_id : Option String
  pub stateful : Bool
  pub application : Option Application
  pub proxies : List Proxy
  pub request_enabled : Bool
  pub handover_enabled : Bool
  pub force_start : Bool
  pub timeout_ms : ℕ
  pub active : Bool
  pub requesting : Bool
  pub in_progress : Bool
  pub timer : ActiveTimer
  pub activations : ℕ
  pub expected_source : Option String
  pub asking : Option String
  pub request_pending : Bool
  pub request_retries : Option ℕ
  pub review : Option HandoverRequest
  pub source_peer : Option String
  pub accepted_id : Option String
  pub request : Option HandoverRequest
  pub preparation : Preparation
  pub prepared_state : Option HandoverState
  pub state_digest : Option String
  pub fin_retries : Option ℕ
  pub source_exit : SourceExit
  pub target : TargetPreparation
  pub accepted_state_digest : Option String
  pub waiting : List Message
  pub outputs : List Output

abbrev pub put : List Output → Manager → Manager
put os m = record m { outputs = m.outputs ++ os }
