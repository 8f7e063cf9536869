-- ===== src/Protocol/Message.antt =====
-- crates/quicview-protocol/src/message.rs: the control messages. Their JSON form is serde's.
use quicview.Prelude.{ℕ, Bool, Option, List, String}
use quicview.Protocol.Display.{DisplayId, Resolution, DisplayInfo}
use quicview.Protocol.Display.Layout.{DisplayLayout}

pub record SessionOffer : Type 0 where
  pub host_name : String
  pub displays : List DisplayInfo
  pub layout : DisplayLayout
  pub max_fps : ℕ
  pub supports_virtual_display : Bool

pub record NegotiateDisplay : Type 0 where
  pub display_id : Option DisplayId
  pub resolution : Resolution
  pub refresh_hz : ℕ

pub data ControlMessage : Type 0 where
  offer : SessionOffer → ControlMessage
  negotiate : NegotiateDisplay → ControlMessage
  accepted : DisplayId → ControlMessage
  request_key_frame : DisplayId → ControlMessage
  ping : ℕ → ControlMessage
  pong : ℕ → ControlMessage
  bye : ControlMessage
