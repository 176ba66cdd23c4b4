-- ===== src/Streaming.antt =====
-- schema/agent/events.py: the events that a session streams to its clients. The parts of a user's
-- message and the arguments of a tool are JSON values, the status of a subagent is its text.
pub mod Live
pub mod Buffers
pub mod Turns
pub mod Interrupt
pub mod Timeline
pub mod Tests
use zj_cyber_workbench.Prelude.{ℕ, String, Bool}
use zj_cyber_workbench.Json.{Json}

-- `_AgentScopedEvent`
pub record Scoped : Type 0 where
  pub created_at : ℕ
  pub seq : ℕ
  pub agent_name : String
  pub nested_for : String
  pub nested_call_id : String

pub record UserMessageEvent : Type 0 where
  pub created_at : ℕ
  pub seq : ℕ
  pub content : Json
  pub display_text : String
  pub target_agent_code : String

pub record RunStateEvent : Type 0 where
  pub created_at : ℕ
  pub seq : ℕ
  pub running : Bool

pub record SegmentDelta : Type 0 where
  pub scoped : Scoped
  pub segment_id : String
  pub delta : String
  pub full_text : String

pub record SegmentComplete : Type 0 where
  pub scoped : Scoped
  pub segment_id : String
  pub full_text : String

pub record ToolCallEvent : Type 0 where
  pub scoped : Scoped
  pub call_id : String
  pub name : String
  pub arguments : Json

pub record ToolResultEvent : Type 0 where
  pub scoped : Scoped
  pub call_id : String
  pub output : String
  pub is_error : Bool

pub record SubagentTaskEvent : Type 0 where
  pub scoped : Scoped
  pub run_id : String
  pub parent_agent_code : String
  pub parent_agent_instance_id : String
  pub agent_code : String
  pub status : String
  pub result_preview : String
  pub error_preview : String
  pub result_chars : ℕ
  pub error_chars : ℕ
  pub truncated : Bool
  pub progress : String

pub record ErrorEvent : Type 0 where
  pub scoped : Scoped
  pub message : String
  pub error_code : String

pub data Event : Type 0 where
  user_message : UserMessageEvent → Event
  turn_boundary : Scoped → Event
  run_state : RunStateEvent → Event
  text_delta thinking_delta : SegmentDelta → Event
  text_complete thinking_complete : SegmentComplete → Event
  tool_call : ToolCallEvent → Event
  tool_result : ToolResultEvent → Event
  subagent_task : SubagentTaskEvent → Event
  done : Scoped → Event
  failed : ErrorEvent → Event
