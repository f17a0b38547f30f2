-- ===== src/Backend.antt =====
-- src/backend/mod.rs: the types that a backend hands to the core, and the trait `Backend` as a record
-- of operations. `WaitFlags`, `RunArgs` and `Global` are those of src/cli.rs.
use codex_bridge.Common.{Bool, false, ℕ, String, Option, none, List, Act, Result, ◌==◌}
use codex_bridge.Common.Decimal.{ℤ}
use codex_bridge.Json.{Value}
use codex_bridge.Rpc as rpc
use codex_bridge.Rpc.{notification}
use codex_bridge.Host.{Outside, Machine, Command}
use codex_bridge.Connection.{World}

pub record StartedThread : Type 0 where
  pub id : String
  pub fields : Value

pub record ModelSettings : Type 0 where
  pub model : Option String
  pub effort : Option String
  pub provider : Option String

-- ModelSettings::default
abbrev pub no_settings : ModelSettings
no_settings = record { model = none; effort = none; provider = none }

pub record Turn : Type 0 where
  pub id : Option String
  pub status : Value
  pub running : Bool
  pub fields : Value

pub record Thread : Type 0 where
  pub id : String
  pub running : Bool
  pub status : Value
  pub cwd : Value
  pub model : Value
  pub turns : List Turn
  pub final_message : String

pub record WaitPolicy : Type 0 where
  pub deadlines_first : Bool
  pub isolate_selected_request : Bool
  pub request_is_progress : Bool

pub record EventContext : Type 0 where
  pub thread_id : String
  pub turn_id : Option String
  pub reply_pending : Bool

pub record UpdateFields : Type 0 where
  pub turn_id : Option String
  pub final_message : Option String
  pub progress : Bool
  pub log : Option Value

pub record Completion : Type 0 where
  pub turn_id : Option String
  pub status : String
  pub final_message : Option String
  pub fields : Value

pub record Request : Type 0 where
  pub id : Value
  pub method : String
  pub params : Value
  pub thread_id : Option String

pub data Event : Type 0 where
  ignore : Event
  closed : String → Event
  request : Request → Event
  update : UpdateFields → Event
  turn_completed : Completion → Event
  request_resolved : Value → Value → Event

pub record WaitFlags : Type 0 where
  pub stall_secs : ℕ
  pub timeout_secs : ℕ
  pub auto_decline : Bool
  pub follow : Bool

pub record RunArgs : Type 0 where
  pub thread : Option String
  pub cwd : Option String
  pub prompt : Option String
  pub prompt_file : Option String
  pub sandbox : Option String
  pub model : Option String
  pub effort : Option String
  pub developer_instructions_file : Option String
  pub no_wait : Bool
  pub wait : WaitFlags

pub record Global : Type 0 where
  pub url : String
  pub log : Option String
  pub no_log : Bool

-- `connect` yields the metadata of `Opened`.
pub record Backend (Run Decision : Type 0) : Type 0 where
  pub common : Run → RunArgs
  pub wait_policy : WaitPolicy
  pub state_name : String
  pub env_prefix : String
  pub daemon_command : Outside → String → Result Command
  pub after_ready : Outside → ℕ → Bool → Machine → Value × Machine
  pub daemon_fields : Outside → Machine → Value
  pub connect : String → Act World Value
  pub start_thread : Run → Option String → ModelSettings → Act World StartedThread
  pub start_existing_thread : String → Act World StartedThread
  pub resume_thread : String → Act World Thread
  pub subscribe : String → Act World Unit
  pub read_thread : String → Bool → Act World Thread
  pub start_turn : String → String → ModelSettings → Act World String
  pub steer : String → String → String → Act World Value
  pub interrupt : String → String → Act World Value
  pub normalize : rpc.Event → EventContext → Act World Event
  pub defer_during_selection : rpc.Event → Bool
  pub decision_response : String → Decision → Result Value
  pub unattended : ℤ × String
  pub same_request_id : Value → Value → Bool
  pub attach : String → String → Option String → World → World
  pub started_fields : StartedThread → Value → Value

-- The trait's default method.
unfoldable pub defer_completion : rpc.Event → Bool
defer_completion (notification method _) = method == "turn/completed"
defer_completion _ = false
