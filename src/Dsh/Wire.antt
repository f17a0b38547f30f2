-- ===== src/Dsh/Wire.antt =====
-- src/backend/dsh/rpc.rs: string ids and strict envelopes.
pub mod Envelope
pub mod Keys
use codex_bridge.Common.{
  Bool, true, false, not, ◌&&◌, ◌||◌, String, Option, none, some, Result, ok, err, ◌⧺◌, ◌==◌,
  and_then, is_some, is_some_and, if◌then◌else◌,
}
use codex_bridge.Common.Decimal.{ℤ, show_ℤ}
use codex_bridge.Json.{Value, str, get, get_str, as_str, is_string, is_object}
use codex_bridge.Rpc.{RpcError, Protocol, Codec}

unfoldable pub next_id : ℤ → Value
next_id sequence = str ("client-" ⧺ show_ℤ sequence)

unfoldable pub response_key : Value → Option String
response_key id = as_str id

abbrev pub bool_eq : Bool → Bool → Bool
bool_eq true b = b
bool_eq false b = not b

-- The guards of `decode`, in their order.
unfoldable pub check_envelope : Value → Result Value
check_envelope msg =
    if not (is_object msg) || not (is_some_and (λ v. v == "2.0") (get_str "jsonrpc" msg))
    then err "expected a JSON-RPC 2.0 object"
    else if is_some_and (λ id. not (is_string id)) (get "id" msg)
    then err "JSON-RPC id must be a string"
    else if is_some_and (λ method. not (is_string method)) (get "method" msg)
    then err "JSON-RPC method must be a string"
    else if is_some (get "id" msg)
        && (not (is_some (get "method" msg))
            && bool_eq (is_some (get "result" msg)) (is_some (get "error" msg)))
    then err "JSON-RPC response must contain exactly one of result or error"
    else if not (is_some (get "id" msg)) && not (is_some (get "method" msg))
    then err "JSON-RPC message has neither method nor id"
    else ok msg

unfoldable pub decode : Codec → String → Result Value
unfolding check_envelope
decode c text = elim (c.parse text) [
  | ok msg ↦ check_envelope msg
  | err e ↦ err ("invalid JSON from server: " ⧺ e)
]

-- The `match` on `kind`.
kind_text : Option String → String
kind_text none = "rpc error"
kind_text (some kind) =
    if kind == "thread_not_found"
    then "thread not found"
    else if kind == "thread_busy"
    then "thread is already running"
    else if kind == "no_active_turn"
    then "thread has no active turn"
    else if kind == "turn_mismatch"
    then "expected turn does not match the active turn"
    else if kind == "invalid_cwd"
    then "invalid working directory"
    else if kind == "not_resumable"
    then "thread cannot be resumed"
    else if kind == "internal"
    then "internal server error"
    else kind

extra_text : Codec → Option Value → String
extra_text c none = ""
extra_text c (some v) = " (" ⧺ c.display v ⧺ ")"

unfoldable pub describe_error : Codec → RpcError → String
unfolding kind_text extra_text
describe_error c e =
    (kind_text (and_then e.extra (get_str "kind")) ⧺ " (" ⧺ show_ℤ e.code ⧺ "): " ⧺ e.message)
    ⧺ extra_text c e.extra

unfoldable pub wire : Codec → Protocol
unfolding next_id response_key decode describe_error
wire c = record {
  next_id = next_id;
  response_key = response_key;
  decode = decode c;
  binary = λ bytes. err "expected a JSON text frame";
  describe_error = describe_error c;
}
