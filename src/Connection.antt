-- ===== src/Connection.antt =====
-- The methods of `Connection` in src/backend/rpc.rs, over the process that they run in. What is
-- outside the program is the record `Outside` of Host.antt.
pub mod Envelopes
pub mod Writes
use codex_bridge.Common.{
  Bool, String, Option, none, some, List, [], ◌∷◌, Act, Result, ok, err, ◌⧺◌, ◌>>=◌, ◌>>◌,
}
use codex_bridge.Common.Decimal.{ℤ, i64_suc}
use codex_bridge.Json.{Value, str, num, int, object, is_null, set_key}
use codex_bridge.Host.{Outside, Machine}
use codex_bridge.Rpc.{Protocol, Outcome, answered, failed}

-- The histories are newest first.
pub record World : Type 0 where
  pub outside : Outside
  pub protocol : Protocol
  pub next_id : ℤ
  pub sent : List Value
  pub stdout : List Value
  pub stderr : List String
  pub commands : List (List String)
  pub machine : Machine

abbrev pub Io {ℓ} : Type ℓ → Type ℓ
Io A = World → Result A × World

unfoldable pub send : Value → Act World Unit
send v w = elim (w.outside.accepts (v ∷ w.sent)) [
  | none ↦ (ok tt, record w { sent = v ∷ w.sent })
  | some e ↦ (err ("writing to the websocket: " ⧺ e), w)
]

abbrev pub request_frame : Value → String → Value → Value
request_frame id method params =
    object (("jsonrpc", str "2.0") ∷ ("id", id) ∷ ("method", str method) ∷ ("params", params) ∷ [])

-- fetch_add on the counter
unfoldable pub take_id : Act World Value
unfolding i64_suc
take_id w = (ok (w.protocol.next_id w.next_id), record w { next_id = i64_suc w.next_id })

pub reply_to : String → Option Outcome → Act World Value
reply_to method (some (answered v)) w = (ok v, w)
reply_to method (some (failed e)) w = (err (method ⧺ " failed: " ⧺ w.protocol.describe_error e), w)
reply_to method none w = (err ("connection closed while waiting for " ⧺ method), w)

await_reply : String → Act World Value
unfolding reply_to
await_reply method w = reply_to method (w.outside.answers w.sent) w

unfoldable pub request : String → Value → Act World Value
unfolding send take_id await_reply
request method params = do id ← take_id; send (request_frame id method params); await_reply method

unfoldable pub request_no_reply : String → Value → Act World Unit
unfolding send take_id
request_no_reply method params = do id ← take_id; send (request_frame id method params)

unfoldable pub notify_frame : String → Value → Bool → Value
notify_frame method params omitted = elim omitted [
  | Bool.true ↦ object (("jsonrpc", str "2.0") ∷ ("method", str method) ∷ [])
  | Bool.false ↦
      set_key "params" params (object (("jsonrpc", str "2.0") ∷ ("method", str method) ∷ []))
]

unfoldable pub notify : String → Value → Act World Unit
unfolding send notify_frame
notify method params = send (notify_frame method params (is_null params))

abbrev pub result_frame : Value → Value → Value
result_frame id result = object (("jsonrpc", str "2.0") ∷ ("id", id) ∷ ("result", result) ∷ [])

abbrev pub error_frame : Value → ℤ → String → Value
error_frame id code message = object (
    ("jsonrpc", str "2.0")
    ∷ ("id", id)
    ∷ ("error", object (("code", num (int code)) ∷ ("message", str message) ∷ []))
    ∷ [])

unfoldable pub respond_result : Value → Value → Act World Unit
unfolding send
respond_result id result = send (result_frame id result)

unfoldable pub respond_error : Value → ℤ → String → Act World Unit
unfolding send
respond_error id code message = send (error_frame id code message)
