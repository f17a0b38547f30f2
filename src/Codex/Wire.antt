-- ===== src/Codex/Wire.antt =====
-- src/backend/codex/rpc.rs: numeric ids and a permissive reader.
pub mod Ids
pub mod Keys
use codex_bridge.Common.{String, Option, none, some, [], ◌∷◌, Result, ok, err, ◌⧺◌}
use codex_bridge.Common.Decimal.{ℤ, show_ℤ}
use codex_bridge.Json.{Value, num, int, str, as_i64, object}
use codex_bridge.Rpc.{RpcError, Protocol, Codec}

unfoldable pub next_id : ℤ → Value
next_id sequence = num (int sequence)

unfoldable pub key_of : Option ℤ → Option String
key_of none = none
key_of (some n) = some (show_ℤ n)

unfoldable pub response_key : Value → Option String
unfolding key_of
response_key id = key_of (as_i64 id)

unfoldable pub decode : Codec → String → Result Value
decode c text = elim (c.parse text) [
  | ok v ↦ ok v
  | err _ ↦
      ok (
        object (("method", str "$/unparseable") ∷ ("params", object (("raw", str text) ∷ [])) ∷ []))
]

-- `format!(" ({data})")`
abbrev pub extra_text : Codec → Option Value → String
extra_text c none = ""
extra_text c (some v) = " (" ⧺ c.display v ⧺ ")"

unfoldable pub describe_error : Codec → RpcError → String
describe_error c e = ("rpc error " ⧺ show_ℤ e.code ⧺ ": " ⧺ e.message) ⧺ extra_text c e.extra

unfoldable pub wire : Codec → Protocol
unfolding next_id response_key decode describe_error
wire c = record {
  next_id = next_id;
  response_key = response_key;
  decode = decode c;
  binary = λ bytes. decode c (c.lossy bytes);
  describe_error = describe_error c;
}
