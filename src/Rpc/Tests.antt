-- ===== src/Rpc/Tests.antt =====
-- The transport's theorems at a response, a notification and the end of a connection.
use mathlib.Core.List.{Memᴰ}
use codex_bridge.Common.{
  ◌≡◌, refl, String, none, some, List, [], ◌∷◌, ◌++◌, ◌==◌, if◌then◌else◌, All,
}
use codex_bridge.Json.{str}
use codex_bridge.Dsh.Wire.{wire}
use codex_bridge.Samples.{codec, params, world}
use codex_bridge.Common.Decimal.{pos}
use codex_bridge.Connection.{request, request_no_reply, notify, respond_result, respond_error}
use codex_bridge.Connection.Envelopes.{NextIsText, WritesEnvelope, connection-WritesEnvelope}
use codex_bridge.Rpc.{
  Hub, Event, notification, closed, Frame, text, broken, Outcome, find_waiter, reader, Protocol,
}
use codex_bridge.Rpc.Reader.{IsMessage, reader_serves, reader_closes_once}

abbrev protocol : Protocol
protocol = wire codec

abbrev hub : Hub
hub = record {
  pending = ("client-0", 0) ∷ ("client-1", 1) ∷ [];
  delivered = [];
  events = notification "turn/started" params ∷ [];
}

abbrev frames : List Frame
frames = text "response" ∷ broken "reset" ∷ []

still_waits : find_waiter "client-1" hub.pending ≡ some 1
unfolding find_waiter
still_waits = refl

reader_serves_example : (o : Outcome) × Memᴰ (1, o) (reader protocol frames hub).delivered
reader_serves_example = reader_serves protocol frames "client-1" 1 hub still_waits

reader_closes_once_example :
    ((es : List Event) × (reason : String) × All IsMessage es
      × ((reader protocol frames hub).events ≡ es ++ closed reason ∷ []))
    × ((reader protocol frames hub).pending ≡ [])
reader_closes_once_example = reader_closes_once protocol frames hub (tt, tt)

texts : NextIsText world
unfolding wire codex_bridge.Common.Decimal.show_ℤ
texts = ("client-0", refl)

connection-WritesEnvelope_example :
    WritesEnvelope world (request "thread/list" params world)
    × WritesEnvelope world (request_no_reply "thread/list" params world)
    × WritesEnvelope world (notify "thread/list" params world)
    × WritesEnvelope world (respond_result (str "r1") params world)
    × WritesEnvelope world (respond_error (str "r1") (pos 1) "no" world)
connection-WritesEnvelope_example =
    connection-WritesEnvelope "thread/list" "r1" "no" params params (pos 1) world texts
