-- ===== src/Rpc/Calls/Tests.antt =====
-- The connection of both backends with a request, an answer, a lost answer and the end.
use codex_bridge.Common.{
  String, eq_iff, ◌==◌, ◌≢◌, false, and_then, ◌≡◌, refl, some, List, [], ◌∷◌, ◌++◌, arith,
}
use codex_bridge.Common.Decimal.{show_ℤ}
use codex_bridge.Rpc.{Outcome, answered, failed, closed_error}
use codex_bridge.Codex.Wire as codex
use codex_bridge.Codex.Wire.Keys as codex_keys
use codex_bridge.Dsh.Wire as dsh
use codex_bridge.Dsh.Wire.Keys as dsh_keys
use codex_bridge.Samples.{codec, response_frame}
use codex_bridge.Json.{Value, object, str}
use codex_bridge.Rpc.Calls.{
  Shared, connected, run_steps, outcomes_of, Step, called, unheard, arrived, ended,
}
use codex_bridge.Rpc.Calls.Fate.{AreApart, fate}
use codex_bridge.Rpc.Calls.Paired.{run_steps-fate}
use codex_bridge.Rpc.Calls.Order.{run_steps-swap}

-- A request, a notice and a response for nobody, before the request that is looked at.
abbrev before : List Step
before = called ∷ unheard ∷ arrived response_frame ∷ []

abbrev behind : List Step
behind = called ∷ arrived response_frame ∷ ended "reset" ∷ []

run_steps-fate_example :
    (s : Shared) × (run_steps (dsh.wire codec) (before ++ called ∷ behind) connected ≡ some s)
    × (outcomes_of 2 s.hub.delivered ≡ fate (dsh.wire codec) ((dsh_keys.keys codec).key 3) behind)
run_steps-fate_example =
    run_steps-fate (dsh.wire codec) (dsh_keys.keys codec) before behind (omega arith)

-- The first of two requests is answered and the second gets the end.
two_requests :
    and_then {B = List Outcome × List Outcome}
      (run_steps
        (dsh.wire codec)
        (called
          ∷ called
          ∷ arrived (object (("id", str "client-1") ∷ ("result", str "done") ∷ []))
          ∷ ended "reset"
          ∷ [])
        connected)
      (λ s. some (outcomes_of 0 s.hub.delivered, outcomes_of 1 s.hub.delivered))
    ≡ some (answered (str "done") ∷ [], failed (closed_error "reset") ∷ [])
unfolding run_steps dsh.wire outcomes_of object codex_bridge.Json.lookup codex_bridge.Json.insert
    show_ℤ
two_requests = refl

abbrev own_frame : Value
own_frame = object (("id", str "client-3") ∷ ("result", str "done") ∷ [])

texts_apart :
    (s t : String) → (s == t) ≡ false → (key : String) → some s ≡ some key → some t ≢ some key
texts_apart s t differ key e f = ground (arith, eq_iff s t)

-- The one response is for the third id, the other for none of the ids.
frames_apart : AreApart (dsh.wire codec) own_frame response_frame
unfolding dsh.wire object codex_bridge.Json.lookup codex_bridge.Json.insert
frames_apart key e f = texts_apart "client-3" "client-0" refl key e f

run_steps-swap_example :
    (s s' : Shared) × (run_steps
        (dsh.wire codec)
        (before ++ called ∷ (unheard ∷ arrived own_frame ∷ arrived response_frame ∷ []))
        connected
      ≡ some s)
    × (run_steps
          (dsh.wire codec)
          (before ++ called ∷ (unheard ∷ arrived response_frame ∷ arrived own_frame ∷ []))
          connected
        ≡ some s')
    × (outcomes_of 2 s.hub.delivered ≡ outcomes_of 2 s'.hub.delivered)
run_steps-swap_example =
    run_steps-swap (dsh.wire codec) (dsh_keys.keys codec) before (unheard ∷ []) [] own_frame
      response_frame (omega arith) frames_apart
