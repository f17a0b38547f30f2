-- ===== src/Cli/Order.antt =====
-- What src/cli.rs reads before it acts.
use codex_bridge.Common.{◌≡◌, refl, String, none, some, Result, ok, err, ◌⧺◌, ◌∷◌}
use codex_bridge.Json.{Value}
use codex_bridge.Connection.{World}
use codex_bridge.Config.{Config, load}
use codex_bridge.Backend.{Backend, Global}
use codex_bridge.Session.Handle.{exit_error, error_event}
use codex_bridge.Session.Wait.{Outcome, failed}
use codex_bridge.Cli.{
  Inputs, Command, ReplyArgs, run, reply, prompt_text, developer_instructions, payload, raw_payload,
  parsed_payload, run_with, reply_with, with_config, dispatch_with, dispatch, exit_code,
}

module _ {Run D I : Type 0} (b : Backend Run D) (into : I → Value) (i : Inputs) where
  -- What a command reads and cannot: the configuration, the prompt, the instructions, a result's JSON.
  pub data BadInput (w : World) : Command Run D I → String → Type 0 where
    config :
        (command : Command Run D I) (e : String)
        → load i.from_toml i.read_config w.outside ≡ err e
        → BadInput w command e
    prompt :
        (args : Run) (e : String) → prompt_text i (b.common args) ≡ err e → BadInput w (run args) e
    instructions :
        (args : Run) (text e : String)
        → prompt_text i (b.common args) ≡ ok text
        → developer_instructions i (b.common args) ≡ err e
        → BadInput w (run args) e
    result :
        (args : ReplyArgs D I) (raw e : String)
        → args.choice ≡ none
        → args.result ≡ some raw
        → i.parse raw ≡ err e
        → BadInput w (reply args) ("--result-json is not valid JSON" ⧺ ": " ⧺ e)

  abbrev Refused : World → Outcome × World → Type 0
  Refused w r = (x : String) × (r ≡ (failed x, w))

  with_config-Refused :
      (r : Result Config) (global : Global) (w : World) (command : Command Run D I)
      → ((c : Config) → Refused w (dispatch_with b into i c global command w))
      → Refused w (with_config b into i r global command w)
  unfolding with_config
  with_config-Refused (err e) global w command h = (e, refl)
  with_config-Refused (ok c) global w command h = h c

  dispatch-Refused :
      (global : Global) (w : World) (command : Command Run D I)
      → ((c : Config) → Refused w (dispatch_with b into i c global command w))
      → Refused w (dispatch b into i global command w)
  unfolding dispatch
  dispatch-Refused global w command h =
      with_config-Refused (load i.from_toml i.read_config w.outside) global w command h

  reply_parse :
      (args : ReplyArgs D I) (raw e : String)
      → args.choice ≡ none
      → args.result ≡ some raw
      → i.parse raw ≡ err e
      → payload b into i args ≡ err ("--result-json is not valid JSON" ⧺ ": " ⧺ e)
  unfolding payload raw_payload parsed_payload
  reply_parse args raw e h k j = rw (h, k, j, payload, raw_payload) refl

  bad-Refused :
      (global : Global) (w : World) (command : Command Run D I) (e : String)
      → BadInput w command e
      → Refused w (dispatch b into i global command w)
  unfolding dispatch with_config dispatch_with run_with reply_with
  bad-Refused global w command e (config c x h) = (e, rw (h, dispatch, with_config) refl)
  bad-Refused global w command e (prompt args x h) =
      dispatch-Refused global w (run args) λ c. (e, rw (h, dispatch_with, run_with) refl)
  bad-Refused global w command e (instructions args text x h k) =
      dispatch-Refused global w (run args) λ c. (e, rw (h, k, dispatch_with, run_with) refl)
  bad-Refused global w command e (result args raw x h k j) =
      dispatch-Refused global w (reply args)
        λ c. (e, rw (reply_parse args raw x h k j, dispatch_with, reply_with) refl)

  -- A command whose configuration, prompt, instructions or result cannot be read ends with an error and the code 4
  -- before anything is done: no daemon is probed or started, nothing is connected, sent, logged or run, and nothing is
  -- printed but the error, on stdout and on stderr.
  pub dispatch_unread :
      (global : Global) (w : World) (command : Command Run D I) (e : String)
      → BadInput w command e
      → (x : String) × (dispatch b into i global command w ≡ (failed x, w))
        × (exit_code (dispatch b into i global command w) ≡ (
          some exit_error,
          record w {
            stdout = error_event x ∷ w.stdout;
            stderr = ("agent-bridge: " ⧺ w.outside.debug_error x) ∷ w.stderr;
          },
        ))
  unfolding exit_code
  dispatch_unread global w command e bad =
      let (x, same) = bad-Refused global w command e bad in (x, same, rw same refl)
