-- ===== src/Dsh/Messages/RoundTrip.antt =====
-- Turn ids of src/backend/dsh/mod.rs between the wire and the command line.
use codex_bridge.Common.{◌≡◌, refl, arith, String, some}
use codex_bridge.Common.Decimal.{ℤ, InI64, show_ℤ, parse_i64-show_ℤ}
use codex_bridge.Json.{num, int}
use codex_bridge.Dsh.Messages.{turn_id_of, turn_id_of_value, turn_id_wire}

-- A turn id that the daemon sends as a number in the range of `i64` is shown to the user as a text, and
-- that text goes back to the daemon as the same number.
pub turn_id_wire-turn_id_of :
    (z : ℤ)
    → InI64 z
    → (id : String) → turn_id_of (some (num (int z))) ≡ some id
    → turn_id_wire id ≡ num (int z)
unfolding turn_id_of turn_id_wire turn_id_of_value
turn_id_wire-turn_id_of z range id h =
    let e : show_ℤ z ≡ id = ground arith in rw (← e, parse_i64-show_ℤ z range, turn_id_wire) refl
