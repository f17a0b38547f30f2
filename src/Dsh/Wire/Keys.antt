-- ===== src/Dsh/Wire/Keys.antt =====
-- The ids of src/backend/dsh/rpc.rs as keys of the connection's table.
use text.Mathlib.TextLemmas.{append_cancel_left}
use codex_bridge.Common.{◌≡◌, ap, arith, ◌⧺◌, refl}
use codex_bridge.Common.Decimal.{pos, show_ℤ, parse_i64, parse_i64-show_ℤ}
use codex_bridge.Rpc.{Codec}
use codex_bridge.Rpc.Calls.Fate.{Keys}
use codex_bridge.Dsh.Wire.{wire}

pub keys : (c : Codec) → Keys (wire c)
unfolding wire
keys c = record {
  key = λ n. "client-" ⧺ show_ℤ (pos n);
  keyed = λ n few. refl;
  injective = λ m n few few' e.
      let texts : show_ℤ (pos m) ≡ show_ℤ (pos n) = append_cancel_left "client-" _ _ e in
      ground
        (arith, parse_i64-show_ℤ (pos m) few, parse_i64-show_ℤ (pos n) few', ap parse_i64 texts);
}
