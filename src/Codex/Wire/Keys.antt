-- ===== src/Codex/Wire/Keys.antt =====
-- The ids of src/backend/codex/rpc.rs as keys of the connection's table.
use codex_bridge.Common.{ap, arith}
use codex_bridge.Common.Decimal.{pos, show_ℤ, parse_i64, parse_i64-show_ℤ}
use codex_bridge.Rpc.{Codec}
use codex_bridge.Rpc.Calls.Fate.{Keys}
use codex_bridge.Codex.Wire.{wire}
use codex_bridge.Codex.Wire.Ids.{ids_distinct}

pub keys : (c : Codec) → Keys (wire c)
unfolding wire
keys c = record {
  key = λ n. show_ℤ (pos n);
  keyed = λ n few. (ids_distinct (pos n) (pos n) few few).0;
  injective = λ m n few few' e.
      ground (arith, parse_i64-show_ℤ (pos m) few, parse_i64-show_ℤ (pos n) few', ap parse_i64 e);
}
