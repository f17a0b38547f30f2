-- ===== src/Codex/Wire/Ids.antt =====
-- The request ids of src/backend/codex/rpc.rs and the keys of their responses.
use codex_bridge.Common.{◌≡◌, ap, some, arith}
use codex_bridge.Common.Decimal.{ℤ, pos, negsuc, InI64, show_ℤ, parse_i64, parse_i64-show_ℤ}
use codex_bridge.Codex.Wire.{next_id, response_key}

key-next_id : (z : ℤ) → InI64 z → response_key (next_id z) ≡ some (show_ℤ z)
unfolding response_key next_id
key-next_id (pos n) h = ground arith
key-next_id (negsuc n) h = ground arith

-- An allocated id always has a key, and two ids of 64 bits with the same key are the same id.
pub ids_distinct :
    (y z : ℤ)
    → InI64 y
    → InI64 z
    → (response_key (next_id z) ≡ some (show_ℤ z))
      × (response_key (next_id y) ≡ response_key (next_id z) → y ≡ z)
ids_distinct y z hy hz = (key-next_id z hz, same)
  where
    same : response_key (next_id y) ≡ response_key (next_id z) → y ≡ z
    same e =
        let texts : show_ℤ y ≡ show_ℤ z = cc (key-next_id y hy, key-next_id z hz) in
        cc (parse_i64-show_ℤ y hy, parse_i64-show_ℤ z hz, ap parse_i64 texts)
