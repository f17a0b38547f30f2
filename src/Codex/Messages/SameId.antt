-- ===== src/Codex/Messages/SameId.antt =====
-- When src/backend/codex/mod.rs takes two request ids as the same.
use codex_bridge.Common.{
  ◌≡◌, refl, ◌↔◌, ◌⊎◌, inl, inr, sym, ◌∙◌, ap, arith, eq_iff, nat_eq_iff, true, Bool-cases, String,
  Option, some, or_else, subst,
}
use codex_bridge.Common.Decimal.{ℤ, pos, negsuc, InI64, show_ℤ, parse_i64, parse_i64-show_ℤ}
use codex_bridge.Json.{
  Value, null, bool, num, int, float, str, array, map_of, as_i64, as_str, value_eq, int_eq,
}
use codex_bridge.Codex.Wire.{response_key}
use codex_bridge.Codex.Messages.{same_request_id}

-- The text of an id: itself, or that of its integer.
abbrev pub id_text : Value → Option String
id_text v = or_else (as_str v) (response_key v)

IsId : Value → String → Type 0
IsId v x = (v ≡ str x) ⊎ ((z : ℤ) × (v ≡ num (int z)) × InI64 z × (show_ℤ z ≡ x))

text-IsId : (v : Value) (x : String) → id_text v ≡ some x → IsId v x
unfolding response_key IsId codex_bridge.Codex.Wire.key_of
text-IsId (str s) x e = inl (ground arith)
text-IsId (num (int (pos n))) x e = inr (pos n, refl, ground arith, ground arith)
text-IsId (num (int (negsuc n))) x e = inr (negsuc n, refl, ground arith, ground arith)
text-IsId (num (float t)) x e = ground arith
text-IsId null x e = ground arith
text-IsId (bool b) x e = ground arith
text-IsId (array a) x e = ground arith
text-IsId (map_of m) x e = ground arith

as_i64-int : (z : ℤ) → InI64 z → as_i64 (num (int z)) ≡ some z
as_i64-int (pos n) h = ground arith
as_i64-int (negsuc n) h = ground arith

int_eq_iff : (y z : ℤ) → (int_eq y z ≡ true) ↔ (y ≡ z)
int_eq_iff (pos m) (pos n) = ground (arith, nat_eq_iff m n)
int_eq_iff (negsuc m) (negsuc n) = ground (arith, nat_eq_iff m n)
int_eq_iff (pos m) (negsuc n) = ground arith
int_eq_iff (negsuc m) (pos n) = ground arith

show-Injective : (y z : ℤ) → InI64 y → InI64 z → show_ℤ y ≡ show_ℤ z → y ≡ z
show-Injective y z hy hz e = cc (parse_i64-show_ℤ y hy, parse_i64-show_ℤ z hz, ap parse_i64 e)

texts_iff : (s t : String) → (same_request_id (str s) (str t) ≡ true) ↔ (s ≡ t)
unfolding same_request_id value_eq codex_bridge.Codex.Messages.id_matches
texts_iff s t = ground (arith, eq_iff s t)

mixed_iff :
    (z : ℤ) (t : String)
    → InI64 z
    → ((same_request_id (num (int z)) (str t) ≡ true) ↔ (show_ℤ z ≡ t))
      × ((same_request_id (str t) (num (int z)) ≡ true) ↔ (t ≡ show_ℤ z))
unfolding same_request_id value_eq codex_bridge.Codex.Messages.id_matches
mixed_iff (pos n) t h =
    (ground (arith, eq_iff t (show_ℤ (pos n))), ground (arith, eq_iff t (show_ℤ (pos n))))
mixed_iff (negsuc n) t h =
    (ground (arith, eq_iff t (show_ℤ (negsuc n))), ground (arith, eq_iff t (show_ℤ (negsuc n))))

same_numbers :
    (y z : ℤ) → InI64 y → InI64 z → same_request_id (num (int y)) (num (int z)) ≡ int_eq y z
unfolding same_request_id value_eq codex_bridge.Codex.Messages.id_matches
same_numbers y z hy hz = elim (Bool-cases (int_eq y z)) [
  | inl e ↦ rw (e, same_request_id) refl
  | inr e ↦ rw (e, as_i64-int y hy, as_i64-int z hz, same_request_id) refl
]

numbers_iff :
    (y z : ℤ)
    → InI64 y
    → InI64 z
    → (same_request_id (num (int y)) (num (int z)) ≡ true) ↔ (show_ℤ y ≡ show_ℤ z)
numbers_iff y z hy hz = (
  λ h. ap show_ℤ ((int_eq_iff y z).0 (sym (same_numbers y z hy hz) ∙ h)),
  λ e. same_numbers y z hy hz ∙ (int_eq_iff y z).1 (show-Injective y z hy hz e),
)

-- The ids are the same by the code exactly if their texts are.
abbrev IsAgreed : Value → Value → String → String → Type 0
IsAgreed a b x y = (same_request_id a b ≡ true) ↔ (x ≡ y)

-- Two ids of requests, each a text or an integer of 64 bits, are taken as the same exactly if their texts are equal,
-- the text of an integer being its decimal form.
pub same_request_id_iff :
    (a b : Value) (x y : String)
    → id_text a ≡ some x
    → id_text b ≡ some y
    → (same_request_id a b ≡ true) ↔ (x ≡ y)
unfolding IsId
same_request_id_iff a b x y ea eb = elim (text-IsId a x ea) [
  | inl p ↦ elim (text-IsId b y eb) [
    | inl q ↦ rw (p, q) (texts_iff x y)
    | inr (z, q, hz, w) ↦ subst (λ v. IsAgreed a b x v) w (rw (p, q) (mixed_iff z x hz).1)
  ]
  | inr (z, p, hz, w) ↦
      subst (λ v. IsAgreed a b v y) w
        (elim (text-IsId b y eb) [
          | inl q ↦ rw (p, q) (mixed_iff z y hz).0
          | inr (z', q, hz', w') ↦
              subst (λ v. IsAgreed a b (show_ℤ z) v) w' (rw (p, q) (numbers_iff z z' hz hz'))
        ])
]
