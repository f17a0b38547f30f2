-- ===== src/Dsh/Wire/Envelope.antt =====
-- The envelopes that src/backend/dsh/rpc.rs accepts, and its request ids.
use codex_bridge.Common.{
  ◌≡◌, ◌↔◌, ◌⊎◌, refl, subst, ◌⧺◌, ap, Bool, true, false, not, ◌==◌, eq_iff, String, Option, none,
  some, arith, ok, err, guard-passed, pass_guard, ok_inj, Result-cases, inl, inr, ◌&&◌, ◌||◌,
  is_some, is_some_and,
}
use codex_bridge.Json.{Value, get, get_str, is_string, is_object}
use codex_bridge.Rpc.{Codec}
use codex_bridge.Dsh.Wire.{check_envelope, decode, bool_eq}

abbrev AbsentOrText : Option Value → Type 0
AbsentOrText o = is_some_and (λ v. not (is_string v)) o ≡ false

-- A JSON-RPC 2.0 message: its id and its method are texts where they are present, one of them is, and
-- a response has exactly one of a result and an error.
pub record IsEnvelope (msg : Value) : Type 0 where
  pub object : is_object msg ≡ true
  pub version : get_str "jsonrpc" msg ≡ some "2.0"
  pub id : AbsentOrText (get "id" msg)
  pub method : AbsentOrText (get "method" msg)
  pub response :
      is_some (get "id" msg) ≡ true
      → is_some (get "method" msg) ≡ false
      → is_some (get "result" msg) ≡ not (is_some (get "error" msg))
  pub named : (is_some (get "id" msg) ≡ true) ⊎ (is_some (get "method" msg) ≡ true)

version_iff : (o : Option String) → (is_some_and (λ v. v == "2.0") o ≡ true) ↔ (o ≡ some "2.0")
version_iff none = ground arith
version_iff (some s) = ground (arith, eq_iff s "2.0")

neither : (i m r e : Bool) → i && (not m && bool_eq r e) ≡ false → i ≡ true → m ≡ false → r ≡ not e
neither true false true true h = λ _ _. absurd (ground arith)
neither true false true false h = λ _ _. refl
neither true false false true h = λ _ _. refl
neither true false false false h = λ _ _. absurd (ground arith)
neither true true r e h = λ _ f. absurd (ground arith)
neither false m r e h = λ f _. absurd (ground arith)

one_of : (i m r e : Bool) → (i ≡ true → m ≡ false → r ≡ not e) → i && (not m && bool_eq r e) ≡ false
one_of true false true true h = let c = h refl refl in absurd (ground arith)
one_of true false true false h = refl
one_of true false false true h = refl
one_of true false false false h = let c = h refl refl in absurd (ground arith)
one_of true true r e h = refl
one_of false m r e h = refl

both_hold : (a b : Bool) → (not a || not b ≡ false) ↔ ((a ≡ true) × (b ≡ true))
both_hold a b = ground arith

one_holds : (a b : Bool) → (not a && not b ≡ false) ↔ ((a ≡ true) ⊎ (b ≡ true))
one_holds a b = ground arith

check_envelope-IsEnvelope : (msg v : Value) → check_envelope msg ≡ ok v → (msg ≡ v) × IsEnvelope msg
unfolding check_envelope
check_envelope-IsEnvelope msg v h0 =
    let (a, h1) = guard-passed _ _ _ _ h0 in
    let (b, h2) = guard-passed _ _ _ _ h1 in
    let (c, h3) = guard-passed _ _ _ _ h2 in
    let (d, h4) = guard-passed _ _ _ _ h3 in
    let (e, h5) = guard-passed _ _ _ _ h4 in
    (
      ok_inj h5,
      record {
        object = ((both_hold _ _).0 a).0;
        version = (version_iff (get_str "jsonrpc" msg)).0 ((both_hold _ _).0 a).1;
        id = b;
        method = c;
        response = neither _ _ _ _ d;
        named = (one_holds _ _).0 e;
      },
    )

pass_envelope : (msg : Value) → IsEnvelope msg → check_envelope msg ≡ ok msg
unfolding check_envelope
pass_envelope msg w =
    pass_guard _ _ _ _ ((both_hold _ _).1 (w.object, (version_iff _).1 w.version)) (
      pass_guard _ _ _ _ w.id (
        pass_guard _ _ _ _ w.method (
          pass_guard _ _ _ _ (one_of _ _ _ _ w.response)
            (pass_guard _ _ _ _ ((one_holds _ _).1 w.named) refl))))

of_value : (v msg : Value) → v ≡ msg → IsEnvelope msg → check_envelope v ≡ ok msg
of_value v msg e w = rw e (pass_envelope msg w)

decode_json :
    (c : Codec) (text : String) (v : Value) → c.parse text ≡ ok v → decode c text ≡ check_envelope v
unfolding decode
decode_json c text v e = rw (e, decode) refl

decode_text :
    (c : Codec) (text t : String)
    → c.parse text ≡ err t
    → decode c text ≡ err ("invalid JSON from server: " ⧺ t)
unfolding decode
decode_text c text t e = rw (e, decode) refl

-- A text frame is accepted exactly when it is JSON and an envelope, and then as it was parsed.
pub decode-ok_iff :
    (c : Codec) (text : String) (msg : Value)
    → (decode c text ≡ ok msg) ↔ ((c.parse text ≡ ok msg) × IsEnvelope msg)
decode-ok_iff c text msg = elim (Result-cases (c.parse text)) [
  | inl (v, e) ↦
      rw (e, decode_json c text v e)
        (
          λ h.
              let (same, w) = check_envelope-IsEnvelope v msg h in
              (ap ok same, subst IsEnvelope same w),
          λ (p, w). of_value v msg (ok_inj p) w,
        )
  | inr (t, e) ↦
      rw (e, decode_text c text t e) (λ h. absurd (ground arith), λ (p, w). absurd (ground arith))
]
