-- ===== src/Connection/Envelopes.antt =====
-- The frames that the methods of `Connection` in src/backend/rpc.rs write, against the envelope check of
-- src/backend/dsh/rpc.rs.
use codex_bridge.Common.{
  ◌≡◌, refl, ◌⊎◌, inl, inr, Bool, true, false, String, Option, none, some, ◌∷◌, Option-cases, subst,
  sym, Result, ok,
}
use codex_bridge.Common.Decimal.{ℤ}
use codex_bridge.Json.{Value, str, object, is_null, set_key, lookup, insert}
use codex_bridge.Rpc.{Outcome, answered, failed}
use codex_bridge.Dsh.Wire.{check_envelope}
use codex_bridge.Connection.{
  World, send, request, request_no_reply, notify, respond_result, respond_error, request_frame,
  result_frame, error_frame, notify_frame, take_id, await_reply, reply_to,
}

-- Nothing was written, or one frame that passes the check of envelopes.
abbrev pub WritesEnvelope : {A : Type 0} → World → Result A × World → Type 0
WritesEnvelope w r =
    (r.1.sent ≡ w.sent)
    ⊎ ((frame : Value) × (r.1.sent ≡ frame ∷ w.sent) × (check_envelope frame ≡ ok frame))

request_frame-IsEnvelope :
    (id method : String) (params : Value)
    → check_envelope (request_frame (str id) method params)
      ≡ ok (request_frame (str id) method params)
unfolding check_envelope object lookup insert
request_frame-IsEnvelope id method params = refl

result_frame-IsEnvelope :
    (id : String) (result : Value)
    → check_envelope (result_frame (str id) result) ≡ ok (result_frame (str id) result)
unfolding check_envelope object lookup insert
result_frame-IsEnvelope id result = refl

error_frame-IsEnvelope :
    (id message : String) (code : ℤ)
    → check_envelope (error_frame (str id) code message) ≡ ok (error_frame (str id) code message)
unfolding check_envelope object lookup insert
error_frame-IsEnvelope id message code = refl

notify_frame-IsEnvelope :
    (method : String) (params : Value) (omitted : Bool)
    → check_envelope (notify_frame method params omitted) ≡ ok (notify_frame method params omitted)
unfolding check_envelope object lookup insert notify_frame set_key
notify_frame-IsEnvelope method params true = refl
notify_frame-IsEnvelope method params false = refl

send-WritesEnvelope :
    (frame : Value) (w : World) → check_envelope frame ≡ ok frame → WritesEnvelope w (send frame w)
unfolding send
send-WritesEnvelope frame w e = elim (Option-cases (w.outside.accepts (frame ∷ w.sent))) [
  | inl f ↦ rw (f, send) (inr (frame, refl, e))
  | inr (x, f) ↦ rw (f, send) (inl refl)
]

pub reply_to-sent :
    (method : String) (o : Option Outcome) (w : World) → (reply_to method o w).1.sent ≡ w.sent
unfolding reply_to
reply_to-sent method none w = refl
reply_to-sent method (some (answered v)) w = refl
reply_to-sent method (some (failed e)) w = refl

-- The id that the next request gets is a text.
abbrev pub NextIsText : World → Type 0
NextIsText w = (id : String) × (w.protocol.next_id w.next_id ≡ str id)

next-IsEnvelope :
    (method : String) (params : Value) (w : World)
    → NextIsText w
    → check_envelope (request_frame (w.protocol.next_id w.next_id) method params)
      ≡ ok (request_frame (w.protocol.next_id w.next_id) method params)
next-IsEnvelope method params w (id, e) =
    subst (λ i. check_envelope (request_frame i method params) ≡ ok (request_frame i method params))
      (sym e) (request_frame-IsEnvelope id method params)

request-WritesEnvelope :
    (method : String) (params : Value) (w : World)
    → NextIsText w
    → WritesEnvelope w (request method params w)
unfolding request send take_id await_reply
request-WritesEnvelope method params w (id, e) =
    let frame = request_frame (w.protocol.next_id w.next_id) method params in
    elim (Option-cases (w.outside.accepts (frame ∷ w.sent))) [
      | inl f ↦
          rw (f, request)
            (inr (frame, reply_to-sent method _ _, next-IsEnvelope method params w (id, e)))
      | inr (x, f) ↦ rw (f, request) (inl refl)
    ]

request_no_reply-WritesEnvelope :
    (method : String) (params : Value) (w : World)
    → NextIsText w
    → WritesEnvelope w (request_no_reply method params w)
unfolding request_no_reply send take_id
request_no_reply-WritesEnvelope method params w (id, e) =
    let frame = request_frame (w.protocol.next_id w.next_id) method params in
    elim (Option-cases (w.outside.accepts (frame ∷ w.sent))) [
      | inl f ↦
          rw (f, request_no_reply) (inr (frame, refl, next-IsEnvelope method params w (id, e)))
      | inr (x, f) ↦ rw (f, request_no_reply) (inl refl)
    ]

-- Each method of a connection whose ids are texts writes at most one frame, and that frame passes the check of
-- envelopes by which its own protocol reads: the methods that request and notify, and those that respond to an id
-- that is a text.
pub connection-WritesEnvelope :
    (method id message : String) (params result : Value) (code : ℤ) (w : World)
    → NextIsText w
    → WritesEnvelope w (request method params w)
      × WritesEnvelope w (request_no_reply method params w)
      × WritesEnvelope w (notify method params w)
      × WritesEnvelope w (respond_result (str id) result w)
      × WritesEnvelope w (respond_error (str id) code message w)
unfolding notify respond_result respond_error
connection-WritesEnvelope method id message params result code w texts = (
  request-WritesEnvelope method params w texts,
  request_no_reply-WritesEnvelope method params w texts,
  send-WritesEnvelope (notify_frame method params (is_null params)) w
      (notify_frame-IsEnvelope method params (is_null params)),
  send-WritesEnvelope (result_frame (str id) result) w (result_frame-IsEnvelope id result),
  send-WritesEnvelope (error_frame (str id) code message) w
      (error_frame-IsEnvelope id message code),
)
