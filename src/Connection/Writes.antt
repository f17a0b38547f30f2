-- ===== src/Connection/Writes.antt =====
-- Which frames an action writes through the connection of src/backend/rpc.rs, put together from its parts.
use codex_bridge.Common.{
  ◌≡◌, refl, inl, inr, String, ◌∷◌, All, Act, ◌>>=◌, ◌>>◌, with_ctx, Option-cases, Result-cases,
  subst, sym,
}
use codex_bridge.Json.{Value, is_null}
use codex_bridge.Connection.{
  World, send, request, notify, request_frame, notify_frame, take_id, await_reply,
}
use codex_bridge.Connection.Envelopes.{reply_to-sent}

module _ (P : Value → Type 0) where
  -- Where all frames satisfied `P` before the action, they do behind it.
  abbrev pub Writes : {A : Type 0} → Act World A → Type 0
  Writes m = (w : World) → All P w.sent → All P (m w).1.sent

  pub Writes-silent :
      {A : Type 0} (m : Act World A) → ((w : World) → (m w).1.sent ≡ w.sent) → Writes m
  Writes-silent m same w h = subst (All P) (sym (same w)) h

  pub Writes-bind :
      {A B : Type 0} (m : Act World A) (f : A → Act World B)
      → Writes m
      → ((a : A) → Writes (f a))
      → Writes (m >>= f)
  Writes-bind m f first later w h = elim (Result-cases (m w).0) [
    | inl (a, e) ↦ rw e (later a (m w).1 (first w h))
    | inr (x, e) ↦ rw e (first w h)
  ]

  pub Writes-with_ctx :
      {A : Type 0} (c : String) (m : Act World A) → Writes m → Writes (with_ctx c m)
  Writes-with_ctx c m first w h = first w h

  pub Writes-send : (frame : Value) → P frame → Writes (send frame)
  unfolding send
  Writes-send frame p w h = elim (Option-cases (w.outside.accepts (frame ∷ w.sent))) [
    | inl e ↦ rw (e, send) (p, h)
    | inr (x, e) ↦ rw (e, send) h
  ]

  pub Writes-request :
      (method : String) (params : Value)
      → ((id : Value) → P (request_frame id method params))
      → Writes (request method params)
  unfolding request take_id await_reply
  Writes-request method params p =
      Writes-bind {B = Value} take_id
        (λ id. send (request_frame id method params) >> await_reply method)
        (Writes-silent take_id (λ w. refl))
        λ id.
          Writes-bind {B = Value} (send (request_frame id method params)) (λ _. await_reply method)
            (Writes-send (request_frame id method params) (p id))
            λ _. Writes-silent (await_reply method) (λ w. reply_to-sent method _ w)

  pub Writes-notify :
      (method : String) (params : Value)
      → P (notify_frame method params (is_null params))
      → Writes (notify method params)
  unfolding notify
  Writes-notify method params p = Writes-send (notify_frame method params (is_null params)) p
