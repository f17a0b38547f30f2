-- ===== src/Codex/Normalize/Laws.antt =====
-- What `Codex::normalize` of src/backend/codex/mod.rs writes to the socket, and when it ends a turn.
use codex_bridge.Common.{
  Bool, filter, is_some, List, ◌∙◌, ap, ◌≡◌, refl, sym, ap, ◌⊎◌, inl, inr, true, false, not, ◌&&◌,
  ◌==◌, eq_iff, String, Option, none, some, [], ◌∷◌, arith, Result, ok, err, Option-cases,
  Bool-cases, is_some_and, unwrap_or, pure, Act, if◌then◌else◌, subst, continue, ok_inj,
}
use codex_bridge.Json.{get, Value, str, object, get_str, get_or_null}
use codex_bridge.Rpc as rpc
use codex_bridge.Rpc.{server_request, notification}
use codex_bridge.Connection.{World, request_no_reply, request_frame}
use codex_bridge.Backend.{
  Event, ignore, EventContext, Completion, closed, request, request_resolved, turn_completed,
}
use codex_bridge.Codex.Messages.{thread_of}
use codex_bridge.Codex.Normalize.{
  normalize, normalize_notification, item_completed, item_message, unsubscribe, completed,
}

-- The frame that unsubscribes from a thread, with the next id.
abbrev pub unsubscribe_frame : World → String → Value
unsubscribe_frame w sub =
    request_frame (w.protocol.next_id w.next_id) "thread/unsubscribe"
      (object (("threadId", str sub) ∷ []))

-- The socket gains nothing, or one request to unsubscribe from a thread that is as `S` says.
abbrev pub OnlyUnsubscribes : (String → Type 0) → World → World → Type 0
OnlyUnsubscribes S w w' =
    (w'.sent ≡ w.sent) ⊎ ((sub : String) × S sub × (w'.sent ≡ unsubscribe_frame w sub ∷ w.sent))

unsubscribe_lem :
    (S : String → Type 0) (sub : Option String) (w : World)
    → ((x : String) → sub ≡ some x → S x)
    → OnlyUnsubscribes S w (unsubscribe sub w).1
unfolding unsubscribe request_no_reply
unsubscribe_lem S none w told = inl refl
unsubscribe_lem S (some sub) w told =
    elim (Option-cases (w.outside.accepts (unsubscribe_frame w sub ∷ w.sent))) [
      | inl e ↦ inr (sub, told sub refl, ground arith)
      | inr (x, e) ↦ inl (ground arith)
    ]

-- The item tells that the sub-agent with this thread was started.
abbrev pub IsStarted : Value → String → Type 0
IsStarted item sub =
    (get_str "type" item ≡ some "subAgentActivity")
    × (get_str "kind" item ≡ some "started")
    × (get_str "agentThreadId" item ≡ some sub)

is_text :
    (text : String) (o : Option String) → is_some_and (λ t. t == text) o ≡ true → o ≡ some text
is_text text none h = absurd (ground arith)
is_text text (some t) h = ap some ((eq_iff t text).0 h)

item_message_lem :
    (item : Value) (w : World) → OnlyUnsubscribes (IsStarted item) w (item_message item w).1
unfolding item_message
item_message_lem item w =
    elim (Bool-cases (is_some_and (λ t. t == "agentMessage") (get_str "type" item))) [
      | inl e ↦ rw e (inl refl)
      | inr e ↦
          rw e
            (elim (Bool-cases (
              is_some_and (λ t. t == "subAgentActivity") (get_str "type" item)
              && is_some_and (λ k. k == "started") (get_str "kind" item))) [
                | inl f ↦ rw f (
                    unsubscribe_lem (IsStarted item) (get_str "agentThreadId" item) w (λ x named. (
                      is_text "subAgentActivity" (get_str "type" item) (ground arith),
                      is_text "started" (get_str "kind" item) (ground arith),
                      named,
                    )))
                | inr f ↦ rw f (inl refl)
              ])
    ]

abbrev NotForeign : EventContext → Value → Type 0
NotForeign context params =
    is_some_and (λ thread. not (thread == context.thread_id)) (thread_of params) ≡ false

-- A completed turn is reported by a `turn/completed` that no other thread sent, with the turn's id
-- and a status that ends it.
abbrev pub IsReport : EventContext → String → Value → Event → Type 0
IsReport context method params (turn_completed c) =
    (method ≡ "turn/completed")
    × (c.turn_id ≡ get_str "id" (get_or_null "turn" params))
    × ((c.status == "inProgress") ≡ false)
    × NotForeign context params
IsReport context method params (closed _) = ⊥
IsReport context method params (request _) = ⊥
IsReport context method params (request_resolved _ _) = ⊥
IsReport context method params _ = Unit

abbrev NotCompleted : Event → Type 0
NotCompleted (turn_completed c) = ⊥
NotCompleted _ = Unit

abbrev Outcome : (Event → Type 0) → (String → Type 0) → World → Result Event × World → Type 0
Outcome P S w r = OnlyUnsubscribes S w r.1 × ((event : Event) → r.0 ≡ ok event → P event)

pure_lem :
    (P : Event → Type 0) (S : String → Type 0) (e : Event) (w : World)
    → P e
    → Outcome P S w (pure e w)
pure_lem P S e w p = (inl refl, λ event h. subst P (ok_inj h) p)

completed_lem :
    (context : EventContext) (params : Value)
    → NotForeign context params
    → IsReport context "turn/completed" params (completed params)
unfolding completed
completed_lem context params n =
    elim (Bool-cases
      (unwrap_or (get_str "status" (get_or_null "turn" params)) "failed" == "inProgress")) [
        | inl e ↦ rw e tt
        | inr e ↦ rw e (refl, refl, e, n)
      ]

continue_lem :
    {A : Type 0} (P : Event → Type 0) (S : String → Type 0) (f : A → Event) (w w' : World)
    (r : Result A)
    → OnlyUnsubscribes S w w'
    → ((a : A) → P (f a))
    → Outcome P S w (continue r (λ a. pure (f a)) w')
continue_lem P S f w w' (ok a) u p = (u, λ event h. subst P (ok_inj h) (p a))
continue_lem P S f w w' (err e) u p = (u, λ event h. absurd (ground arith))

-- What the notification tells of the thread that is unsubscribed from.
abbrev Started : EventContext → String → Value → String → Type 0
Started context method params sub =
    (method ≡ "item/completed")
    × NotForeign context params
    × IsStarted (get_or_null "item" params) sub

started_lem :
    (context : EventContext) (method : String) (params : Value) (w w' : World)
    → method ≡ "item/completed"
    → NotForeign context params
    → OnlyUnsubscribes (IsStarted (get_or_null "item" params)) w w'
    → OnlyUnsubscribes (Started context method params) w w'
started_lem context method params w w' m n (inl same) = inl same
started_lem context method params w w' m n (inr (sub, s, e)) = inr (sub, (m, n, s), e)

item_completed_lem :
    (context : EventContext) (method : String) (params : Value) (w : World)
    → method ≡ "item/completed"
    → NotForeign context params
    → Outcome
        (IsReport context method params)
        (Started context method params)
        w
        (item_completed context.thread_id params w)
unfolding item_completed
item_completed_lem context method params w m n =
    let item = get_or_null "item" params in
    continue_lem (IsReport context method params) (Started context method params) _ w
      (item_message item w).1 (item_message item w).0
      (started_lem context method params w (item_message item w).1 m n (item_message_lem item w))
      (λ a. tt)

notification_lem :
    (context : EventContext) (method : String) (params : Value) (w : World)
    → NotForeign context params
    → Outcome
        (IsReport context method params)
        (Started context method params)
        w
        (normalize_notification context.thread_id method params w)
unfolding normalize_notification
notification_lem context method params w n =
    let P = IsReport context method params in
    let S = Started context method params in
    elim (Bool-cases (method == "turn/started")) [
      | inl e0 ↦ rw e0 (pure_lem P S _ w tt)
      | inr e0 ↦ rw e0 elim (Bool-cases (method == "item/completed")) [
        | inl e1 ↦
            rw e1
              (item_completed_lem context method params w ((eq_iff method "item/completed").0 e1) n)
        | inr e1 ↦ rw e1 elim (Bool-cases (method == "turn/completed")) [
          | inl e2 ↦ rw e2 (
              pure_lem P S _ w (
                subst (λ m. IsReport context m params (completed params))
                  (sym ((eq_iff method "turn/completed").0 e2)) (completed_lem context params n)))
          | inr e2 ↦ rw e2 elim (Bool-cases (method == "thread/status/changed")) [
            | inl e3 ↦ rw e3 (pure_lem P S _ w tt)
            | inr e3 ↦ rw e3 elim (Bool-cases (method == "serverRequest/resolved")) [
              | inl e4 ↦ rw e4 (pure_lem P S _ w tt)
              | inr e4 ↦ rw e4 elim (Bool-cases (method == "error")) [
                | inl e5 ↦ rw e5 (pure_lem P S _ w tt)
                | inr e5 ↦ rw e5 (pure_lem P S _ w tt)
              ]
            ]
          ]
        ]
      ]
    ]

abbrev Report : rpc.Event → EventContext → Event → Type 0
Report (notification method params) context event = IsReport context method params event
Report _ context event = NotCompleted event

unless_foreign :
    (P : Event → Type 0) (S : String → Type 0) (foreign : Bool) (m : Act World Event) (w : World)
    → (foreign ≡ false → Outcome P S w (m w))
    → P ignore
    → Outcome P S w ((if foreign then pure ignore else m) w)
unless_foreign P S true m w own p = pure_lem P S ignore w p
unless_foreign P S false m w own p = own refl

-- The event tells that the sub-agent was started, and no other thread sent it.
abbrev pub TellsStart : rpc.Event → EventContext → String → Type 0
TellsStart (notification method params) context sub = Started context method params sub
TellsStart _ context sub = ⊥

normalize_lem :
    (wire : rpc.Event) (context : EventContext) (w : World)
    → Outcome (Report wire context) (TellsStart wire context) w (normalize wire context w)
unfolding normalize
normalize_lem (rpc.closed reason) context w = pure_lem _ _ _ w tt
normalize_lem (server_request id method params) context w = pure_lem _ _ _ w tt
normalize_lem (notification method params) context w =
    unless_foreign (IsReport context method params) (Started context method params)
      (is_some_and (λ thread. not (thread == context.thread_id)) (thread_of params))
      (normalize_notification context.thread_id method params) w
      (notification_lem context method params w) tt

-- Making sense of an event of app-server writes nothing, or one frame: where the event is a notification
-- `item/completed` that no other thread sent, whose item says that a sub-agent was started, the request with the next
-- id to unsubscribe from the thread that the item names as the sub-agent's.
pub normalize_unsubscribes :
    (wire : rpc.Event) (context : EventContext) (w : World)
    → OnlyUnsubscribes (TellsStart wire context) w (normalize wire context w).1
normalize_unsubscribes wire context w = (normalize_lem wire context w).0

completed-report :
    (wire : rpc.Event) (context : EventContext) (c : Completion)
    → Report wire context (turn_completed c)
    → (params : Value) × (wire ≡ notification "turn/completed" params)
      × (c.turn_id ≡ get_str "id" (get_or_null "turn" params))
      × ((c.status == "inProgress") ≡ false)
      × NotForeign context params
completed-report (rpc.closed reason) context c r = absurd r
completed-report (server_request id method params) context c r = absurd r
completed-report (notification method params) context c (m, id, status, n) =
    (params, ap (λ x. notification x params) m, id, status, n)

-- A turn that app-server is taken to have completed was named by a notification `turn/completed`, which no
-- other thread sent, and its status is not `inProgress`.
pub normalize-completed :
    (wire : rpc.Event) (context : EventContext) (w : World) (c : Completion)
    → (normalize wire context w).0 ≡ ok (turn_completed c)
    → (params : Value) × (wire ≡ notification "turn/completed" params)
      × (c.turn_id ≡ get_str "id" (get_or_null "turn" params))
      × ((c.status == "inProgress") ≡ false)
      × NotForeign context params
normalize-completed wire context w c h =
    completed-report wire context c ((normalize_lem wire context w).1 (turn_completed c) h)

-- A response to the server has no method.
abbrev pub is_response : Value → Bool
is_response frame = not (is_some (get "method" frame))

unsubscribing :
    (id params : Value) (frames : List Value)
    → filter is_response (request_frame id "thread/unsubscribe" params ∷ frames)
      ≡ filter is_response frames
unfolding object codex_bridge.Json.lookup codex_bridge.Json.insert
unsubscribing id params frames = refl

-- Making sense of an event of app-server writes no response to the server.
pub normalize_responses :
    (wire : rpc.Event) (context : EventContext) (w : World)
    → filter is_response (normalize wire context w).1.sent ≡ filter is_response w.sent
normalize_responses wire context w = elim (normalize_unsubscribes wire context w) [
  | inl same ↦ ap (filter is_response) same
  | inr (sub, _, e) ↦
      ap (filter is_response) e
      ∙ unsubscribing (w.protocol.next_id w.next_id) (object (("threadId", str sub) ∷ [])) w.sent
]
