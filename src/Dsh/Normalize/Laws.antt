-- ===== src/Dsh/Normalize/Laws.antt =====
-- What `Dsh::normalize` of src/backend/dsh/mod.rs reports: whose events, and when a turn is over.
use codex_bridge.Common.{
  ◌≡◌, refl, sym, ap, subst, inl, inr, Bool, true, false, not, ◌&&◌, ◌==◌, eq_iff, String, Option,
  none, some, arith, Result, ok, err, ok_inj, and_ok, ok_or, if◌then◌else◌, Bool-cases, is_some_and,
  is_some,
}
use codex_bridge.Json.{Value, get, get_str}
use codex_bridge.Rpc as rpc
use codex_bridge.Rpc.{server_request, notification}
use codex_bridge.Backend.{
  Event, EventContext, ignore, closed, request, request_resolved, update, turn_completed,
}
use codex_bridge.Dsh.Messages.{thread_of, turn_id_of}
use codex_bridge.Dsh.Normalize.{
  normalize_event, normalize_notification, complete_turn, completed, is_terminal, is_thread,
}

-- An expected turn is the one that ended.
abbrev pub Matches : Option String → Option String → Type 0
Matches expected actual = is_some_and (λ e. is_some_and (λ a. not (e == a)) actual) expected ≡ false

-- A completed turn: no request was left to answer, the status is one that ends a turn, and the turn is
-- the one that was waited for, if one was.
abbrev IsReport : EventContext → String → Value → Event → Type 0
IsReport context method params (turn_completed c) =
    (method ≡ "turn/completed")
    × (context.reply_pending ≡ false)
    × (is_terminal c.status ≡ true)
    × (c.turn_id ≡ turn_id_of (get "turnId" params))
    × Matches context.turn_id c.turn_id
IsReport context method params (closed _) = ⊥
IsReport context method params (request _) = ⊥
IsReport context method params _ = Unit

abbrev OkThat : (Event → Type 0) → Result Event → Type 0
OkThat P (ok event) = P event
OkThat P (err e) = Unit

ok_that :
    (P : Event → Type 0) (r : Result Event) (event : Event) → OkThat P r → r ≡ ok event → P event
ok_that P (ok x) event p h = subst P (ok_inj h) p
ok_that P (err e) event p h = absurd (ground arith)

and_ok_lem :
    {A : Type 0} (P : Event → Type 0) (r : Result A) (f : A → Result Event)
    → ((a : A) → r ≡ ok a → OkThat P (f a))
    → OkThat P (and_ok r f)
and_ok_lem P (ok a) f p = p a refl
and_ok_lem P (err e) f p = tt

ok_or-some : {A : Type 0} (o : Option A) (e : String) (a : A) → ok_or o e ≡ ok a → o ≡ some a
ok_or-some none e a h = absurd (ground arith)
ok_or-some (some x) e a h = ap some (ok_inj h)

if_when {ℓ κ} :
    {A : Type ℓ} (Q : A → Type κ) (b : Bool) (x y : A)
    → (b ≡ true → Q x)
    → (b ≡ false → Q y)
    → Q (if b then x else y)
if_when Q true x y p q = p refl
if_when Q false x y p q = q refl

complete_lem :
    (context : EventContext) (params : Value) (turn_id status : String)
    → context.reply_pending ≡ false
    → turn_id_of (get "turnId" params) ≡ some turn_id
    → Matches context.turn_id (some turn_id)
    → OkThat (IsReport context "turn/completed" params) (complete_turn params turn_id status)
unfolding complete_turn
complete_lem context params turn_id status settled t same = elim (Bool-cases (is_terminal status)) [
  | inl e ↦ rw e (refl, settled, e, sym t, same)
  | inr e ↦ rw e tt
]

matching_lem :
    (context : EventContext) (params : Value) (turn_id : String)
    → context.reply_pending ≡ false
    → turn_id_of (get "turnId" params) ≡ some turn_id
    → OkThat (IsReport context "turn/completed" params) (
        if is_some_and (λ expected. not (expected == turn_id)) context.turn_id
        then ok ignore
        else and_ok
            (ok_or (get_str "status" params) "turn/completed returned no status")
            (complete_turn params turn_id))
matching_lem context params turn_id settled t =
    elim (Bool-cases (is_some_and (λ expected. not (expected == turn_id)) context.turn_id)) [
      | inl e ↦ rw e tt
      | inr e ↦ rw e (
          and_ok_lem (IsReport context "turn/completed" params)
            (ok_or (get_str "status" params) "turn/completed returned no status")
            (complete_turn params turn_id)
            λ status _. complete_lem context params turn_id status settled t e)
    ]

unless :
    (P : Event → Type 0) (b : Bool) (e : String) (r : Result Event)
    → (b ≡ false → OkThat P r)
    → OkThat P (if b then err e else r)
unless P true e r p = tt
unless P false e r p = p refl

completed_lem :
    (context : EventContext) (params : Value)
    → OkThat (IsReport context "turn/completed" params) (completed params context)
unfolding completed
completed_lem context params =
    unless (IsReport context "turn/completed" params) context.reply_pending _ _ λ e.
      and_ok_lem (IsReport context "turn/completed" params)
        (ok_or (turn_id_of (get "turnId" params)) "turn/completed returned no turnId") _
        λ turn_id t. matching_lem context params turn_id e (
          ok_or-some (turn_id_of (get "turnId" params)) "turn/completed returned no turnId" turn_id
            t)

notification_lem :
    (context : EventContext) (method : String) (params : Value)
    → OkThat (IsReport context method params) (normalize_notification method params context)
unfolding normalize_notification
notification_lem context method params =
    elim (Bool-cases (method == "turn/started" && not (is_some context.turn_id))) [
      | inl e0 ↦ rw e0 (tt)
      | inr e0 ↦ rw e0 elim (Bool-cases (method == "thread/event")) [
        | inl e1 ↦ rw e1 (tt)
        | inr e1 ↦ rw e1 elim (Bool-cases (method == "turn/completed")) [
          | inl e2 ↦ rw e2 (
              subst (λ m. OkThat (IsReport context m params) (completed params context))
                (sym ((eq_iff method "turn/completed").0 e2)) (completed_lem context params))
          | inr e2 ↦ rw e2 elim (Bool-cases (method == "thread/status")) [
            | inl e3 ↦ rw e3 (tt)
            | inr e3 ↦ rw e3 elim (Bool-cases (method == "request/resolved")) [
              | inl e4 ↦ rw e4 (tt)
              | inr e4 ↦ rw e4 (tt)
            ]
          ]
        ]
      ]
    ]

-- What an event of the wire may be taken for.
abbrev pub Report : rpc.Event → EventContext → Event → Type 0
Report wire context ignore = Unit
Report wire context (closed reason) = wire ≡ rpc.closed reason
Report wire context (request r) =
    (wire ≡ server_request r.id r.method r.params) × (r.thread_id ≡ some context.thread_id)
Report wire context (turn_completed c) =
    (params : Value) × (wire ≡ notification "turn/completed" params)
    × (thread_of params ≡ some context.thread_id)
    × (context.reply_pending ≡ false)
    × (is_terminal c.status ≡ true)
    × (c.turn_id ≡ turn_id_of (get "turnId" params))
    × Matches context.turn_id c.turn_id
Report wire context _ =
    (method : String) × (params : Value) × (wire ≡ notification method params)
    × (thread_of params ≡ some context.thread_id)

is_thread_lem : (main : String) (t : Option String) → is_thread main t ≡ true → t ≡ some main
is_thread_lem main none h = absurd (ground arith)
is_thread_lem main (some t) h = ap some ((eq_iff t main).0 h)

report :
    (context : EventContext) (method : String) (params : Value) (event : Event)
    → thread_of params ≡ some context.thread_id
    → IsReport context method params event
    → Report (notification method params) context event
report context method params ignore t r = tt
report context method params (closed reason) t r = absurd r
report context method params (request q) t r = absurd r
report context method params (update u) t r = (method, params, refl, t)
report context method params (request_resolved id log) t r = (method, params, refl, t)
report context method params (turn_completed c) t (m, settled, over, id, same) =
    (params, ap (λ x. notification x params) m, t, settled, over, id, same)

report_all :
    (context : EventContext) (method : String) (params : Value) (r : Result Event)
    → thread_of params ≡ some context.thread_id
    → OkThat (IsReport context method params) r
    → OkThat (Report (notification method params) context) r
report_all context method params (ok event) t p = report context method params event t p
report_all context method params (err e) t p = tt

-- What Dsh makes of an event of its daemon comes from the selected thread only: a request is the daemon's
-- own with its id, and a completed turn is reported by `turn/completed` with a status that ends a turn, is
-- the expected turn if there is one, and is refused while a reply is pending.
pub normalize_event-Report :
    (wire : rpc.Event) (context : EventContext) (event : Event)
    → normalize_event wire context ≡ ok event
    → Report wire context event
unfolding normalize_event
normalize_event-Report (rpc.closed reason) context event h =
    ok_that (Report (rpc.closed reason) context) _ event refl h
normalize_event-Report (server_request id method params) context event h =
    let P = Report (server_request id method params) context in
    ok_that P _ event
      (if_when (OkThat P) (is_thread context.thread_id (thread_of params)) _ _
        (λ e. (refl, is_thread_lem _ _ e)) (λ _. tt))
      h
normalize_event-Report (notification method params) context event h =
    let P = Report (notification method params) context in
    ok_that P _ event
      (if_when (OkThat P) (is_thread context.thread_id (thread_of params)) _ _
        (λ e.
          report_all context method params _ (is_thread_lem _ _ e)
            (notification_lem context method params))
        (λ _. tt))
      h
