-- ===== src/Rpc/Pairing.antt =====
-- Request pairing in src/backend/rpc.rs: what a response, a notification and a server request do to
-- the waiting requests.
use codex_bridge.Common.{
  ℕ, ◌≡◌, refl, ◌⊎◌, inl, inr, String, none, some, List, [], ◌∷◌, ◌++◌, arith, Option-cases, ◌==◌,
  eq_iff, if◌then◌else◌,
}
use codex_bridge.Json.{Value, get, get_str, get_or_null}
use codex_bridge.Rpc.{
  Event, notification, server_request, Protocol, Hub, find_waiter, remove_waiter, outcome_of,
  dispatch, route, deliver,
}

pub find-remove :
    (k j : String) (m : List (String × ℕ))
    → find_waiter j (remove_waiter k m) ≡ (if k == j then none else find_waiter j m)
unfolding find_waiter remove_waiter
find-remove k j [] = ground arith
find-remove k j ((i, w) ∷ m) = ground (arith, find-remove k j m, eq_iff i k, eq_iff i j, eq_iff k j)

-- A response for a waiting request completes that request and takes its waiter away; the other waiters
-- keep theirs, and no event is made.
pub dispatch_response :
    (p : Protocol) (msg id : Value) (key : String) (w : ℕ) (h : Hub)
    → get "id" msg ≡ some id
    → get_str "method" msg ≡ none
    → p.response_key id ≡ some key
    → find_waiter key h.pending ≡ some w
    → ((dispatch p msg h).delivered ≡ (w, outcome_of msg) ∷ h.delivered)
      × ((j : String)
          → find_waiter j (dispatch p msg h).pending
            ≡ (if key == j then none else find_waiter j h.pending))
      × ((dispatch p msg h).events ≡ h.events)
unfolding dispatch
dispatch_response p msg id key w h has_id no_method keyed waits =
    rw (has_id, no_method, route, keyed, deliver, waits)
      (refl, (λ j. find-remove key j h.pending), refl)

-- What a message with a method stands for: a request of the server if it has an id, else a notification.
abbrev pub IsEventOf : Value → String → Event → Type 0
IsEventOf msg method e =
    ((get "id" msg ≡ none) × (e ≡ notification method (get_or_null "params" msg)))
    ⊎ ((id : Value) × (get "id" msg ≡ some id)
        × (e ≡ server_request id method (get_or_null "params" msg)))

-- A message with a method never touches the waiting requests: it becomes one event, behind the others, which
-- is a request of the server if the message has an id, and else a notification.
pub dispatch_method :
    (p : Protocol) (msg : Value) (method : String) (h : Hub)
    → get_str "method" msg ≡ some method
    → ((dispatch p msg h).pending ≡ h.pending)
      × ((dispatch p msg h).delivered ≡ h.delivered)
      × ((e : Event) × IsEventOf msg method e × ((dispatch p msg h).events ≡ h.events ++ e ∷ []))
unfolding dispatch
dispatch_method p msg method h named = elim (Option-cases (get "id" msg)) [
  | inl e ↦ (
    ground arith,
    ground arith,
    (notification method (get_or_null "params" msg), inl (e, refl), ground arith),
  )
  | inr (id, e) ↦ (
    ground arith,
    ground arith,
    (server_request id method (get_or_null "params" msg), inr (id, e, refl), ground arith),
  )
]
