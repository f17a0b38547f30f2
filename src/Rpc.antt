-- ===== src/Rpc.antt =====
-- The transport of src/backend/rpc.rs: what a frame from the server does to the waiting requests and
-- to the queue of events, the reader task, and its end. Its proofs are in the modules below.
pub mod Calls
pub mod Pairing
pub mod Reader
mod Tests
use codex_bridge.Common.{
  String, Option, none, some, List, [], ◌∷◌, ◌++◌, ℕ, unwrap_or, and_then, Result, ok, err, ◌⧺◌,
  ◌==◌, if◌then◌else◌,
}
use codex_bridge.Common.Decimal.{ℤ, pos, negsuc}
use codex_bridge.Json.{Value, get, get_str, get_or_null, as_i64}

pub data Event : Type 0 where
  notification : String → Value → Event
  server_request : Value → String → Value → Event
  closed : String → Event

-- `extra` is the field `data`.
pub record RpcError : Type 0 where
  pub code : ℤ
  pub message : String
  pub extra : Option Value

pub record Protocol : Type 0 where
  pub next_id : ℤ → Value
  pub response_key : Value → Option String
  pub decode : String → Result Value
  pub binary : List ℕ → Result Value
  pub describe_error : RpcError → String

-- What the protocols use of serde_json and of UTF-8: its parser, its printer, `from_utf8_lossy`.
pub record Codec : Type 0 where
  pub parse : String → Result Value
  pub display : Value → String
  pub lossy : List ℕ → String

-- What a `oneshot` channel carries.
pub data Outcome : Type 0 where
  answered : Value → Outcome
  failed : RpcError → Outcome

-- A waiter is the number of its request; `delivered` is newest first, `events` oldest first.
pub record Hub : Type 0 where
  pub pending : List (String × ℕ)
  pub delivered : List (ℕ × Outcome)
  pub events : List Event

-- HashMap::get and remove
unfoldable pub find_waiter : String → List (String × ℕ) → Option ℕ
find_waiter k [] = none
find_waiter k ((j, w) ∷ m) = if j == k then some w else find_waiter k m

unfoldable pub remove_waiter : String → List (String × ℕ) → List (String × ℕ)
remove_waiter k [] = []
remove_waiter k ((j, w) ∷ m) =
    let rest = remove_waiter k m in if j == k then rest else (j, w) ∷ rest

-- HashMap::insert: a sender that was there under the same key is dropped.
unfoldable pub insert_waiter : String → ℕ → List (String × ℕ) → List (String × ℕ)
unfolding remove_waiter
insert_waiter k w m = (k, w) ∷ remove_waiter k m

unfoldable pub error_of : Value → RpcError
error_of e = record {
  code = unwrap_or (and_then (get "code" e) as_i64) (pos 0);
  message = unwrap_or (get_str "message" e) "unknown error";
  extra = get "data" e;
}

unfoldable pub outcome_of : Value → Outcome
unfolding error_of
outcome_of msg = elim (get "error" msg) [
  | some e ↦ failed (error_of e)
  | none ↦ answered (get_or_null "result" msg)
]

abbrev push : Event → Hub → Hub
push e h = record h { events = h.events ++ e ∷ [] }

pub deliver : String → Value → Hub → Hub
unfolding find_waiter remove_waiter outcome_of
deliver key msg h = elim (find_waiter key h.pending) [
  | none ↦ h
  | some w ↦ record h {
    pending = remove_waiter key h.pending;
    delivered = (w, outcome_of msg) ∷ h.delivered;
  }
]

-- The four cases of the pair of `id` and `method`.
pub route : Protocol → Value → Option Value → Option String → Hub → Hub
unfolding deliver
route p msg (some id) (some method) h = push (server_request id method (get_or_null "params" msg)) h
route p msg (some id) none h = elim (p.response_key id) [ none ↦ h | some key ↦ deliver key msg h ]
route p msg none (some method) h = push (notification method (get_or_null "params" msg)) h
route p msg none none h = h

unfoldable pub dispatch : Protocol → Value → Hub → Hub
unfolding route
dispatch p msg h = route p msg (get "id" msg) (get_str "method" msg) h

-- What the websocket yields; `other` is a ping, a pong or a raw frame.
pub data Frame : Type 0 where
  text : String → Frame
  binary : List ℕ → Frame
  close : Frame
  other : Frame
  broken : String → Frame

-- The reader's loop: what it leaves behind, and the reason for which it stopped.
unfoldable pub read_frames : Protocol → List Frame → Hub → Hub × String
unfolding dispatch
read_frames p [] h = (h, "connection ended")
read_frames p (text t ∷ fs) h = elim (p.decode t) [
  | ok msg ↦ read_frames p fs (dispatch p msg h)
  | err e ↦ (h, "protocol error: " ⧺ e)
]
read_frames p (binary b ∷ fs) h = elim (p.binary b) [
  | ok msg ↦ read_frames p fs (dispatch p msg h)
  | err e ↦ (h, "protocol error: " ⧺ e)
]
read_frames p (close ∷ fs) h = (h, "server closed the connection")
read_frames p (other ∷ fs) h = read_frames p fs h
read_frames p (broken e ∷ fs) h = (h, e)

abbrev pub closed_error : String → RpcError
closed_error reason = record {
  code = negsuc 31999;
  message = "connection closed: " ⧺ reason;
  extra = none;
}

-- `drain` and the send to each waiter
pub drain : String → List (String × ℕ) → List (ℕ × Outcome) → List (ℕ × Outcome)
drain reason [] done = done
drain reason ((k, w) ∷ m) done = drain reason m ((w, failed (closed_error reason)) ∷ done)

pub shut : String → Hub → Hub
unfolding drain
shut reason h = record {
  pending = [];
  delivered = drain reason h.pending h.delivered;
  events = h.events ++ closed reason ∷ [];
}

-- The whole task.
unfoldable pub reader : Protocol → List Frame → Hub → Hub
unfolding read_frames shut
reader p frames h = let (h', reason) = read_frames p frames h in shut reason h'
