-- ===== src/Rpc/Reader.antt =====
-- The reader task of src/backend/rpc.rs, to its end: the waiting requests and the queue of events.
use mathlib.Core.List.{Memᴰ}
use codex_bridge.Common.{
  ℕ, ◌≡◌, refl, ◌⊎◌, inl, inr, ◌∙◌, String, Option, none, some, List, [], ◌∷◌, ◌++◌, arith,
  Option-cases, Result-cases, All, Bool-cases, ◌==◌, eq_iff,
}
use codex_bridge.Json.{Value, get, get_str}
use codex_bridge.Rpc.{
  Event, closed, Protocol, Outcome, failed, Hub, find_waiter, remove_waiter, outcome_of, dispatch,
  route, deliver, push, Frame, text, binary, close, other, broken, read_frames, closed_error, drain,
  shut, reader,
}
use codex_bridge.Rpc.Pairing.{find-remove}

-- The waiter `w` is still there under `k`, or has its outcome.
abbrev pub IsServed : String → ℕ → Hub → Type 0
IsServed k w h = (find_waiter k h.pending ≡ some w) ⊎ ((o : Outcome) × Memᴰ (w, o) h.delivered)

deliver-IsServed :
    (key : String) (msg : Value) (k : String) (w : ℕ) (h : Hub)
    → IsServed k w h
    → IsServed k w (deliver key msg h)
unfolding deliver
deliver-IsServed key msg k w h s = elim (Option-cases (find_waiter key h.pending)) [
  | inl e ↦ rw (e, deliver) s
  | inr (v, e) ↦ rw (e, deliver) (served v e s)
]
  where
    served :
        (v : ℕ)
        → find_waiter key h.pending ≡ some v
        → IsServed k w h
        → (find_waiter k (remove_waiter key h.pending) ≡ some w)
          ⊎ ((o : Outcome) × Memᴰ (w, o) ((v, outcome_of msg) ∷ h.delivered))
    served v e (inr (o, m)) = inr (o, Memᴰ.tail m)
    served v e (inl f) = elim (Bool-cases (key == k)) [
      | inl same ↦ inr (outcome_of msg, Memᴰ.head (ground (arith, eq_iff key k)))
      | inr differ ↦ inl (find-remove key k h.pending ∙ ground arith)
    ]

push-IsServed :
    (k : String) (w : ℕ) (e : Event) (h : Hub) → IsServed k w h → IsServed k w (push e h)
push-IsServed k w e h s = s

dispatch-IsServed :
    (p : Protocol) (msg : Value) (k : String) (w : ℕ) (h : Hub)
    → IsServed k w h
    → IsServed k w (dispatch p msg h)
unfolding dispatch
dispatch-IsServed p msg k w h s = routed (get "id" msg) (get_str "method" msg)
  where
    keyed :
        (o : Option String) (id : Value)
        → p.response_key id ≡ o
        → IsServed k w (route p msg (some id) none h)
    keyed none id e = rw (e, route) s
    keyed (some key) id e = rw (e, route) (deliver-IsServed key msg k w h s)

    routed : (i : Option Value) (m : Option String) → IsServed k w (route p msg i m h)
    routed (some id) (some method) = s
    routed (some id) none = keyed (p.response_key id) id refl
    routed none (some method) = s
    routed none none = s

frames-IsServed :
    (p : Protocol) (fs : List Frame) (k : String) (w : ℕ) (h : Hub)
    → IsServed k w h
    → IsServed k w (read_frames p fs h).0
unfolding read_frames
frames-IsServed p [] k w h s = s
frames-IsServed p (text t ∷ fs) k w h s = elim (Result-cases (p.decode t)) [
  | inl (msg, e) ↦
      rw (e, read_frames)
        (frames-IsServed p fs k w (dispatch p msg h) (dispatch-IsServed p msg k w h s))
  | inr (x, e) ↦ rw (e, read_frames) s
]
frames-IsServed p (binary t ∷ fs) k w h s = elim (Result-cases (p.binary t)) [
  | inl (msg, e) ↦
      rw (e, read_frames)
        (frames-IsServed p fs k w (dispatch p msg h) (dispatch-IsServed p msg k w h s))
  | inr (x, e) ↦ rw (e, read_frames) s
]
frames-IsServed p (close ∷ fs) k w h s = s
frames-IsServed p (other ∷ fs) k w h s = frames-IsServed p fs k w h s
frames-IsServed p (broken x ∷ fs) k w h s = s

drain_keeps :
    (reason : String) (m : List (String × ℕ)) (done : List (ℕ × Outcome)) {x : ℕ × Outcome}
    → Memᴰ x done
    → Memᴰ x (drain reason m done)
unfolding drain
drain_keeps reason [] done h = h
drain_keeps reason ((k, w) ∷ m) done h = drain_keeps reason m _ (Memᴰ.tail h)

drain_serves :
    (reason k : String) (w : ℕ) (m : List (String × ℕ)) (done : List (ℕ × Outcome))
    → find_waiter k m ≡ some w
    → Memᴰ (w, failed (closed_error reason)) (drain reason m done)
unfolding drain find_waiter
drain_serves reason k w [] done h = cc
drain_serves reason k w ((j, v) ∷ m) done h = elim (Bool-cases (j == k)) [
  | inl same ↦ drain_keeps reason m _ (Memᴰ.head (ground arith))
  | inr differ ↦ drain_serves reason k w m _ (ground arith)
]

-- Every request that waits gets an outcome, from a response or from the end of the connection,
-- whatever frames the reader reads.
pub reader_serves :
    (p : Protocol) (fs : List Frame) (k : String) (w : ℕ) (h : Hub)
    → find_waiter k h.pending ≡ some w
    → (o : Outcome) × Memᴰ (w, o) (reader p fs h).delivered
unfolding reader shut
reader_serves p fs k w h waits = elim (frames-IsServed p fs k w h (inl waits)) [
  | inl still ↦ (
    failed (closed_error (read_frames p fs h).1),
    drain_serves _ k w (read_frames p fs h).0.pending _ still,
  )
  | inr (o, m) ↦ (o, drain_keeps _ (read_frames p fs h).0.pending _ m)
]

-- Not the end of the connection.
abbrev pub IsMessage : Event → Type 0
IsMessage (closed reason) = ⊥
IsMessage _ = Unit

All-concat :
    (es : List Event) (e : Event) → All IsMessage es → IsMessage e → All IsMessage (es ++ e ∷ [])
All-concat [] e h k = (k, tt)
All-concat (x ∷ es) e h k = (h.0, All-concat es e h.1 k)

dispatch_messages :
    (p : Protocol) (msg : Value) (h : Hub)
    → All IsMessage h.events
    → All IsMessage (dispatch p msg h).events
unfolding dispatch
dispatch_messages p msg h s = routed (get "id" msg) (get_str "method" msg)
  where
    found :
        (o : Option ℕ) (key : String)
        → find_waiter key h.pending ≡ o
        → All IsMessage (deliver key msg h).events
    found none key e = rw (e, deliver) s
    found (some w) key e = rw (e, deliver) s

    keyed :
        (o : Option String) (id : Value)
        → p.response_key id ≡ o
        → All IsMessage (route p msg (some id) none h).events
    keyed none id e = rw (e, route) s
    keyed (some key) id e = rw (e, route) (found (find_waiter key h.pending) key refl)

    routed : (i : Option Value) (m : Option String) → All IsMessage (route p msg i m h).events
    routed (some id) (some method) = All-concat h.events _ s tt
    routed (some id) none = keyed (p.response_key id) id refl
    routed none (some method) = All-concat h.events _ s tt
    routed none none = s

frames_messages :
    (p : Protocol) (fs : List Frame) (h : Hub)
    → All IsMessage h.events
    → All IsMessage (read_frames p fs h).0.events
unfolding read_frames
frames_messages p [] h s = s
frames_messages p (text t ∷ fs) h s = elim (Result-cases (p.decode t)) [
  | inl (msg, e) ↦
      rw (e, read_frames) (frames_messages p fs (dispatch p msg h) (dispatch_messages p msg h s))
  | inr (x, e) ↦ rw (e, read_frames) s
]
frames_messages p (binary t ∷ fs) h s = elim (Result-cases (p.binary t)) [
  | inl (msg, e) ↦
      rw (e, read_frames) (frames_messages p fs (dispatch p msg h) (dispatch_messages p msg h s))
  | inr (x, e) ↦ rw (e, read_frames) s
]
frames_messages p (close ∷ fs) h s = s
frames_messages p (other ∷ fs) h s = frames_messages p fs h s
frames_messages p (broken x ∷ fs) h s = s

-- Where no end was queued before, the reader queues exactly one, behind every message, and leaves no
-- request waiting.
pub reader_closes_once :
    (p : Protocol) (fs : List Frame) (h : Hub)
    → All IsMessage h.events
    → ((es : List Event) × (reason : String) × All IsMessage es
        × ((reader p fs h).events ≡ es ++ closed reason ∷ []))
      × ((reader p fs h).pending ≡ [])
unfolding reader shut
reader_closes_once p fs h s =
    (((read_frames p fs h).0.events, (read_frames p fs h).1, frames_messages p fs h s, refl), refl)
