-- ===== src/Rpc/Calls/Steps.antt =====
-- One step of the connection in src/backend/rpc.rs, as one sender sees it.
use codex_bridge.Common.{
  ℕ, suc, ◌≡◌, ◌<◌, ◌≤◌, ◌≢◌, refl, ◌==◌, ◌∙◌, String, Option, none, some, List, [], ◌∷◌, arith,
  All, Bool-cases, Option-cases, inl, inr, eq_iff, nat_eq_iff,
}
use codex_bridge.Common.Decimal.{i64_half}
use codex_bridge.Json.{Value, get, get_str}
use codex_bridge.Rpc.{
  Event, Protocol, Outcome, Hub, find_waiter, drain, shut, deliver, route, dispatch, outcome_of,
}
use codex_bridge.Rpc.Calls.{outcomes_of}
use codex_bridge.Rpc.Calls.Fate.{Keys, key_in, key_of, answer_in}
use codex_bridge.Rpc.Calls.Table.{
  count, IsIssued, IsIssued-mono, remove-IsIssued, find-count, found-IsIssued, count-remove_self,
  count-remove_other, count-remove_none, count-found, count_fresh,
}

module _ (p : Protocol) (ks : Keys p) where
  -- The senders are the first `n`, each under its key, and no other was given anything.
  pub record IsNumbered (n : ℕ) (h : Hub) : Type 0 where
    pub issued : IsIssued p ks n h.pending
    pub given : All (λ ((v, o) : ℕ × Outcome). v < n) h.delivered

  -- The sender `w` has `c` places and was given `os`.
  abbrev pub HasGot : ℕ → ℕ → List Outcome → Hub → Type 0
  HasGot w c os h = (count w h.pending ≡ c) × (outcomes_of w h.delivered ≡ os)

  given_mono :
      (n n' : ℕ) (ds : List (ℕ × Outcome))
      → n ≤ n'
      → All (λ ((v, o) : ℕ × Outcome). v < n) ds
      → All (λ ((v, o) : ℕ × Outcome). v < n') ds
  given_mono n n' [] le h = tt
  given_mono n n' ((v, o) ∷ ds) le (lt, h) = (ground arith, given_mono n n' ds le h)

  given_fresh :
      (n w : ℕ) (ds : List (ℕ × Outcome))
      → n ≤ w
      → All (λ ((v, o) : ℕ × Outcome). v < n) ds
      → outcomes_of w ds ≡ []
  unfolding outcomes_of
  given_fresh n w [] le h = refl
  given_fresh n w ((v, o) ∷ ds) le (lt, h) = ground (arith, given_fresh n w ds le h)

  -- A sender that is still to come has no place and was given nothing.
  pub fresh-HasGot : (n w : ℕ) (h : Hub) → n ≤ w → IsNumbered n h → HasGot w 0 [] h
  fresh-HasGot n w h le k =
      (count_fresh p ks n w h.pending le k.issued, given_fresh n w h.delivered le k.given)

  pub IsNumbered-mono : (n n' : ℕ) (h : Hub) → n ≤ n' → IsNumbered n h → IsNumbered n' h
  IsNumbered-mono n n' h le k = record {
    issued = IsIssued-mono p ks n n' h.pending le k.issued;
    given = given_mono n n' h.delivered le k.given;
  }

  drain_given :
      (n : ℕ) (reason : String) (m : List (String × ℕ)) (ds : List (ℕ × Outcome))
      → IsIssued p ks n m
      → All (λ ((v, o) : ℕ × Outcome). v < n) ds
      → All (λ ((v, o) : ℕ × Outcome). v < n) (drain reason m ds)
  unfolding drain
  drain_given n reason [] ds h g = g
  drain_given n reason ((j, v) ∷ m) ds ((e, lt), h) g = drain_given n reason m _ h (lt, g)

  pub shut-IsNumbered :
      (n : ℕ) (reason : String) (h : Hub) → IsNumbered n h → IsNumbered n (shut reason h)
  unfolding shut
  shut-IsNumbered n reason h k = record {
    issued = tt;
    given = drain_given n reason h.pending h.delivered k.issued k.given;
  }

  deliver-IsNumbered :
      (n : ℕ) (key : String) (msg : Value) (h : Hub)
      → IsNumbered n h
      → IsNumbered n (deliver key msg h)
  unfolding deliver
  deliver-IsNumbered n key msg h k = elim (Option-cases (find_waiter key h.pending)) [
    | inl e ↦ rw (e, deliver) k
    | inr (v, e) ↦
        rw (e, deliver)
          record {
            issued = remove-IsIssued p ks n key h.pending k.issued;
            given = ((found-IsIssued p ks n v key h.pending k.issued e).1, k.given);
          }
  ]

  -- A response for another key leaves the sender as it is.
  deliver_other :
      (n w c : ℕ) (os : List Outcome) (key : String) (msg : Value) (h : Hub)
      → IsNumbered n h
      → key ≢ ks.key (suc w)
      → HasGot w c os h
      → HasGot w c os (deliver key msg h)
  unfolding deliver outcomes_of
  deliver_other n w c os key msg h k differ got = elim (Option-cases (find_waiter key h.pending)) [
    | inl e ↦ rw (e, deliver) got
    | inr (v, e) ↦
        rw (e, deliver)
          (
            count-remove_other p ks n w key h.pending differ k.issued ∙ got.0,
            ground (arith, found-IsIssued p ks n v key h.pending k.issued e, nat_eq_iff v w),
          )
  ]

  -- A response for the key of a sender with a place is given to it, and takes the place away.
  deliver_own :
      (n w : ℕ) (msg : Value) (h : Hub)
      → n < i64_half
      → w < n
      → IsNumbered n h
      → HasGot w 1 [] h
      → HasGot w 0 (outcome_of msg ∷ []) (deliver (ks.key (suc w)) msg h)
  unfolding deliver outcomes_of
  deliver_own n w msg h few lt k got =
      rw (find-count p ks n w h.pending few lt k.issued (ground arith), deliver)
        (count-remove_self p ks n w h.pending k.issued, ground (arith, nat_eq_iff w w))

  -- A sender without a place gets nothing more.
  deliver_done :
      (n w : ℕ) (os : List Outcome) (key : String) (msg : Value) (h : Hub)
      → IsNumbered n h
      → HasGot w 0 os h
      → HasGot w 0 os (deliver key msg h)
  unfolding deliver outcomes_of
  deliver_done n w os key msg h k got = elim (Option-cases (find_waiter key h.pending)) [
    | inl e ↦ rw (e, deliver) got
    | inr (v, e) ↦
        rw (e, deliver)
          (
            count-remove_none key w h.pending got.0,
            ground (arith, count-found key v h.pending e, nat_eq_iff v w),
          )
  ]

  -- What `dispatch` does to the table, by the key that the message answers.
  pub dispatch-route :
      (P : Hub → Type 0) (msg : Value) (h : Hub)
      → (key_of p msg ≡ none → (es : List Event) → P (record h { events = es }))
      → ((key : String) → key_of p msg ≡ some key → P (deliver key msg h))
      → P (dispatch p msg h)
  unfolding dispatch
  dispatch-route P msg h quiet served = routed (get "id" msg) (get_str "method" msg) quiet served
    where
      keyed :
          (o : Option String) (id : Value)
          → p.response_key id ≡ o
          → (p.response_key id ≡ none → (es : List Event) → P (record h { events = es }))
          → ((key : String) → p.response_key id ≡ some key → P (deliver key msg h))
          → P (route p msg (some id) none h)
      keyed none id e q f = rw (e, route) (q e h.events)
      keyed (some key) id e q f = rw (e, route) (f key e)

      routed :
          (i : Option Value) (m : Option String)
          → (key_in p i m ≡ none → (es : List Event) → P (record h { events = es }))
          → ((key : String) → key_in p i m ≡ some key → P (deliver key msg h))
          → P (route p msg i m h)
      routed (some id) (some method) q f = q refl _
      routed (some id) none q f = keyed (p.response_key id) id refl q f
      routed none (some method) q f = q refl _
      routed none none q f = q refl h.events

  pub dispatch-IsNumbered :
      (n : ℕ) (msg : Value) (h : Hub) → IsNumbered n h → IsNumbered n (dispatch p msg h)
  dispatch-IsNumbered n msg h k =
      dispatch-route (IsNumbered n) msg h (λ _ es. record { issued = k.issued; given = k.given })
        (λ key e. deliver-IsNumbered n key msg h k)

  pub dispatch_done :
      (n w : ℕ) (os : List Outcome) (msg : Value) (h : Hub)
      → IsNumbered n h
      → HasGot w 0 os h
      → HasGot w 0 os (dispatch p msg h)
  dispatch_done n w os msg h k got =
      dispatch-route (HasGot w 0 os) msg h (λ _ es. got)
        (λ key e. deliver_done n w os key msg h k got)

  -- The sender of a call gets what the message answers to its key.
  abbrev pub GetsAnswer : ℕ → Option Outcome → Hub → Type 0
  GetsAnswer w none h = HasGot w 1 [] h
  GetsAnswer w (some o) h = HasGot w 0 (o ∷ []) h

  pub dispatch_waiting :
      (n w : ℕ) (msg : Value) (h : Hub)
      → n < i64_half
      → w < n
      → IsNumbered n h
      → HasGot w 1 [] h
      → GetsAnswer w (answer_in p (ks.key (suc w)) msg) (dispatch p msg h)
  dispatch_waiting n w msg h few lt k got =
      dispatch-route (GetsAnswer w (answer_in p (ks.key (suc w)) msg)) msg h (λ e es. rw e got)
        (λ key e. elim (Bool-cases (key == ks.key (suc w))) [
          | inl same ↦
              rw (e, same, (eq_iff key (ks.key (suc w))).0 same)
                (deliver_own n w msg h few lt k got)
          | inr differ ↦
              rw (e, differ)
                (deliver_other n w 1 [] key msg h k (ground (arith, eq_iff key (ks.key (suc w))))
                  got)
        ])
