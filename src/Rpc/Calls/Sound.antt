-- ===== src/Rpc/Calls/Sound.antt =====
-- The counter, the table and what was given, behind each step of the connection in src/backend/rpc.rs.
use codex_bridge.Common.{
  ℕ, suc, ◌≡◌, ◌<◌, ◌≢◌, refl, ◌∙◌, String, some, List, [], ◌∷◌, arith, nat_eq_iff, ap,
}
use codex_bridge.Common.Decimal.{pos, i64_half, i64_suc}
use codex_bridge.Json.{Value}
use codex_bridge.Rpc.{Protocol, Outcome, insert_waiter, shut, dispatch}
use codex_bridge.Rpc.Calls.{
  Shared, connected, outcomes_of, take, call, step, run_steps, Step, called, enqueue,
}
use codex_bridge.Rpc.Calls.Fate.{Keys}
use codex_bridge.Rpc.Calls.Table.{count, remove-IsIssued, count-remove_other, count-remove_none}
use codex_bridge.Rpc.Calls.Steps.{
  IsNumbered, HasGot, fresh-HasGot, IsNumbered-mono, shut-IsNumbered, dispatch-IsNumbered,
}

module _ (p : Protocol) (ks : Keys p) where
  -- The counter has not wrapped.
  pub record IsSound (s : Shared) : Type 0 where
    pub counter : s.next_id ≡ pos (suc s.taken)
    pub numbered : IsNumbered p ks s.taken s.hub

  pub connected-IsSound : IsSound connected
  connected-IsSound = record { counter = refl; numbered = record { issued = tt; given = tt } }

  pub take-counter :
      (s : Shared)
      → suc (suc s.taken) < i64_half
      → s.next_id ≡ pos (suc s.taken)
      → (take s).next_id ≡ pos (suc (suc s.taken))
  unfolding take i64_suc
  take-counter s few e = ground arith

  pub take-IsSound : (s : Shared) → suc (suc s.taken) < i64_half → IsSound s → IsSound (take s)
  unfolding take
  take-IsSound s few k = record {
    counter = take-counter s few k.counter;
    numbered = IsNumbered-mono p ks s.taken (suc s.taken) s.hub (ground arith) k.numbered;
  }

  abbrev pub own_key : Shared → String
  own_key s = ks.key (suc s.taken)

  -- The `expect` of a call is met.
  pub call_lem :
      (s : Shared)
      → suc (suc s.taken) < i64_half
      → IsSound s
      → call p s ≡ some (enqueue (own_key s) s)
  unfolding call
  call_lem s few k =
      rw
        (
          ap (λ z. p.response_key (p.next_id z)) k.counter ∙ ks.keyed (suc s.taken) (ground arith),
          call,
        )
        refl

  pub enqueue-IsSound :
      (s : Shared) → suc (suc s.taken) < i64_half → IsSound s → IsSound (enqueue (own_key s) s)
  unfolding enqueue insert_waiter take
  enqueue-IsSound s few k =
      let k' = take-IsSound s few k in
      record {
        counter = k'.counter;
        numbered = record {
          issued = (
            (refl, ground arith),
            remove-IsIssued p ks (suc s.taken) (own_key s) s.hub.pending k'.numbered.issued,
          );
          given = k'.numbered.given;
        };
      }

  pub enqueue-HasGot :
      (s : Shared) (w c : ℕ) (os : List Outcome)
      → suc (suc s.taken) < i64_half
      → IsSound s
      → w < s.taken
      → HasGot p ks w c os s.hub
      → HasGot p ks w c os (enqueue (own_key s) s).hub
  unfolding enqueue insert_waiter take count
  enqueue-HasGot s w c os few k lt got = (
    ground (
      arith,
      nat_eq_iff s.taken w,
      count-remove_other p ks s.taken w (own_key s) s.hub.pending differ k.numbered.issued,
    ),
    got.1,
  )
    where
      differ : own_key s ≢ ks.key (suc w)
      differ e = ground (arith, ks.injective (suc s.taken) (suc w) (ground arith) (ground arith) e)

  pub enqueue-own : (s : Shared) → IsSound s → HasGot p ks s.taken 1 [] (enqueue (own_key s) s).hub
  unfolding enqueue insert_waiter take count
  enqueue-own s k =
      let (none_yet, nothing) = fresh-HasGot p ks s.taken s.taken s.hub (ground arith) k.numbered in
      (
        ground (
          arith,
          nat_eq_iff s.taken s.taken,
          count-remove_none (own_key s) s.taken s.hub.pending none_yet,
        ),
        nothing,
      )

  -- The steps come to an end, without a panic, in a state that fulfils `Q`.
  abbrev pub Reaches : List Step → Shared → (Shared → Type 0) → Type 0
  Reaches ts s Q = (s' : Shared) × (run_steps p ts s ≡ some s') × Q s'

  abbrev pub WasGiven : ℕ → List Outcome → Shared → Type 0
  WasGiven w os s = outcomes_of w s.hub.delivered ≡ os

  pub called-Reaches :
      (ts : List Step) (s : Shared) (Q : Shared → Type 0)
      → suc (suc s.taken) < i64_half
      → IsSound s
      → Reaches ts (enqueue (own_key s) s) Q
      → Reaches (called ∷ ts) s Q
  unfolding run_steps step
  called-Reaches ts s Q few k (s', e, q) = (s', rw (call_lem s few k) e, q)

  pub arrived-IsSound :
      (s : Shared) (msg : Value) → IsSound s → IsSound (record s { hub = dispatch p msg s.hub })
  arrived-IsSound s msg k = record {
    counter = k.counter;
    numbered = dispatch-IsNumbered p ks s.taken msg s.hub k.numbered;
  }

  pub ended-IsSound :
      (s : Shared) (reason : String) → IsSound s → IsSound (record s { hub = shut reason s.hub })
  ended-IsSound s reason k = record {
    counter = k.counter;
    numbered = shut-IsNumbered p ks s.taken reason s.hub k.numbered;
  }
