-- ===== src/Rpc/Calls/Paired.antt =====
-- Calls that wait at the same time in src/backend/rpc.rs, against a mailbox for each of them.
use codex_bridge.Common.{
  ℕ, suc, ◌+◌, ◌≡◌, ◌<◌, refl, ◌∙◌, Option, none, some, List, [], ◌∷◌, ◌++◌, arith, ap, subst,
}
use codex_bridge.Common.Decimal.{i64_half}
use codex_bridge.Rpc.{Protocol, Outcome, failed, shut, dispatch, closed_error}
use codex_bridge.Rpc.Calls.{
  Shared, connected, outcomes_of, take, step, run_steps, Step, called, unheard, arrived, ended,
  enqueue,
}
use codex_bridge.Rpc.Calls.Fate.{Keys, answer_in, first_or, fate, ids_in}
use codex_bridge.Rpc.Calls.Table.{count, drain_absent, drain_present}
use codex_bridge.Rpc.Calls.Steps.{HasGot, dispatch_done, GetsAnswer, dispatch_waiting}
use codex_bridge.Rpc.Calls.Sound.{
  IsSound, connected-IsSound, take-IsSound, own_key, enqueue-IsSound, enqueue-HasGot, enqueue-own,
  Reaches, WasGiven, called-Reaches, arrived-IsSound, ended-IsSound,
}

module _ (p : Protocol) (ks : Keys p) where
  -- A sender that was served is given nothing more.
  run_done :
      (ts : List Step) (s : Shared) (w : ℕ) (os : List Outcome)
      → suc (s.taken + ids_in ts) < i64_half
      → IsSound p ks s
      → w < s.taken
      → HasGot p ks w 0 os s.hub
      → Reaches p ks ts s (WasGiven p ks w os)
  unfolding run_steps step shut count enqueue take
  run_done [] s w os few k lt got = (s, refl, got.1)
  run_done (called ∷ ts) s w os few k lt got = called-Reaches p ks ts s _ (ground arith) k (
      run_done ts (enqueue (own_key p ks s) s) w os (ground arith)
        (enqueue-IsSound p ks s (ground arith) k) (ground arith)
        (enqueue-HasGot p ks s w 0 os (ground arith) k lt got))
  run_done (unheard ∷ ts) s w os few k lt got =
      run_done ts (take s) w os (ground arith) (take-IsSound p ks s (ground arith) k) (ground arith)
        got
  run_done (arrived msg ∷ ts) s w os few k lt got =
      run_done ts _ w os few (arrived-IsSound p ks s msg k) lt
        (dispatch_done p ks s.taken w os msg s.hub k.numbered got)
  run_done (ended reason ∷ ts) s w os few k lt got =
      run_done ts _ w os few (ended-IsSound p ks s reason k) lt
        (refl, drain_absent reason w s.hub.pending s.hub.delivered got.0 ∙ got.1)

  -- A sender that waits is given what a mailbox of its own would be.
  run_waiting :
      (ts : List Step) (s : Shared) (w : ℕ)
      → suc (s.taken + ids_in ts) < i64_half
      → IsSound p ks s
      → w < s.taken
      → HasGot p ks w 1 [] s.hub
      → Reaches p ks ts s (WasGiven p ks w (fate p (ks.key (suc w)) ts))
  unfolding run_steps step shut count enqueue take fate
  run_waiting [] s w few k lt got = (s, refl, got.1)
  run_waiting (called ∷ ts) s w few k lt got = called-Reaches p ks ts s _ (ground arith) k (
      run_waiting ts (enqueue (own_key p ks s) s) w (ground arith)
        (enqueue-IsSound p ks s (ground arith) k) (ground arith)
        (enqueue-HasGot p ks s w 1 [] (ground arith) k lt got))
  run_waiting (unheard ∷ ts) s w few k lt got =
      run_waiting ts (take s) w (ground arith) (take-IsSound p ks s (ground arith) k) (ground arith)
        got
  run_waiting (arrived msg ∷ ts) s w few k lt got =
      answered
        (λ g.
          run_waiting ts (record s { hub = dispatch p msg s.hub }) w few
            (arrived-IsSound p ks s msg k) lt g)
        (answer_in p (ks.key (suc w)) msg)
        (dispatch_waiting p ks s.taken w msg s.hub (ground arith) lt k.numbered got)
    where
      answered :
          (HasGot p ks w 1 [] (dispatch p msg s.hub)
            → Reaches p ks ts
                (record s { hub = dispatch p msg s.hub })
                (WasGiven p ks w (fate p (ks.key (suc w)) ts)))
          → (a : Option Outcome) → GetsAnswer p ks w a (dispatch p msg s.hub)
          → Reaches p ks ts
              (record s { hub = dispatch p msg s.hub })
              (WasGiven p ks w (first_or a (fate p (ks.key (suc w)) ts)))
      answered still none g = still g
      answered still (some o) g = run_done ts _ w (o ∷ []) few (arrived-IsSound p ks s msg k) lt g
  run_waiting (ended reason ∷ ts) s w few k lt got =
      run_done ts _ w (failed (closed_error reason) ∷ []) few (ended-IsSound p ks s reason k) lt (
        refl,
        drain_present reason w s.hub.pending s.hub.delivered got.0
            ∙ ap (λ os. failed (closed_error reason) ∷ os) got.1,
      )

  pub run_before :
      (bs ts : List Step) (s : Shared) (Q : Shared → Type 0)
      → suc (s.taken + ids_in bs) < i64_half
      → IsSound p ks s
      → ((s' : Shared) → IsSound p ks s' → s'.taken ≡ s.taken + ids_in bs → Reaches p ks ts s' Q)
      → Reaches p ks (bs ++ ts) s Q
  unfolding run_steps step enqueue take
  run_before [] ts s Q few k then_on = then_on s k (ground arith)
  run_before (called ∷ bs) ts s Q few k then_on =
      called-Reaches p ks (bs ++ ts) s Q (ground arith) k (
        run_before bs ts (enqueue (own_key p ks s) s) Q (ground arith)
          (enqueue-IsSound p ks s (ground arith) k) (λ s' k' e. then_on s' k' (ground arith)))
  run_before (unheard ∷ bs) ts s Q few k then_on =
      run_before bs ts (take s) Q (ground arith) (take-IsSound p ks s (ground arith) k)
        (λ s' k' e. then_on s' k' (ground arith))
  run_before (arrived msg ∷ bs) ts s Q few k then_on =
      run_before bs ts _ Q few (arrived-IsSound p ks s msg k) then_on
  run_before (ended reason ∷ bs) ts s Q few k then_on =
      run_before bs ts _ Q few (ended-IsSound p ks s reason k) then_on

  -- While the counter has not wrapped, requests, responses and ends of the connection may come in any order, and no
  -- request panics: the sender of each request is given what a mailbox of its own would hold, which is the first
  -- response under its key behind the request, or the end of the connection if that comes first, and nothing else.
  pub run_steps-fate :
      (bs ts : List Step)
      → suc (suc (ids_in bs + ids_in ts)) < i64_half
      → (s : Shared) × (run_steps p (bs ++ called ∷ ts) connected ≡ some s)
        × (outcomes_of (ids_in bs) s.hub.delivered ≡ fate p (ks.key (suc (ids_in bs))) ts)
  unfolding enqueue take
  run_steps-fate bs ts few =
      run_before bs (called ∷ ts) connected Q (ground arith) (connected-IsSound p ks) λ s k e.
        let here : s.taken ≡ ids_in bs = ground arith in
        called-Reaches p ks ts s Q (ground arith) k (
          subst
            (λ w.
              Reaches p ks ts (enqueue (own_key p ks s) s)
                (WasGiven p ks w (fate p (ks.key (suc w)) ts)))
            here
            (run_waiting ts (enqueue (own_key p ks s) s) s.taken (ground arith)
              (enqueue-IsSound p ks s (ground arith) k) (ground arith) (enqueue-own p ks s k)))
    where
      Q : Shared → Type 0
      Q = WasGiven p ks (ids_in bs) (fate p (ks.key (suc (ids_in bs))) ts)
