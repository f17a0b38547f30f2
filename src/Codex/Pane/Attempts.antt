-- ===== src/Codex/Pane/Attempts.antt =====
-- How often src/backend/codex/pane.rs tries to rename an agent, and how often it pauses.
use codex_bridge.Common.{
  ◌≡◌, refl, ◌⊎◌, inl, inr, ℕ, zero, suc, ◌+◌, ◌≤◌, ◌<◌, String, List, [], ◌∷◌, arith, Result, ok,
  err, Option-cases, length,
}
use codex_bridge.Host.{
  CommandOutput, Effect, act, slept, probed, spawned, signalled, ran, uninherited, printed, warned,
}
use codex_bridge.Connection.{World}
use codex_bridge.Codex.Pane.{herdr, attempt_error, rename, rename_loop, before_attempt, pause}

-- The sleeps of a trace.
abbrev pub sleeps : List Effect → ℕ
sleeps [] = 0
sleeps (slept ms ∷ trace) = suc (sleeps trace)
sleeps (probed ∷ trace) = sleeps trace
sleeps (spawned command ∷ trace) = sleeps trace
sleeps (signalled pid signal ∷ trace) = sleeps trace
sleeps (ran command ∷ trace) = sleeps trace
sleeps (uninherited handle ∷ trace) = sleeps trace
sleeps (printed value ∷ trace) = sleeps trace
sleeps (warned text ∷ trace) = sleeps trace

-- How `n` attempts with `k` commands end: by one that succeeded, or all failed.
abbrev pub IsEnd : ℕ → ℕ → Result (Unit {0}) → Type 0
IsEnd n k r = ((r ≡ ok tt) × (0 < k) × (k ≤ n)) ⊎ ((e : String) × (r ≡ err e) × (k ≡ n))

-- So many commands and sleeps later.
abbrev pub IsAttempted : World → ℕ → ℕ → ℕ → Result (Unit {0}) × World → Type 0
IsAttempted w n k pauses r =
    (length r.1.commands ≡ length w.commands + k)
    × (sleeps r.1.machine.trace ≡ sleeps w.machine.trace + pauses)
    × IsEnd n k r.0

one_more : (n k : ℕ) (r : Result (Unit {0})) → IsEnd n k r → IsEnd (suc n) (suc k) r
one_more n k r (inl (e, l, h)) = inl (e, omega arith, omega arith)
one_more n k r (inr (x, e, h)) = inr (x, e, omega arith)

abbrev attempted : ℕ → String → String → String → World → Result CommandOutput × World
attempted attempt bin pane_id name w =
    herdr bin ("agent" ∷ "rename" ∷ pane_id ∷ name ∷ []) (before_attempt attempt w)

loop-IsAttempted :
    (n attempt : ℕ) (bin pane_id name last : String) (w : World)
    → (k : ℕ) × IsAttempted w n k k (rename_loop n (suc attempt) bin pane_id name last w)
unfolding rename_loop herdr before_attempt pause act
loop-IsAttempted zero attempt bin pane_id name last w =
    (0, (omega arith, omega arith, inr (_, refl, refl)))
loop-IsAttempted (suc n) attempt bin pane_id name last w =
    elim (Option-cases (attempt_error (attempted (suc attempt) bin pane_id name w).0)) [
      | inl e ↦
          rw (e, rename_loop) (1, (omega arith, omega arith, inl (refl, omega arith, omega arith)))
      | inr (x, e) ↦
          let (k, (c, s, r)) =
            loop-IsAttempted n (suc attempt) bin pane_id name x
              (attempted (suc attempt) bin pane_id name w).1 in
          rw (e, rename_loop) (suc k, (omega arith, omega arith, one_more n k _ r))
    ]

-- Renaming an agent runs at least one command and at most eleven, fails only behind eleven, and sleeps once less
-- than it runs commands.
pub rename-IsAttempted :
    (bin pane_id name : String) (w : World)
    → (k : ℕ) × IsAttempted w 11 (suc k) k (rename bin pane_id name w)
unfolding rename rename_loop herdr before_attempt
rename-IsAttempted bin pane_id name w =
    elim (Option-cases (attempt_error (attempted 0 bin pane_id name w).0)) [
      | inl e ↦
          rw (e, rename_loop) (0, (omega arith, omega arith, inl (refl, omega arith, omega arith)))
      | inr (x, e) ↦
          let (k, (c, s, r)) =
            loop-IsAttempted 10 0 bin pane_id name x (attempted 0 bin pane_id name w).1 in
          rw (e, rename_loop) (k, (omega arith, omega arith, one_more 10 k _ r))
    ]
