-- ===== src/Session/Wait/Rules.antt =====
-- One rule for what the wait loop of src/core/session.rs keeps, and one for how it ends.
use codex_bridge.Common.{
  ℕ, ◌≡◌, refl, ◌⊎◌, inl, inr, ◌∙◌, ap, subst, some, Option, List, [], ◌∷◌, arith, Result, ok,
  Option-cases, Result-cases, Bool-cases, true, String, All,
}
use codex_bridge.Backend.{Backend, WaitFlags}
use codex_bridge.Session.Wake.{Poll, Deadlines, Wake, next_wake}
use codex_bridge.Session.Handle.{Session, Loop, PendingReply, Step, exit, continue}
use codex_bridge.Session.Wait.{
  Outcome, waiting, exited, failed, panicked, overflows, on_wake, take_poll, poll_step, wait_polls,
  deadlines_at, start_loop, wait_loop,
}

pub All-Unit {ℓ} : {A : Type ℓ} (xs : List A) → All (λ _. Unit {0}) xs
All-Unit [] = tt
All-Unit (x ∷ xs) = (tt, All-Unit xs)

pub Step-cases : (s : Step) → (s ≡ continue) ⊎ ((code : ℕ) × (s ≡ exit code))
Step-cases continue = inl refl
Step-cases (exit code) = inr (code, refl)

module _ {Run D : Type 0} (b : Backend Run D) (opts : WaitFlags) where
  -- What a poll comes to.
  pub poll_step-some :
      (d : Deadlines) (p : Poll) (l : Loop D) {s : Result Step × Loop D}
      → poll_step b opts d p l ≡ some s
      → (wake : Wake) × (next_wake b.wait_policy.deadlines_first p.now d
            (take_poll b p l).session.events
          ≡ some wake)
        × (on_wake b opts p.now wake (take_poll b p l) ≡ s)
  unfolding poll_step
  poll_step-some d p l h =
      elim (Option-cases
        (next_wake b.wait_policy.deadlines_first p.now d (take_poll b p l).session.events)) [
          | inl e ↦ absurd (ground arith)
          | inr (wake, e) ↦ (wake, e, ground arith)
        ]

  -- A fact that each wake keeps, at its poll, holds when the loop stops; and where the loop stops by
  -- itself, `Q` tells how. The polls satisfy `R`.
  module _ (P : Loop D → Type 0) (Q : Outcome → Type 0) (R : Poll → Type 0) (T : Deadlines → Type 0)
      (started : ℕ) (take : (p : Poll) (l : Loop D) → R p → P l → P (take_poll b p l))
      (wakes : (d : Deadlines) (p : Poll) (l : Loop D) (wake : Wake)
        → R p
        → T d
        → P l
        → next_wake b.wait_policy.deadlines_first p.now d l.session.events ≡ some wake
        → P (on_wake b opts p.now wake l).1)
      (renew : (p : Poll) (l : Loop D) → R p → P l → T (deadlines_at b opts started p.now l))
      (fails : (e : String) → Q (failed e))
      (exits : (d : Deadlines) (p : Poll) (l : Loop D) (wake : Wake) (code : ℕ)
        → R p
        → T d
        → P l
        → next_wake b.wait_policy.deadlines_first p.now d l.session.events ≡ some wake
        → (on_wake b opts p.now wake l).0 ≡ ok (exit code)
        → Q (exited code))
      (waits : Q waiting)
      (panics : (p : Poll) (l : Loop D)
        → R p
        → P l
        → overflows b opts started p.now l ≡ true
        → Q panicked) where
    pub wait_polls_rule :
        (ps : List Poll) (d : Deadlines) (l : Loop D)
        → All R ps
        → T d
        → P l
        → Q (wait_polls b opts started d ps l).0 × P (wait_polls b opts started d ps l).1
    unfolding wait_polls
    wait_polls_rule [] d l r t h = (waits, h)
    wait_polls_rule (p ∷ ps) d l r t h = elim (Option-cases (poll_step b opts d p l)) [
      | inl e ↦ rw (e, wait_polls) (wait_polls_rule ps d (take_poll b p l) r.1 t (take p l r.0 h))
      | inr ((res, l'), e) ↦
          let (wake, woke, made) = poll_step-some d p l e in
          let after : P l' =
            subst (λ (s : Result Step × Loop D). P s.1) made
              (wakes d p (take_poll b p l) wake r.0 t (take p l r.0 h) woke) in
          elim (Result-cases res) [
            | inr (x, e₁) ↦ rw (e, e₁, wait_polls) (fails x, after)
            | inl (step, e₁) ↦ elim (Step-cases step) [
              | inl e₂ ↦ elim (Bool-cases (overflows b opts started p.now l')) [
                | inl over ↦ rw (e, e₁, e₂, over, wait_polls) (panics p l' r.0 after over, after)
                | inr fits ↦
                    rw (e, e₁, e₂, fits, wait_polls)
                      (wait_polls_rule ps _ l' r.1 (renew p l' r.0 after) after)
              ]
              | inr (code, e₂) ↦
                  rw (e, e₁, e₂, wait_polls)
                    (
                      exits d p (take_poll b p l) wake code r.0 t (take p l r.0 h) woke
                          (ap (λ (s : Result Step × Loop D). s.0) made ∙ e₁ ∙ ap ok e₂),
                      after,
                    )
            ]
          ]
    ]

  -- A wait panics before its first turn, or goes on.
  pub wait_loop_rule :
      (R : Outcome × Loop D → Type 0) (now : ℕ) (pending : Option (PendingReply D))
      (polls : List Poll) (s : Session)
      → (overflows b opts now now (start_loop b now pending s) ≡ true
          → R (panicked, start_loop b now pending s))
      → R (
          wait_polls b opts now
            (deadlines_at b opts now now (start_loop b now pending s))
            polls
            (start_loop b now pending s))
      → R (wait_loop b opts now pending polls s)
  unfolding wait_loop
  wait_loop_rule R now pending polls s panics goes_on =
      elim (Bool-cases (overflows b opts now now (start_loop b now pending s))) [
        | inl over ↦ rw (over, wait_loop) (panics over)
        | inr fits ↦ rw (fits, wait_loop) goes_on
      ]
