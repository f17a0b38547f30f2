-- ===== src/Session/Wait/Overflow.antt =====
-- When the deadlines of the wait loop in src/core/session.rs overflow.
use codex_bridge.Common.{
  ◌≡◌, ◌≤◌, ◌+◌, ◌*◌, ◌^◌, ◌⊎◌, inl, inr, ℕ, Bool, true, false, List, [], ◌∷◌, leb, if◌then◌else◌,
  arith, All, Bool-cases, Option-cases,
}
use codex_bridge.Backend.{Backend, WaitFlags}
use codex_bridge.Session.Wake.{Poll, deadline, overflow}
use codex_bridge.Session.Handle.{Loop}
use codex_bridge.Session.Wait.{deadlines_at, overflows}

-- A year, or one of the flags' times, does not fit behind the instant `t`.
abbrev pub IsLate : WaitFlags → ℕ → Type 0
IsLate opts t =
    (2 ^ 63 * 1000 ≤ t + 31536000000)
    ⊎ (2 ^ 63 * 1000 ≤ t + opts.stall_secs * 1000)
    ⊎ (2 ^ 63 * 1000 ≤ t + opts.timeout_secs * 1000)

-- No poll comes behind the instant `t`.
abbrev pub IsBy : ℕ → List Poll → Type 0
IsBy t polls = All (λ p. p.now ≤ t) polls

-- The latest instant of a schedule that begins at `now`.
abbrev pub latest : ℕ → List Poll → ℕ
latest now [] = now
latest now (p ∷ ps) = let rest = latest now ps in if leb rest p.now then p.now else rest

pub latest-now : (now : ℕ) (polls : List Poll) → now ≤ latest now polls
latest-now now [] = omega arith
latest-now now (p ∷ ps) = ground (arith, latest-now now ps)

IsBy-mono : (t t' : ℕ) (polls : List Poll) → t ≤ t' → IsBy t polls → IsBy t' polls
IsBy-mono t t' [] le h = tt
IsBy-mono t t' (p ∷ ps) le (h, rest) = (omega arith, IsBy-mono t t' ps le rest)

pub latest-IsBy : (now : ℕ) (polls : List Poll) → IsBy (latest now polls) polls
latest-IsBy now [] = tt
latest-IsBy now (p ∷ ps) = (
  ground arith,
  IsBy-mono (latest now ps) (latest now (p ∷ ps)) ps (ground arith) (latest-IsBy now ps),
)

overflow-le : (windows : Bool) (sum : ℕ) → overflow windows sum ≡ true → 2 ^ 63 * 1000 ≤ sum
overflow-le true sum h = ground arith
overflow-le false sum h = ground arith

deadline-IsLate :
    (now from secs t : ℕ)
    → now ≤ t
    → from ≤ t
    → 2 ^ 63 * 1000 ≤ deadline now from secs
    → (2 ^ 63 * 1000 ≤ t + 31536000000) ⊎ (2 ^ 63 * 1000 ≤ t + secs * 1000)
unfolding deadline
deadline-IsLate now from secs t hn hf h = ground arith

module _ {Run D : Type 0} (b : Backend Run D) (opts : WaitFlags) where
  pub overflows-IsLate :
      (t started now : ℕ) (l : Loop D)
      → started ≤ t
      → now ≤ t
      → l.last_item ≤ t
      → overflows b opts started now l ≡ true
      → IsLate opts t
  unfolding overflows deadlines_at
  overflows-IsLate t started now l hs hn hl h =
      let d = deadlines_at b opts started now l in
      let w = l.session.world.outside.windows in
      elim (Bool-cases (overflow w d.stall)) [
        | inl e ↦
            elim (deadline-IsLate now l.last_item opts.stall_secs t hn hl
              (overflow-le w d.stall e)) [ inl year ↦ inl year | inr stalls ↦ inr (inl stalls) ]
        | inr e ↦ elim (Bool-cases (overflow w d.timeout)) [
          | inl f ↦
              elim (deadline-IsLate now started opts.timeout_secs t hn hs
                (overflow-le w d.timeout f)) [ inl year ↦ inl year | inr timed ↦ inr (inr timed) ]
          | inr f ↦ elim (Option-cases l.reply) [
            | inl g ↦ inl (
                let year : 2 ^ 63 * 1000 ≤ now + 31536000000 =
                  overflow-le w (now + 31536000000) (ground arith) in
                omega arith)
            | inr (r, g) ↦ absurd (ground arith)
          ]
        ]
      ]
