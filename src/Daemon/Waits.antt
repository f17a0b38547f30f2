-- ===== src/Daemon/Waits.antt =====
-- The polling loops of src/core/daemon.rs: the wait of `bring_up`, and `wait_until_down`.
use codex_bridge.Common.{
  ◌≡◌, refl, ◌⊎◌, inl, inr, ℕ, zero, suc, ◌+◌, ◌*◌, ◌/◌, ◌≤◌, Bool, true, false, leb, leb→le,
  Bool-cases, String, some, arith, Result, ok, Result-cases,
}
use codex_bridge.Json.{Value}
use codex_bridge.Host.{Outside, Machine, act, slept}
use codex_bridge.Backend.{Backend}
use codex_bridge.Daemon.{
  poll_ms, authority, probe_ready, ready_loop, report_ready, not_ready, ready_timeout_ms, down_loop,
  still_up, wait_until_down, await_ready,
}

-- A probe takes time, or none.
probe-clock :
    (o : Outside) (ws_url : String) (m : Machine) → m.clock ≤ (probe_ready o ws_url m).1.clock
unfolding probe_ready act
probe-clock o ws_url m = elim (Result-cases (authority ws_url)) [
  | inl (a, e) ↦ rw (e, probe_ready) (omega arith)
  | inr (x, e) ↦ rw (e, probe_ready) (omega arith)
]

module _ {Run Decision : Type 0} (b : Backend Run Decision) (o : Outside) where
  -- A wait for the daemon ended: it answered, or the deadline had passed when it last did not.
  abbrev pub IsVerdict : String → ℕ → ℕ → Bool → Result Value × Machine → Type 0
  IsVerdict ws_url deadline offset report r =
      (m : Machine) × (((probe_ready o ws_url m).0 ≡ true)
          × (r ≡ report_ready b o offset report (probe_ready o ws_url m).1)
        ⊎ ((probe_ready o ws_url m).0 ≡ false)
          × (deadline ≤ (probe_ready o ws_url m).1.clock)
          × (r ≡ not_ready b o ws_url (probe_ready o ws_url m).1))

  ready_loop-ends :
      (f : ℕ) (ws_url : String) (deadline offset : ℕ) (report : Bool) (m : Machine)
      → deadline ≤ m.clock + poll_ms * suc f
      → (r : Result Value × Machine) × (ready_loop b o (suc f) ws_url deadline offset report m
          ≡ some r)
        × IsVerdict ws_url deadline offset report r
  unfolding ready_loop act
  ready_loop-ends zero ws_url deadline offset report m h =
      let m0 = act o (slept poll_ms) poll_ms m in
      let slow : m0.clock ≤ (probe_ready o ws_url m0).1.clock = probe-clock o ws_url m0 in
      elim (Bool-cases (probe_ready o ws_url m0).0) [
        | inl e ↦ rw (e, ready_loop) (_, refl, (m0, inl (e, refl)))
        | inr e ↦ elim (Bool-cases (leb deadline (probe_ready o ws_url m0).1.clock)) [
          | inl d ↦ rw (e, d, ready_loop) (_, refl, (m0, inr (e, leb→le _ _ d, refl)))
          | inr d ↦ absurd (ground arith)
        ]
      ]
  ready_loop-ends (suc f) ws_url deadline offset report m h =
      let m0 = act o (slept poll_ms) poll_ms m in
      let slow : m0.clock ≤ (probe_ready o ws_url m0).1.clock = probe-clock o ws_url m0 in
      elim (Bool-cases (probe_ready o ws_url m0).0) [
        | inl e ↦ rw (e, ready_loop) (_, refl, (m0, inl (e, refl)))
        | inr e ↦ elim (Bool-cases (leb deadline (probe_ready o ws_url m0).1.clock)) [
          | inl d ↦ rw (e, d, ready_loop) (_, refl, (m0, inr (e, leb→le _ _ d, refl)))
          | inr d ↦
              rw (e, d, ready_loop)
                (ready_loop-ends f ws_url deadline offset report (probe_ready o ws_url m0).1
                  (ground arith))
        ]
      ]

  bring_up-ends :
      (ws_url : String) (offset : ℕ) (report : Bool) (m : Machine)
      → (r : Result Value × Machine) × (ready_loop b o
            (suc (ready_timeout_ms b o / poll_ms + 1))
            ws_url
            (m.clock + ready_timeout_ms b o)
            offset
            report
            m
          ≡ some r)
        × IsVerdict ws_url (m.clock + ready_timeout_ms b o) offset report r
  bring_up-ends ws_url offset report m =
      ready_loop-ends (ready_timeout_ms b o / poll_ms + 1) ws_url (m.clock + ready_timeout_ms b o)
        offset report m (omega arith)

  -- A wait for the end of the daemon ended: it did not answer, or the deadline had passed.
  abbrev pub IsDown : String → ℕ → ℕ → Machine → Type 0
  IsDown ws_url budget deadline r =
      (m : Machine) × (((probe_ready o ws_url m).0 ≡ false) × (r ≡ (probe_ready o ws_url m).1)
        ⊎ ((probe_ready o ws_url m).0 ≡ true)
          × (deadline ≤ (probe_ready o ws_url m).1.clock)
          × (r ≡ still_up b o ws_url budget (probe_ready o ws_url m).1))

  down_loop-ends :
      (f : ℕ) (ws_url : String) (budget deadline : ℕ) (m : Machine)
      → deadline ≤ m.clock + poll_ms * f
      → (r : Machine) × (down_loop b o (suc f) ws_url budget deadline m ≡ some r)
        × IsDown ws_url budget deadline r
  unfolding down_loop act
  down_loop-ends zero ws_url budget deadline m h =
      let slow : m.clock ≤ (probe_ready o ws_url m).1.clock = probe-clock o ws_url m in
      elim (Bool-cases (probe_ready o ws_url m).0) [
        | inr e ↦ rw (e, down_loop) (_, refl, (m, inl (e, refl)))
        | inl e ↦ elim (Bool-cases (leb deadline (probe_ready o ws_url m).1.clock)) [
          | inl d ↦ rw (e, d, down_loop) (_, refl, (m, inr (e, leb→le _ _ d, refl)))
          | inr d ↦ absurd (ground arith)
        ]
      ]
  down_loop-ends (suc f) ws_url budget deadline m h =
      let slow : m.clock ≤ (probe_ready o ws_url m).1.clock = probe-clock o ws_url m in
      elim (Bool-cases (probe_ready o ws_url m).0) [
        | inr e ↦ rw (e, down_loop) (_, refl, (m, inl (e, refl)))
        | inl e ↦ elim (Bool-cases (leb deadline (probe_ready o ws_url m).1.clock)) [
          | inl d ↦ rw (e, d, down_loop) (_, refl, (m, inr (e, leb→le _ _ d, refl)))
          | inr d ↦
              rw (e, d, down_loop)
                (down_loop-ends f ws_url budget deadline
                  (act o (slept poll_ms) poll_ms (probe_ready o ws_url m).1) (ground arith))
        ]
      ]

  -- The wait of a restart between its stop and its start returns: the daemon no longer answers, or half of the
  -- ready timeout has passed.
  pub wait_until_down-ends :
      (ws_url : String) (m : Machine)
      → IsDown ws_url
          (ready_timeout_ms b o / 2)
          (m.clock + ready_timeout_ms b o / 2)
          (wait_until_down b o ws_url m)
  unfolding wait_until_down
  wait_until_down-ends ws_url m =
      let budget = ready_timeout_ms b o / 2 in
      let (r, e, down) =
        down_loop-ends (budget / poll_ms + 1) ws_url budget (m.clock + budget) m (omega arith) in
      rw (e, wait_until_down) down

  -- The wait of a start returns: the daemon answered, or the ready timeout had passed behind the spawn.
  pub await_ready-ends :
      (ws_url : String) (offset : ℕ) (report : Bool) (pid : ℕ) (m : Machine)
      → IsVerdict ws_url
          (m.clock + ready_timeout_ms b o)
          offset
          report
          (await_ready b o ws_url offset report (ok pid, m))
  unfolding await_ready
  await_ready-ends ws_url offset report pid m =
      let (r, e, verdict) = bring_up-ends ws_url offset report m in rw (e, await_ready) verdict
