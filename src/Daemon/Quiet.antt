-- ===== src/Daemon/Quiet.antt =====
-- A view of the machine that src/core/daemon.rs acts on, which leaves out the effects that an operation has:
-- the operation keeps it.
use codex_bridge.Common.{
  ◌≡◌, refl, ◌∙◌, inl, inr, ℕ, zero, suc, ◌+◌, Bool, leb, Bool-cases, String, Option, none, some,
  unwrap_or, subst, ◌/◌, Result, ok, err, Result-cases,
}
use codex_bridge.Common.Decimal.{show_ℕ}
use codex_bridge.Json.{Value}
use codex_bridge.Host.{
  Outside, Machine, Command, StdHandle, std_input, std_output, std_error, act, slept, probed,
  uninherited,
}
use codex_bridge.Process.{write_pid, clear_inherit, no_inherit_std_handles, detach}
use codex_bridge.Backend.{Backend}
use codex_bridge.Daemon.{
  authority, probe_ready, ready_loop, report_ready, not_ready, await_ready, started,
  ready_timeout_ms, poll_ms,
}

-- Outside the pid file, a process that is started is not an effect of its own.
pub started-view {ℓ} :
    {X : Type ℓ} (view : Machine → X) (o : Outside) (command : Command) (r : Result ℕ) (m : Machine)
    → ((raw : Option String) → view (record m { pid_file = raw }) ≡ view m)
    → view (started o command r m).1 ≡ view m
unfolding started write_pid
started-view view o command (err e) m filing = refl
started-view view o command (ok pid) m filing = elim (Bool-cases (o.writes_pid m.trace)) [
  | inl e ↦ rw e (filing (some (show_ℕ pid)))
  | inr e ↦ rw e refl
]

clear_inherit-view {ℓ} :
    {X : Type ℓ} (view : Machine → X) (o : Outside)
    → ((handle : StdHandle) (m : Machine) → view (act o (uninherited handle) 0 m) ≡ view m)
    → (handle : StdHandle) (m : Machine) → view (clear_inherit o handle m) ≡ view m
unfolding clear_inherit
clear_inherit-view view o clearing handle m = elim (Bool-cases (o.usable_handle handle)) [
  | inl e ↦ rw (e, clear_inherit) (clearing handle m)
  | inr e ↦ rw (e, clear_inherit) refl
]

pub detach-view {ℓ} :
    {X : Type ℓ} (view : Machine → X) (o : Outside)
    → ((handle : StdHandle) (m : Machine) → view (act o (uninherited handle) 0 m) ≡ view m)
    → (m : Machine) → view (detach o m) ≡ view m
unfolding detach no_inherit_std_handles
detach-view view o clearing m = elim (Bool-cases o.windows) [
  | inr e ↦ rw (e, detach) refl
  | inl e ↦
      let step = clear_inherit-view view o clearing in
      let m1 = clear_inherit o std_input m in
      rw (e, detach)
        (step std_error (clear_inherit o std_output m1) ∙ (step std_output m1 ∙ step std_input m))
]

module _ {ℓ} {X : Type ℓ} (view : Machine → X) (o : Outside)
    (probing : (m : Machine) → view (act o probed 0 m) ≡ view m) where
  pub probe-view : (ws_url : String) (m : Machine) → view (probe_ready o ws_url m).1 ≡ view m
  unfolding probe_ready
  probe-view ws_url m = elim (Result-cases (authority ws_url)) [
    | inl (a, e) ↦ rw (e, probe_ready) (probing m)
    | inr (x, e) ↦ rw (e, probe_ready) refl
  ]

  module _ (sleeping : (ms : ℕ) (m : Machine) → view (act o (slept ms) ms m) ≡ view m)
      {Run Decision : Type 0} (b : Backend Run Decision) where
    -- What a backend does when its daemon is ready keeps the view.
    abbrev pub IsIdle : Type ℓ
    IsIdle =
        (offset : ℕ) (report : Bool) (m : Machine)
        → view (b.after_ready o offset report m).1 ≡ view m

    abbrev Keeps : X → Option (Result Value × Machine) → Type ℓ
    Keeps x none = Unit {ℓ}
    Keeps x (some r) = view r.1 ≡ x

    slept-probe-view :
        (ws_url : String) (m : Machine)
        → view (probe_ready o ws_url (act o (slept poll_ms) poll_ms m)).1 ≡ view m
    slept-probe-view ws_url m =
        probe-view ws_url (act o (slept poll_ms) poll_ms m) ∙ sleeping poll_ms m

    loop-view :
        (f : ℕ) (ws_url : String) (deadline offset : ℕ) (report : Bool) (m : Machine)
        → IsIdle
        → Keeps (view m) (ready_loop b o f ws_url deadline offset report m)
    unfolding ready_loop report_ready not_ready
    loop-view zero ws_url deadline offset report m idle = tt
    loop-view (suc f) ws_url deadline offset report m idle =
        let m0 = act o (slept poll_ms) poll_ms m in
        let m1 = (probe_ready o ws_url m0).1 in
        let s : view m1 ≡ view m = slept-probe-view ws_url m in
        elim (Bool-cases (probe_ready o ws_url m0).0) [
          | inl e ↦ rw (e, ready_loop) (idle offset report m1 ∙ s)
          | inr e ↦ elim (Bool-cases (leb deadline m1.clock)) [
            | inl d ↦ rw (e, d, ready_loop) s
            | inr d ↦
                rw (e, d, ready_loop)
                  (subst (λ x. Keeps x (ready_loop b o f ws_url deadline offset report m1)) s
                    (loop-view f ws_url deadline offset report m1 idle))
          ]
        ]

    kept :
        (x : X) (r : Option (Result Value × Machine)) (d : Result Value × Machine)
        → Keeps x r
        → view d.1 ≡ x
        → view (unwrap_or r d).1 ≡ x
    kept x none d k e = e
    kept x (some r) d k e = k

    -- The wait for the daemon keeps the view.
    pub await-view :
        (ws_url : String) (offset : ℕ) (report : Bool) (p : Result ℕ × Machine)
        → IsIdle
        → view (await_ready b o ws_url offset report p).1 ≡ view p.1
    unfolding await_ready not_ready
    await-view ws_url offset report (err e, m) idle = refl
    await-view ws_url offset report (ok pid, m) idle =
        kept (view m) _ _
          (loop-view (suc (ready_timeout_ms b o / poll_ms + 1)) ws_url
            (m.clock + ready_timeout_ms b o) offset report m idle)
          refl
