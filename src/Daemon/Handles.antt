-- ===== src/Daemon/Handles.antt =====
-- The standard handles that the daemon of src/core/daemon.rs must not inherit.
use codex_bridge.Common.{
  ◌≡◌, refl, inl, inr, ℕ, Bool, true, Bool-cases, String, List, [], ◌∷◌, Result, ok, err,
  Result-cases, subst, sym,
}
use mathlib.Core.List.{Mem, mem-cons_self, mem-cons_of_mem}
use codex_bridge.Host.{
  Outside, Machine, Command, Effect, StdHandle, std_input, std_output, std_error, act, slept,
  probed, spawned, signalled, ran, uninherited, printed, warned,
}
use codex_bridge.Paths.{state_dir}
use codex_bridge.Process.{detach, no_inherit_std_handles, clear_inherit}
use codex_bridge.Backend.{Backend}
use codex_bridge.Daemon.Quiet.{started-view, detach-view, probe-view, await-view}
use codex_bridge.Daemon.{probe_ready, bring_up, spawn, launch, log_file}

-- Somewhere in the trace the flag to inherit the handle was taken away.
abbrev pub IsCleared : StdHandle → List Effect → Type 0
IsCleared handle trace = Mem (uninherited handle) trace

-- Before each spawn of a trace the flag was taken away from every handle that a child could have inherited.
abbrev pub IsDetached : Outside → List Effect → Type 0
IsDetached o [] = Unit
IsDetached o (spawned command ∷ trace) =
    ((handle : StdHandle) → o.usable_handle handle ≡ true → IsCleared handle trace)
    × IsDetached o trace
IsDetached o (probed ∷ trace) = IsDetached o trace
IsDetached o (slept ms ∷ trace) = IsDetached o trace
IsDetached o (signalled pid signal ∷ trace) = IsDetached o trace
IsDetached o (ran command ∷ trace) = IsDetached o trace
IsDetached o (uninherited handle ∷ trace) = IsDetached o trace
IsDetached o (printed value ∷ trace) = IsDetached o trace
IsDetached o (warned text ∷ trace) = IsDetached o trace

-- The property of the machine.
abbrev History : Outside → Machine → Type 0
History o m = IsDetached o m.trace

module _ (o : Outside) where
  clear_inherit-IsCleared :
      (handle : StdHandle) (m : Machine)
      → o.usable_handle handle ≡ true
      → IsCleared handle (clear_inherit o handle m).trace
  unfolding clear_inherit act
  clear_inherit-IsCleared handle m usable = rw (usable, clear_inherit) mem-cons_self

  clear_inherit-keeps :
      (handle other : StdHandle) (m : Machine)
      → IsCleared handle m.trace
      → IsCleared handle (clear_inherit o other m).trace
  unfolding clear_inherit act
  clear_inherit-keeps handle other m h = elim (Bool-cases (o.usable_handle other)) [
    | inl e ↦ rw (e, clear_inherit) (mem-cons_of_mem _ h)
    | inr e ↦ rw (e, clear_inherit) h
  ]

  detach-IsCleared :
      (m : Machine) (handle : StdHandle)
      → o.windows ≡ true
      → o.usable_handle handle ≡ true
      → IsCleared handle (detach o m).trace
  unfolding detach no_inherit_std_handles
  detach-IsCleared m std_input windows usable =
      rw (windows, detach)
        (clear_inherit-keeps std_input std_error _
          (clear_inherit-keeps std_input std_output _ (clear_inherit-IsCleared std_input m usable)))
  detach-IsCleared m std_output windows usable =
      rw (windows, detach)
        (clear_inherit-keeps std_output std_error _
          (clear_inherit-IsCleared std_output (clear_inherit o std_input m) usable))
  detach-IsCleared m std_error windows usable =
      rw (windows, detach)
        (clear_inherit-IsCleared std_error
          (clear_inherit o std_output (clear_inherit o std_input m)) usable)

  module _ {Run Decision : Type 0} (b : Backend Run Decision) where
    -- What a backend does when its daemon is ready has no part in `IsDetached`.
    abbrev pub KeepsHandles : Type 1
    KeepsHandles =
        (offset : ℕ) (report : Bool) (m : Machine)
        → History o (b.after_ready o offset report m).1 ≡ History o m

    module _ (windows : o.windows ≡ true) where
      launch-IsDetached :
          (command : Result Command) (m : Machine)
          → IsDetached o m.trace
          → IsDetached o (launch b o command m).1.trace
      unfolding launch act
      launch-IsDetached (err e) m h = h
      launch-IsDetached (ok command) m h =
          let m1 = detach o m in
          let same : History o m1 ≡ History o m = detach-view (History o) o (λ handle m. refl) m in
          subst (λ t. t)
            (sym (
              started-view (History o) o command (o.spawns (spawned command ∷ m1.trace))
                (act o (spawned command) 0 m1) (λ raw. refl)))
            (λ handle usable. detach-IsCleared m handle windows usable, subst (λ t. t) (sym same) h)

      spawn-IsDetached :
          (ws_url : String) (m : Machine)
          → IsDetached o m.trace
          → IsDetached o (spawn b o ws_url m).1.trace
      unfolding spawn
      spawn-IsDetached ws_url m h = elim (Result-cases (o.creates_dir (state_dir o b.state_name))) [
        | inr (x, e) ↦ rw (e, spawn) h
        | inl (a, e) ↦ elim (Result-cases (o.opens (log_file b o))) [
          | inr (x, f) ↦ rw (e, f, spawn) h
          | inl (c, f) ↦ elim (Result-cases o.clones_log) [
            | inr (x, g) ↦ rw (e, f, g, spawn) h
            | inl (d, g) ↦ rw (e, f, g, spawn) (launch-IsDetached (b.daemon_command o ws_url) m h)
          ]
        ]
      ]

      -- On Windows a start spawns the daemon only after the flag to inherit was taken away from every standard handle
      -- that is neither null nor invalid, if this holds for the spawns before the start. This holds provided that
      -- the backend's own work behind the start spawns nothing.
      pub bring_up-IsDetached :
          (ws_url : String) (report : Bool) (m : Machine)
          → KeepsHandles
          → IsDetached o m.trace
          → IsDetached o (bring_up b o ws_url report m).1.trace
      unfolding bring_up act
      bring_up-IsDetached ws_url report m idle h =
          let m1 = (probe_ready o ws_url m).1 in
          let probed_view : History o m1 ≡ History o m =
            probe-view (History o) o (λ m. refl) ws_url m in
          let h1 : IsDetached o m1.trace = subst (λ t. t) (sym probed_view) h in
          elim (Bool-cases (probe_ready o ws_url m).0) [
            | inl e ↦ rw (e, bring_up) h1
            | inr e ↦
                rw (e, bring_up)
                  (subst (λ t. t)
                    (sym (
                      await-view (History o) o (λ m. refl) (λ ms m. refl) b ws_url
                        (o.log_length m1.trace) report (spawn b o ws_url m1) idle))
                    (spawn-IsDetached ws_url m1 h1))
          ]
