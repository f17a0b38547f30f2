-- ===== src/Dsh/Launch/Waits.antt =====
-- The polling loop of `wait_for_new_ui_url` in src/backend/dsh/ui.rs.
use codex_bridge.Common.{
  ◌≡◌, refl, ◌⊎◌, inl, inr, ℕ, zero, suc, ◌+◌, ◌*◌, ◌/◌, ◌≤◌, leb, leb→le, Bool-cases, Option-cases,
  String, none, some, arith,
}
use codex_bridge.Host.{Outside, Machine, act, slept}
use codex_bridge.Dsh.Launch.{
  ui_url_poll_ms, ui_url_wait_ms, fresh_ui_url, timed_out, url_loop, wait_for_new_ui_url,
}

-- A wait for a new URL ended: the log held one behind the offset, or it held none when the deadline had passed, and
-- then the last URL is used.
abbrev pub IsFound : Outside → ℕ → ℕ → ℕ → String × Machine → Type 0
IsFound o budget deadline offset r =
    (m : Machine) × ((fresh_ui_url o offset m ≡ some r.0) × (r.1 ≡ m)
      ⊎ (fresh_ui_url o offset m ≡ none) × (deadline ≤ m.clock) × (r ≡ timed_out o budget m))

url_loop-ends :
    (f : ℕ) (o : Outside) (budget deadline offset : ℕ) (m : Machine)
    → deadline ≤ m.clock + ui_url_poll_ms * f
    → (r : String × Machine) × (url_loop (suc f) o budget deadline offset m ≡ some r)
      × IsFound o budget deadline offset r
unfolding url_loop act
url_loop-ends zero o budget deadline offset m h = elim (Option-cases (fresh_ui_url o offset m)) [
  | inr (url, e) ↦ rw (e, url_loop) (_, refl, (m, inl (e, refl)))
  | inl e ↦ elim (Bool-cases (leb deadline m.clock)) [
    | inl d ↦ rw (e, d, url_loop) (_, refl, (m, inr (e, leb→le _ _ d, refl)))
    | inr d ↦ absurd (ground arith)
  ]
]
url_loop-ends (suc f) o budget deadline offset m h = elim (Option-cases (fresh_ui_url o offset m)) [
  | inr (url, e) ↦ rw (e, url_loop) (_, refl, (m, inl (e, refl)))
  | inl e ↦ elim (Bool-cases (leb deadline m.clock)) [
    | inl d ↦ rw (e, d, url_loop) (_, refl, (m, inr (e, leb→le _ _ d, refl)))
    | inr d ↦
        rw (e, d, url_loop)
          (url_loop-ends f o budget deadline offset (act o (slept ui_url_poll_ms) ui_url_poll_ms m)
            (ground arith))
  ]
]

-- The wait for a new browser URL returns: with the first one that the log holds behind the offset, or, when
-- the budget has passed without one, with the last one.
pub wait_for_new_ui_url-ends :
    (o : Outside) (offset : ℕ) (m : Machine)
    → IsFound o
        (ui_url_wait_ms o)
        (m.clock + ui_url_wait_ms o)
        offset
        (wait_for_new_ui_url o offset m)
unfolding wait_for_new_ui_url
wait_for_new_ui_url-ends o offset m =
    let budget = ui_url_wait_ms o in
    let (r, e, found) =
      url_loop-ends (budget / ui_url_poll_ms + 1) o budget (m.clock + budget) offset m
        (omega arith) in
    rw (e, wait_for_new_ui_url) found
