-- ===== src/Session/Verbs/ActiveTurn.antt =====
-- Which turn `active_turn` of src/core/session.rs takes.
use codex_bridge.Common.{
  ◌≡◌, ◌↔◌, subst, refl, ◌∙◌, ap, sym, inl, inr, Bool, true, false, String, Option, none, some,
  List, [], ◌∷◌, ◌++◌, reverse, find, or_else, arith, ok, All, Bool-cases, Option-cases,
  if◌then◌else◌,
}
use mathlib.Core.List.{reverse-cons}
use codex_bridge.Backend.{Thread, Turn}
use codex_bridge.Session.Verbs.{active_turn}

-- The last running turn of a list is `t`.
pub data IsLast (t : Turn) : List Turn → Type 0 where
  here :
      (rest : List Turn)
      → t.running ≡ true
      → All (λ u. u.running ≡ false) rest
      → IsLast t (t ∷ rest)
  later : (u : Turn) (rest : List Turn) → IsLast t rest → IsLast t (u ∷ rest)

find-append :
    (p : Turn → Bool) (xs ys : List Turn) → find p (xs ++ ys) ≡ or_else (find p xs) (find p ys)
find-append p [] ys = refl
find-append p (x ∷ xs) ys = elim (Bool-cases (p x)) [
  | inl e ↦ rw e refl
  | inr e ↦ rw e (find-append p xs ys)
]

abbrev running : Turn → Bool
running t = t.running

-- The turn that is found from the end.
found : (ts : List Turn) → Option Turn
found ts = find running (reverse ts)

found-cons :
    (t : Turn) (ts : List Turn)
    → found (t ∷ ts) ≡ or_else (found ts) (if t.running then some t else none)
unfolding found
found-cons t ts = ap (find running) (reverse-cons t ts) ∙ find-append running (reverse ts) (t ∷ [])

found-none : (ts : List Turn) → found ts ≡ none → All (λ u. u.running ≡ false) ts
unfolding found
found-none [] h = tt
found-none (t ∷ ts) h =
    let e : or_else (found ts) (if t.running then some t else none) ≡ none =
      sym (found-cons t ts) ∙ h in
    elim (Option-cases (found ts)) [
      | inr (u, f) ↦ absurd (ground arith)
      | inl f ↦ elim (Bool-cases t.running) [
        | inl r ↦ absurd (ground arith)
        | inr r ↦ (r, found-none ts f)
      ]
    ]

none-found : (ts : List Turn) → All (λ u. u.running ≡ false) ts → found ts ≡ none
unfolding found
none-found [] h = refl
none-found (t ∷ ts) (h, hs) = found-cons t ts ∙ rw (none-found ts hs, h) refl

found-IsLast : (ts : List Turn) (t : Turn) → found ts ≡ some t → IsLast t ts
unfolding found
found-IsLast [] t h = absurd (ground arith)
found-IsLast (u ∷ ts) t h =
    let e : or_else (found ts) (if u.running then some u else none) ≡ some t =
      sym (found-cons u ts) ∙ h in
    elim (Option-cases (found ts)) [
      | inr (v, f) ↦
          let same : v ≡ t = ground arith in later u ts (found-IsLast ts t (f ∙ ap some same))
      | inl f ↦ elim (Bool-cases u.running) [
        | inl r ↦
            let same : u ≡ t = ground arith in
            subst (λ v. IsLast v (u ∷ ts)) same (here ts r (found-none ts f))
        | inr r ↦ absurd (ground arith)
      ]
    ]

IsLast-found : (t : Turn) (ts : List Turn) → IsLast t ts → found ts ≡ some t
IsLast-found t _ (here rest r h) = found-cons t rest ∙ rw (none-found rest h, r) refl
IsLast-found t _ (later u rest l) = found-cons u rest ∙ rw (IsLast-found t rest l) refl

-- `active_turn` yields an id exactly if it is the id of the last of the thread's turns that is running.
pub active_turn-ok_iff :
    (thread : Thread) (thread_id action id : String)
    → (active_turn thread thread_id action ≡ ok id)
      ↔ ((t : Turn) × IsLast t thread.turns × (t.id ≡ some id))
unfolding active_turn found
active_turn-ok_iff thread thread_id action id = (forward, backward)
  where
    forward :
        active_turn thread thread_id action ≡ ok id
        → (t : Turn) × IsLast t thread.turns × (t.id ≡ some id)
    forward h = elim (Option-cases (found thread.turns)) [
      | inl e ↦ absurd (ground arith)
      | inr (t, e) ↦ (t, found-IsLast thread.turns t e, ground arith)
    ]

    backward :
        (t : Turn) × IsLast t thread.turns × (t.id ≡ some id)
        → active_turn thread thread_id action ≡ ok id
    backward (t, l, e) = rw (IsLast-found t thread.turns l, e, active_turn) refl
