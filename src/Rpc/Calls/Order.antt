-- ===== src/Rpc/Calls/Order.antt =====
-- The order of what arrives at the calls of src/backend/rpc.rs: two responses in either order, and a
-- request behind the end.
use codex_bridge.Common.{
  ℕ, suc, ◌+◌, ◌≡◌, ◌<◌, refl, ◌==◌, ◌∙◌, ◌⊎◌, inl, inr, String, Option, none, some, List, [], ◌∷◌,
  ◌++◌, arith, Bool-cases, Option-cases, eq_iff, sym, ap,
}
use codex_bridge.Common.Decimal.{i64_half}
use codex_bridge.Json.{Value}
use codex_bridge.Rpc.{Protocol, Outcome, find_waiter}
use codex_bridge.Rpc.Calls.{
  Shared, connected, outcomes_of, run_steps, Step, called, unheard, arrived, ended,
}
use codex_bridge.Rpc.Calls.Fate.{Keys, AreApart, key_of, first_or, answer_in, fate, ids_in}
use codex_bridge.Rpc.Calls.Paired.{run_steps-fate}

module _ (p : Protocol) (ks : Keys p) where
  -- Nothing arrives any more, not even the end of the connection.
  abbrev pub IsSilent : List Step → Type 0
  IsSilent [] = Unit
  IsSilent (called ∷ ts) = IsSilent ts
  IsSilent (unheard ∷ ts) = IsSilent ts
  IsSilent (arrived msg ∷ ts) = ⊥
  IsSilent (ended reason ∷ ts) = ⊥

  -- The sender is found under its key, and was given nothing.
  abbrev pub IsForgotten : ℕ → Shared → Type 0
  IsForgotten w s =
      (find_waiter (ks.key (suc w)) s.hub.pending ≡ some w) × (outcomes_of w s.hub.delivered ≡ [])

  answer_in-key :
      (key : String) (msg : Value) → (answer_in p key msg ≡ none) ⊎ (key_of p msg ≡ some key)
  answer_in-key key msg = elim (Option-cases (key_of p msg)) [
    | inl e ↦ inl (rw e refl)
    | inr (k, e) ↦ elim (Bool-cases (k == key)) [
      | inl same ↦ inr (ground (arith, eq_iff k key))
      | inr differ ↦ inl (rw (e, differ) refl)
    ]
  ]

  first_or_swap :
      (a c : Option Outcome) (later : List Outcome)
      → (a ≡ none) ⊎ (c ≡ none)
      → first_or a (first_or c later) ≡ first_or c (first_or a later)
  first_or_swap none c later h = refl
  first_or_swap (some o) none later h = refl
  first_or_swap (some o) (some q) later (inl e) = absurd (ground arith)
  first_or_swap (some o) (some q) later (inr e) = absurd (ground arith)

  -- Two messages that do not answer the same key, in either order.
  fate_swap :
      (key : String) (mid ts : List Step) (first second : Value)
      → AreApart p first second
      → fate p key (mid ++ arrived first ∷ arrived second ∷ ts)
        ≡ fate p key (mid ++ arrived second ∷ arrived first ∷ ts)
  unfolding fate
  fate_swap key [] ts first second apart =
      first_or_swap (answer_in p key first) (answer_in p key second) (fate p key ts)
        (one_of (answer_in-key key first) (answer_in-key key second))
    where
      one_of :
          (answer_in p key first ≡ none) ⊎ (key_of p first ≡ some key)
          → (answer_in p key second ≡ none) ⊎ (key_of p second ≡ some key)
          → (answer_in p key first ≡ none) ⊎ (answer_in p key second ≡ none)
      one_of (inl e) f = inl e
      one_of (inr e) (inl f) = inr f
      one_of (inr e) (inr f) = absurd (apart key e f)
  fate_swap key (called ∷ mid) ts first second apart = fate_swap key mid ts first second apart
  fate_swap key (unheard ∷ mid) ts first second apart = fate_swap key mid ts first second apart
  fate_swap key (arrived msg ∷ mid) ts first second apart =
      ap (first_or (answer_in p key msg)) (fate_swap key mid ts first second apart)
  fate_swap key (ended reason ∷ mid) ts first second apart = refl

  ids_swap :
      (mid ts : List Step) (first second : Value)
      → ids_in (mid ++ arrived first ∷ arrived second ∷ ts)
        ≡ ids_in (mid ++ arrived second ∷ arrived first ∷ ts)
  ids_swap [] ts first second = refl
  ids_swap (called ∷ mid) ts first second = ap suc (ids_swap mid ts first second)
  ids_swap (unheard ∷ mid) ts first second = ap suc (ids_swap mid ts first second)
  ids_swap (arrived msg ∷ mid) ts first second = ids_swap mid ts first second
  ids_swap (ended reason ∷ mid) ts first second = ids_swap mid ts first second

  -- Two messages that do not answer the same key may arrive in either order, while the counter has not wrapped: the
  -- sender of a request that was made before them is given the same.
  pub run_steps-swap :
      (bs mid ts : List Step) (first second : Value)
      → suc (suc (ids_in bs + ids_in (mid ++ arrived first ∷ arrived second ∷ ts))) < i64_half
      → AreApart p first second
      → (s s' : Shared) × (run_steps p
            (bs ++ called ∷ (mid ++ arrived first ∷ arrived second ∷ ts))
            connected
          ≡ some s)
        × (run_steps p (bs ++ called ∷ (mid ++ arrived second ∷ arrived first ∷ ts)) connected
            ≡ some s')
        × (outcomes_of (ids_in bs) s.hub.delivered ≡ outcomes_of (ids_in bs) s'.hub.delivered)
  run_steps-swap bs mid ts first second few apart =
      let (s, e, q) = run_steps-fate p ks bs (mid ++ arrived first ∷ arrived second ∷ ts) few in
      let (s', e', q') =
        run_steps-fate p ks bs (mid ++ arrived second ∷ arrived first ∷ ts)
          (rw (← ids_swap mid ts first second) few) in
      (s, s', e, e', q ∙ (fate_swap _ mid ts first second apart ∙ sym q'))
