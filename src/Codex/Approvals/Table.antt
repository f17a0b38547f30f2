-- ===== src/Codex/Approvals/Table.antt =====
-- Which requests a bare decision answers, and how (src/backend/codex/approvals.rs).
use codex_bridge.Common.{
  ◌≡◌, ◌↔◌, refl, inl, inr, true, ◌||◌, ◌==◌, eq_iff, Bool-cases, String, [], ◌∷◌, arith, Result,
  ok, err, ok_inj, sym, subst, if_both,
}
use codex_bridge.Json.{Value, str, object}
use codex_bridge.Codex.Approvals.{
  Decision, accept, accept_for_session, decline, decision_str, elicitation_response, response_for,
  command_execution, file_change, mcp_elicitation, tool_user_input, permissions,
}

-- The answers: commands and changes of files take every decision, an elicitation all but a whole session.
pub data Answers : String → Decision → Value → Type 0 where
  command :
      (d : Decision)
      → Answers command_execution d (object (("decision", str (decision_str d)) ∷ []))
  change : (d : Decision) → Answers file_change d (object (("decision", str (decision_str d)) ∷ []))
  accepted : Answers mcp_elicitation accept (object (("action", str "accept") ∷ []))
  declined : Answers mcp_elicitation decline (object (("action", str "decline") ∷ []))

answered :
    (method : String) (d : Decision) (v : Value) → Answers method d v → response_for method d ≡ ok v
unfolding response_for elicitation_response decision_str
answered _ _ _ (command d) = refl
answered _ _ _ (change d) = refl
answered _ _ _ accepted = refl
answered _ _ _ declined = refl

abbrev AllOk : (Value → Type 0) → Result Value → Type 0
AllOk P (ok v) = P v
AllOk P (err e) = Unit

elicited_all :
    (method : String) (d : Decision)
    → method ≡ mcp_elicitation
    → AllOk (Answers method d) (elicitation_response d)
unfolding elicitation_response decision_str
elicited_all method accept e =
    subst (λ m. Answers m accept (object (("action", str "accept") ∷ []))) (sym e) accepted
elicited_all method decline e =
    subst (λ m. Answers m decline (object (("action", str "decline") ∷ []))) (sym e) declined
elicited_all method accept_for_session e = tt

plain :
    (method : String) (d : Decision)
    → (method == command_execution || method == file_change) ≡ true
    → Answers method d (object (("decision", str (decision_str d)) ∷ []))
plain method d h = elim (Bool-cases (method == command_execution)) [
  | inl e ↦
      subst (λ m. Answers m d (object (("decision", str (decision_str d)) ∷ [])))
        (sym ((eq_iff method command_execution).0 e)) (command d)
  | inr e ↦
      let f : (method == file_change) ≡ true = ground arith in
      subst (λ m. Answers m d (object (("decision", str (decision_str d)) ∷ [])))
        (sym ((eq_iff method file_change).0 f)) (change d)
]

response_all : (method : String) (d : Decision) → AllOk (Answers method d) (response_for method d)
unfolding response_for
response_all method d = elim (Bool-cases (method == command_execution || method == file_change)) [
  | inl e ↦ rw e (plain method d e)
  | inr e ↦ elim (Bool-cases (method == mcp_elicitation)) [
    | inl f ↦ rw (e, f) (elicited_all method d ((eq_iff method mcp_elicitation).0 f))
    | inr f ↦
        rw (e, f)
          (if_both (AllOk (Answers method d)) (method == tool_user_input) _ _ tt
            (if_both (AllOk (Answers method d)) (method == permissions) _ _ tt tt))
  ]
]

all_ok : (P : Value → Type 0) (r : Result Value) (v : Value) → AllOk P r → r ≡ ok v → P v
all_ok P (ok x) v p h = subst P (ok_inj h) p
all_ok P (err e) v p h = absurd (ground arith)

-- A bare decision has a response exactly for the requests of the table: commands and changes of files take every
-- decision, an elicitation takes accept and decline, and no other method takes any.
pub response_for-ok_iff :
    (method : String) (d : Decision) (v : Value)
    → (response_for method d ≡ ok v) ↔ Answers method d v
response_for-ok_iff method d v = (
  all_ok (Answers method d) (response_for method d) v (response_all method d),
  answered method d v,
)
