-- ===== src/Rpc/Calls/Fate.antt =====
-- What a caller of src/backend/rpc.rs may count on, without a table: a mailbox of its own, which
-- takes the first response under its key, or else the end of the connection.
use codex_bridge.Common.{
  ◌≢◌, ℕ, suc, ◌≡◌, ◌<◌, ◌==◌, String, Option, none, some, List, [], ◌∷◌, is_some_and,
  if◌then◌else◌, and_then,
}
use codex_bridge.Common.Decimal.{pos, i64_half}
use codex_bridge.Json.{Value, get, get_str}
use codex_bridge.Rpc.{Protocol, Outcome, failed, outcome_of, closed_error}
use codex_bridge.Rpc.Calls.{Step, called, unheard, arrived, ended}

-- A response has an id and no method.
abbrev pub key_in : Protocol → Option Value → Option String → Option String
key_in p id (some method) = none
key_in p id none = and_then id p.response_key

abbrev pub key_of : Protocol → Value → Option String
key_of p msg = key_in p (get "id" msg) (get_str "method" msg)

abbrev pub answer_in : Protocol → String → Value → Option Outcome
answer_in p key msg =
    if is_some_and (λ k. k == key) (key_of p msg) then some (outcome_of msg) else none

abbrev pub first_or : Option Outcome → List Outcome → List Outcome
first_or none later = later
first_or (some o) later = o ∷ []

-- The steps behind the call.
unfoldable pub fate : Protocol → String → List Step → List Outcome
fate p key [] = []
fate p key (called ∷ ts) = fate p key ts
fate p key (unheard ∷ ts) = fate p key ts
fate p key (arrived msg ∷ ts) = first_or (answer_in p key msg) (fate p key ts)
fate p key (ended reason ∷ ts) = failed (closed_error reason) ∷ []

-- The two messages do not answer the same key.
abbrev pub AreApart : Protocol → Value → Value → Type 0
AreApart p first second = (key : String) → key_of p first ≡ some key → key_of p second ≢ some key

-- The ids that the steps take.
abbrev pub ids_in : List Step → ℕ
ids_in [] = 0
ids_in (called ∷ ts) = suc (ids_in ts)
ids_in (unheard ∷ ts) = suc (ids_in ts)
ids_in (arrived msg ∷ ts) = ids_in ts
ids_in (ended reason ∷ ts) = ids_in ts

-- The contract of a protocol's ids: `key n` belongs to the id of the counter `n`, and to no other.
pub record Keys (p : Protocol) : Type 0 where
  pub key : ℕ → String
  pub keyed : (n : ℕ) → n < i64_half → p.response_key (p.next_id (pos n)) ≡ some (key n)
  pub injective : (m n : ℕ) → m < i64_half → n < i64_half → key m ≡ key n → m ≡ n
