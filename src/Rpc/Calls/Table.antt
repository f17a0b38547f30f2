-- ===== src/Rpc/Calls/Table.antt =====
-- The table of senders of src/backend/rpc.rs when each sender's key is that of its own id: lookups,
-- removals and the drain as changes to the number of places that a sender has.
use codex_bridge.Common.{
  ℕ, suc, ◌≡◌, ◌<◌, ◌≤◌, ◌≢◌, refl, ◌==◌, String, some, List, [], ◌∷◌, arith, All, Bool-cases, inl,
  inr, eq_iff, if◌then◌else◌, nat_eq, nat_eq_iff, ap,
}
use codex_bridge.Common.Decimal.{i64_half}
use codex_bridge.Rpc.{Protocol, Outcome, failed, find_waiter, remove_waiter, drain, closed_error}
use codex_bridge.Rpc.Calls.{outcomes_of}
use codex_bridge.Rpc.Calls.Fate.{Keys}

-- How many places of the table the sender `w` has.
unfoldable pub count : ℕ → List (String × ℕ) → ℕ
count w [] = 0
count w ((j, v) ∷ m) = let rest = count w m in if nat_eq v w then suc rest else rest

module _ (p : Protocol) (ks : Keys p) where
  -- Every sender stands under the key of its id, and is one of the first `n`.
  abbrev pub IsIssued : ℕ → List (String × ℕ) → Type 0
  IsIssued n m = All (λ ((j, v) : String × ℕ). (j ≡ ks.key (suc v)) × (v < n)) m

  pub IsIssued-mono : (n n' : ℕ) (m : List (String × ℕ)) → n ≤ n' → IsIssued n m → IsIssued n' m
  IsIssued-mono n n' [] le h = tt
  IsIssued-mono n n' ((j, v) ∷ m) le ((e, lt), h) = ((e, ground arith), IsIssued-mono n n' m le h)

  pub remove-IsIssued :
      (n : ℕ) (k : String) (m : List (String × ℕ)) → IsIssued n m → IsIssued n (remove_waiter k m)
  unfolding remove_waiter
  remove-IsIssued n k [] h = tt
  remove-IsIssued n k ((j, v) ∷ m) (e, h) = elim (Bool-cases (j == k)) [
    | inl same ↦ rw same (remove-IsIssued n k m h)
    | inr differ ↦ rw differ (e, remove-IsIssued n k m h)
  ]

  same_sender : (n v w : ℕ) → n < i64_half → v < n → w < n → ks.key (suc v) ≡ ks.key (suc w) → v ≡ w
  same_sender n v w few hv hw e = omega (arith, ks.injective (suc v) (suc w) _ _ e)

  -- A sender that has a place is found under the key of its id.
  pub find-count :
      (n w : ℕ) (m : List (String × ℕ))
      → n < i64_half
      → w < n
      → IsIssued n m
      → count w m ≢ 0
      → find_waiter (ks.key (suc w)) m ≡ some w
  unfolding find_waiter count
  find-count n w [] few hw h there = absurd (there refl)
  find-count n w ((j, v) ∷ m) few hw ((e, lt), h) there = elim (Bool-cases (j == ks.key (suc w))) [
    | inl same ↦
        rw same (ap some (same_sender n v w few lt hw (ground (arith, eq_iff j (ks.key (suc w))))))
    | inr differ ↦
        rw differ
          (find-count n w m few hw h (ground (arith, eq_iff j (ks.key (suc w)), nat_eq_iff v w)))
  ]

  -- What is found stands under the key of its own id.
  pub found-IsIssued :
      (n v : ℕ) (k : String) (m : List (String × ℕ))
      → IsIssued n m
      → find_waiter k m ≡ some v
      → (k ≡ ks.key (suc v)) × (v < n)
  unfolding find_waiter
  found-IsIssued n v k [] h e = absurd (ground arith)
  found-IsIssued n v k ((j, u) ∷ m) ((e, lt), h) f = elim (Bool-cases (j == k)) [
    | inl same ↦ ground (arith, eq_iff j k)
    | inr differ ↦ found-IsIssued n v k m h (ground arith)
  ]

  pub count-remove_self :
      (n w : ℕ) (m : List (String × ℕ))
      → IsIssued n m
      → count w (remove_waiter (ks.key (suc w)) m) ≡ 0
  unfolding remove_waiter count
  count-remove_self n w [] h = refl
  count-remove_self n w ((j, v) ∷ m) ((e, lt), h) =
      ground (arith, count-remove_self n w m h, eq_iff j (ks.key (suc w)), nat_eq_iff v w)

  pub count-remove_other :
      (n w : ℕ) (k : String) (m : List (String × ℕ))
      → k ≢ ks.key (suc w)
      → IsIssued n m
      → count w (remove_waiter k m) ≡ count w m
  unfolding remove_waiter count
  count-remove_other n w k [] differ h = refl
  count-remove_other n w k ((j, v) ∷ m) differ ((e, lt), h) =
      ground (arith, count-remove_other n w k m differ h, eq_iff j k, nat_eq_iff v w)

  pub count_fresh : (n w : ℕ) (m : List (String × ℕ)) → n ≤ w → IsIssued n m → count w m ≡ 0
  unfolding count
  count_fresh n w [] le h = refl
  count_fresh n w ((j, v) ∷ m) le ((e, lt), h) = ground (arith, count_fresh n w m le h)

pub count-found :
    (k : String) (v : ℕ) (m : List (String × ℕ)) → find_waiter k m ≡ some v → count v m ≢ 0
unfolding find_waiter count
count-found k v [] e = absurd (ground arith)
count-found k v ((j, u) ∷ m) e = elim (Bool-cases (j == k)) [
  | inl same ↦ ground (arith, nat_eq_iff u v)
  | inr differ ↦ ground (arith, count-found k v m)
]

pub count-remove_none :
    (k : String) (w : ℕ) (m : List (String × ℕ)) → count w m ≡ 0 → count w (remove_waiter k m) ≡ 0
unfolding remove_waiter count
count-remove_none k w [] h = refl
count-remove_none k w ((j, v) ∷ m) h = ground (arith, count-remove_none k w m)

-- A sender without a place is given nothing by the drain.
pub drain_absent :
    (reason : String) (w : ℕ) (m : List (String × ℕ)) (ds : List (ℕ × Outcome))
    → count w m ≡ 0
    → outcomes_of w (drain reason m ds) ≡ outcomes_of w ds
unfolding drain count outcomes_of
drain_absent reason w [] ds h = refl
drain_absent reason w ((j, v) ∷ m) ds h =
    ground (arith, drain_absent reason w m ((v, failed (closed_error reason)) ∷ ds))

-- A sender with one place is given the end of the connection once.
pub drain_present :
    (reason : String) (w : ℕ) (m : List (String × ℕ)) (ds : List (ℕ × Outcome))
    → count w m ≡ 1
    → outcomes_of w (drain reason m ds) ≡ failed (closed_error reason) ∷ outcomes_of w ds
unfolding drain count outcomes_of
drain_present reason w [] ds h = absurd (ground arith)
drain_present reason w ((j, v) ∷ m) ds h = ground (
  arith,
  drain_absent reason w m ((v, failed (closed_error reason)) ∷ ds),
  drain_present reason w m ((v, failed (closed_error reason)) ∷ ds),
)
