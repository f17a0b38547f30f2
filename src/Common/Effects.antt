-- ===== src/Common/Effects.antt =====
-- Methods that change an object and may fail: the state comes back beside the error too, since
-- what was written before a `?` returned stays written. `anyhow::Error` is its `{:#}` text.
use Prim.Native.String.{String, ◌++◌}
use mathlib.Core.Path.{◌≡◌, refl}
use mathlib.Core.Bool.{Bool, true, false}
use mathlib.Core.Logic.{◌⊎◌, inl, inr}
use codex_bridge.Common.Tests.{if◌then◌else◌}
use native.Mathlib.Omega.{arith}
use mathlib.Core.Option.{Option, none, some}

-- `format!` and `push_str`: texts one after the other
infixr 65 ◌⧺◌
abbrev pub ◌⧺◌ : String → String → String
s ⧺ t = s ++ t

pub data Result {ℓ} (A : Type ℓ) : Type ℓ where
  ok : A → Result A
  err : String → Result A

pub Result-cases {ℓ} :
    {A : Type ℓ} (r : Result A) → ((a : A) × (r ≡ ok a)) ⊎ ((e : String) × (r ≡ err e))
Result-cases (ok a) = inl (a, refl)
Result-cases (err e) = inr (e, refl)

-- `with_context` and `context`, as `{:#}` prints the chain
abbrev pub context {ℓ} : {A : Type ℓ} → String → Result A → Result A
context c (ok a) = ok a
context c (err e) = err (c ⧺ ": " ⧺ e)

-- Option::ok_or_else
abbrev pub ok_or {ℓ} : {A : Type ℓ} → Option A → String → Result A
ok_or none e = err e
ok_or (some a) e = ok a

abbrev pub result_ok {ℓ} : {A : Type ℓ} → Result A → Option A
result_ok (ok a) = some a
result_ok (err e) = none

abbrev pub and_ok {ℓ κ} : {A : Type ℓ} {B : Type κ} → Result A → (A → Result B) → Result B
and_ok (ok a) f = f a
and_ok (err e) f = err e

abbrev pub Act {ℓ} : Type ℓ → Type ℓ → Type ℓ
Act S A = S → Result A × S

module _ {ℓ} {S A : Type ℓ} where
  abbrev pub pure : A → Act S A
  pure a s = (ok a, s)

  abbrev pub bail : String → Act S A
  bail e s = (err e, s)

  abbrev pub lift : Result A → Act S A
  lift r s = (r, s)

  abbrev pub gets : (S → A) → Act S A
  gets f s = (ok (f s), s)

  abbrev pub with_ctx : String → Act S A → Act S A
  with_ctx c m s = let (r, s') = m s in (context c r, s')

abbrev pub modify {ℓ} : {S : Type ℓ} → (S → S) → Act S Unit
modify f s = (ok tt, f s)

module _ {ℓ} {S A B : Type ℓ} where
  abbrev pub continue : Result A → (A → Act S B) → S → Result B × S
  continue (ok a) f s = f a s
  continue (err c) f s = (err c, s)

  infixl 10 ◌>>=◌ ◌>>◌
  abbrev pub ◌>>=◌ : Act S A → (A → Act S B) → Act S B
  ◌>>=◌ m f s = let (r, s') = m s in continue r f s'

  abbrev pub ◌>>◌ : Act S A → Act S B → Act S B
  m >> n = m >>= λ _. n

module _ {ℓ} {A : Type ℓ} where
  -- A guard that fails with an error is passed exactly when its test is false.
  pub guard-passed :
      (b : Bool) (e : String) (rest : Result A) (a : A)
      → (if b then err e else rest) ≡ ok a
      → (b ≡ false) × (rest ≡ ok a)
  guard-passed true e rest a h = absurd (ground arith)
  guard-passed false e rest a h = (refl, h)

  pub pass_guard :
      (b : Bool) (e : String) (rest : Result A) (a : A)
      → b ≡ false
      → rest ≡ ok a
      → (if b then err e else rest) ≡ ok a
  pass_guard b e rest a f h = rw f h

  pub ok_inj : {a b : A} → ok a ≡ ok b → a ≡ b
  ok_inj h = ground arith
