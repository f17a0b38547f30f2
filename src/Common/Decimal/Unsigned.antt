-- ===== src/Common/Decimal/Unsigned.antt =====
-- An unsigned number as text in a file: printing, trimming and parsing it.
use Prim.Native.Char.{code}
use Prim.Native.String.{String}
use Prim.Native.Nat.{ℕ, zero, suc, ◌/◌, ◌%◌, ◌<◌}
use mathlib.Core.Path.{◌≡◌, refl, ◌∙◌, ap}
use mathlib.Core.Logic.{inl, inr}
use mathlib.Core.Bool.{false}
use mathlib.Core.Option.{Option, none, some}
use native.Mathlib.Omega.{arith}
use codex_bridge.Common.Tests.{ltb, Bool-cases}
use codex_bridge.Common.Text.{is_whitespace, trim_start, trim_end}
use codex_bridge.Common.Decimal.{
  show_ℕ, digits_before, digit, parse_unsigned, below, parse_digits-show, digits_before-cons,
  digit_sign, below, parse_digits, scan_digit, digit_value,
}

abbrev pub NoSpace : String → Type 0
NoSpace String.[] = Unit
NoSpace (String.◌∷◌ c s) = (is_whitespace (code c) ≡ false) × NoSpace s

trim_start-NoSpace : (s : String) → NoSpace s → trim_start s ≡ s
unfolding trim_start
trim_start-NoSpace String.[] h = refl
trim_start-NoSpace (String.◌∷◌ c s) (e, h) = rw e refl

trim_end-NoSpace : (s : String) → NoSpace s → trim_end s ≡ s
unfolding trim_end
trim_end-NoSpace String.[] h = refl
trim_end-NoSpace (String.◌∷◌ c s) (e, h) = rw (e, trim_end-NoSpace s h) refl

digit-NoSpace : (d : ℕ) → d < 10 → is_whitespace (code (digit d)) ≡ false
unfolding is_whitespace digit_value
digit-NoSpace d h = ground (arith, scan_digit d h)

before-NoSpace : (f n : ℕ) (rest : String) → NoSpace rest → NoSpace (digits_before f n rest)
unfolding digits_before
before-NoSpace zero n rest h = h
before-NoSpace (suc f) n rest h = elim (Bool-cases (ltb n 10)) [
  | inl small ↦ rw small (digit-NoSpace n (ground arith), h)
  | inr large ↦ rw large (
      before-NoSpace f (n / 10) (String.◌∷◌ (digit (n % 10)) rest)
        (digit-NoSpace (n % 10) (omega arith), h))
]

show-NoSpace : (n : ℕ) → NoSpace (show_ℕ n)
unfolding show_ℕ
show-NoSpace n = before-NoSpace (suc n) n String.[] tt

parse_unsigned-digit :
    (bound d : ℕ) (s : String)
    → d < 10
    → parse_unsigned bound (String.◌∷◌ (digit d) s)
      ≡ below bound (parse_digits (String.◌∷◌ (digit d) s))
unfolding parse_unsigned parse_digits
parse_unsigned-digit bound d s h = let (minus, plus) = digit_sign d h in rw plus refl

parse_unsigned-show : (bound n : ℕ) → n < bound → parse_unsigned bound (show_ℕ n) ≡ some n
unfolding show_ℕ below
parse_unsigned-show bound n h =
    let (d, s, low, e) = digits_before-cons (suc n) n String.[] (omega arith) in
    let whole : parse_digits (digits_before (suc n) n String.[]) ≡ some n = parse_digits-show n in
    rw e (parse_unsigned-digit bound d s low ∙ (ap (below bound) (rw e at whole) ∙ ground arith))

-- A number within the bound is read back from its trimmed text.
pub parse_unsigned-trim :
    (bound n : ℕ) → n < bound → parse_unsigned bound (trim_end (trim_start (show_ℕ n))) ≡ some n
parse_unsigned-trim bound n h =
    rw
      (trim_start-NoSpace (show_ℕ n) (show-NoSpace n), trim_end-NoSpace (show_ℕ n) (show-NoSpace n))
      (parse_unsigned-show bound n h)

below-small : (bound n : ℕ) (r : Option ℕ) → below bound r ≡ some n → n < bound
unfolding below
below-small bound n none h = absurd (ground arith)
below-small bound n (some k) h = ground arith

-- A number that is read is below the bound.
pub parse_unsigned-small : (bound n : ℕ) (s : String) → parse_unsigned bound s ≡ some n → n < bound
unfolding parse_unsigned
parse_unsigned-small bound n String.[] h = absurd (ground arith)
parse_unsigned-small bound n (String.◌∷◌ c s) h = below-small bound n _ h
