-- ===== src/Common/Decimal.antt =====
-- Rust's `to_string` and `parse` on integers of 64 bits: `i64` values are `ℤ` in range.
pub mod Unsigned
use Prim.Native.Char.{Char, code}
use Prim.Native.String.{String}
use codex_bridge.Common.Tests.{ltb, leb, nat_eq, Bool-cases, if◌then◌else◌}
use Prim.Native.Nat.{ℕ, zero, suc, ◌+◌, ◌*◌, ◌-◌, ◌/◌, ◌%◌, ◌^◌, ◌<◌}
use mathlib.Core.Path.{◌≡◌, refl, ap, ◌∙◌}
use mathlib.Core.Bool.{false, ◌&&◌}
use mathlib.Core.Option.{Option, none, some}
use mathlib.Core.Logic.{inl, inr}
use native.Mathlib.Omega.{arith}

-- `negsuc n` is -(n + 1).
pub data ℤ : Type 0 where
  pos : ℕ → ℤ
  negsuc : ℕ → ℤ

abbrev pub i64_half : ℕ
i64_half = 2 ^ 63

digit : ℕ → Char
digit zero = "0"
digit (suc zero) = "1"
digit (suc (suc zero)) = "2"
digit (suc (suc (suc zero))) = "3"
digit (suc (suc (suc (suc zero)))) = "4"
digit (suc (suc (suc (suc (suc zero))))) = "5"
digit (suc (suc (suc (suc (suc (suc zero)))))) = "6"
digit (suc (suc (suc (suc (suc (suc (suc zero))))))) = "7"
digit (suc (suc (suc (suc (suc (suc (suc (suc zero)))))))) = "8"
digit _ = "9"

-- The digits of `n` in front of `rest`; `n` is more fuel than there are digits.
digits_before : ℕ → ℕ → String → String
digits_before zero n rest = rest
digits_before (suc f) n rest =
    let more = digits_before f (n / 10) (String.◌∷◌ (digit (n % 10)) rest) in
    if ltb n 10 then String.◌∷◌ (digit n) rest else more

unfoldable pub show_ℕ : ℕ → String
unfolding digits_before digit
show_ℕ n = digits_before (suc n) n String.[]

unfoldable pub show_ℤ : ℤ → String
unfolding show_ℕ
show_ℤ (pos n) = show_ℕ n
show_ℤ (negsuc n) = String.◌∷◌ "-" (show_ℕ (suc n))

digit_value : Char → Option ℕ
digit_value c = if leb b'0' (code c) && leb (code c) b'9' then some (code c - b'0') else none

scan_digits : String → ℕ → Option ℕ
scan_digits String.[] n = some n
scan_digits (String.◌∷◌ c s) n = elim (digit_value c) [
  | none ↦ none
  | some d ↦ scan_digits s (n * 10 + d)
]

parse_digits : String → Option ℕ
parse_digits String.[] = none
parse_digits (String.◌∷◌ c s) = scan_digits (String.◌∷◌ c s) 0

positive_i64 : Option ℕ → Option ℤ
positive_i64 none = none
positive_i64 (some n) = if ltb n i64_half then some (pos n) else none

negative_i64 : Option ℕ → Option ℤ
negative_i64 none = none
negative_i64 (some zero) = some (pos zero)
negative_i64 (some (suc n)) = if ltb n i64_half then some (negsuc n) else none

-- `str::parse::<i64>`, as an option
unfoldable pub parse_i64 : String → Option ℤ
unfolding digit_value scan_digits parse_digits positive_i64 negative_i64
parse_i64 String.[] = none
parse_i64 (String.◌∷◌ c s) =
    if nat_eq (code c) b'-'
    then negative_i64 (parse_digits s)
    else if nat_eq (code c) b'+'
    then positive_i64 (parse_digits s)
    else positive_i64 (parse_digits (String.◌∷◌ c s))

unfoldable pub below : ℕ → Option ℕ → Option ℕ
below bound none = none
below bound (some n) = if ltb n bound then some n else none

-- `str::parse` for an unsigned integer below `bound`
unfoldable pub parse_unsigned : ℕ → String → Option ℕ
unfolding scan_digits digit_value parse_digits below
parse_unsigned bound String.[] = none
parse_unsigned bound (String.◌∷◌ c s) =
    below bound (parse_digits (if nat_eq (code c) b'+' then s else String.◌∷◌ c s))

abbrev pub InI64 : ℤ → Type 0
InI64 (pos n) = n < i64_half
InI64 (negsuc n) = n < i64_half

-- AtomicI64::fetch_add(1): the sum wraps around.
unfoldable pub i64_suc : ℤ → ℤ
i64_suc (pos n) = if ltb (n + 1) i64_half then pos (n + 1) else negsuc (i64_half - 1)
i64_suc (negsuc zero) = pos 0
i64_suc (negsuc (suc n)) = negsuc n

scan_digit : (d : ℕ) → d < 10 → digit_value (digit d) ≡ some d
unfolding digit_value digit
scan_digit zero h = refl
scan_digit (suc zero) h = refl
scan_digit (suc (suc zero)) h = refl
scan_digit (suc (suc (suc zero))) h = refl
scan_digit (suc (suc (suc (suc zero)))) h = refl
scan_digit (suc (suc (suc (suc (suc zero))))) h = refl
scan_digit (suc (suc (suc (suc (suc (suc zero)))))) h = refl
scan_digit (suc (suc (suc (suc (suc (suc (suc zero))))))) h = refl
scan_digit (suc (suc (suc (suc (suc (suc (suc (suc zero)))))))) h = refl
scan_digit (suc (suc (suc (suc (suc (suc (suc (suc (suc zero))))))))) h = refl
scan_digit (suc (suc (suc (suc (suc (suc (suc (suc (suc (suc n)))))))))) h = absurd (omega arith)

scan_digits-digit :
    (d n m : ℕ) (s : String)
    → d < 10
    → n * 10 + d ≡ m
    → scan_digits (String.◌∷◌ (digit d) s) n ≡ scan_digits s m
unfolding scan_digits
scan_digits-digit d n m s h e = rw (scan_digit d h, scan_digits) (rw e)

scan-digits_before :
    (f n : ℕ) (rest : String) → n < f → scan_digits (digits_before f n rest) 0 ≡ scan_digits rest n
unfolding digits_before
scan-digits_before zero n rest h = elim h [ ]
scan-digits_before (suc f) n rest h = elim (Bool-cases (ltb n 10)) [
  | inl small ↦ rw small (scan_digits-digit n 0 n rest (ground arith) (omega arith))
  | inr large ↦ rw large (
      scan-digits_before f (n / 10) (String.◌∷◌ (digit (n % 10)) rest) (ground arith)
      ∙ scan_digits-digit (n % 10) (n / 10) n rest (omega arith) (omega arith))
]

-- The printed number begins with a digit.
digits_before-cons :
    (f n : ℕ) (rest : String)
    → n < f
    → (d : ℕ) × (s : String) × (d < 10) × (digits_before f n rest ≡ String.◌∷◌ (digit d) s)
unfolding digits_before
digits_before-cons zero n rest h = elim h [ ]
digits_before-cons (suc f) n rest h = elim (Bool-cases (ltb n 10)) [
  | inl small ↦ (n, rest, ground arith, rw small)
  | inr large ↦
      let (d, s, low, e) =
        digits_before-cons f (n / 10) (String.◌∷◌ (digit (n % 10)) rest) (ground arith) in
      (d, s, low, rw large e)
]

parse_digits-show : (n : ℕ) → parse_digits (show_ℕ n) ≡ some n
unfolding show_ℕ parse_digits scan_digits
parse_digits-show n =
    let (d, s, low, e) = digits_before-cons (suc n) n String.[] (omega arith) in
    let whole : scan_digits (digits_before (suc n) n String.[]) 0 ≡ some n =
      scan-digits_before (suc n) n String.[] (omega arith) in
    rw e (rw e at whole)

digit_sign :
    (d : ℕ)
    → d < 10
    → (nat_eq (code (digit d)) b'-' ≡ false) × (nat_eq (code (digit d)) b'+' ≡ false)
unfolding digit_value
digit_sign d h = ground (arith, scan_digit d h)

parse_i64_unsigned :
    (d : ℕ) (s : String)
    → d < 10
    → parse_i64 (String.◌∷◌ (digit d) s) ≡ positive_i64 (parse_digits (String.◌∷◌ (digit d) s))
unfolding parse_i64 parse_digits
parse_i64_unsigned d s h = let (minus, plus) = digit_sign d h in rw (minus, plus)

parse_i64-show_ℕ : (n : ℕ) → parse_i64 (show_ℕ n) ≡ positive_i64 (some n)
unfolding show_ℕ
parse_i64-show_ℕ n =
    let (d, s, low, e) = digits_before-cons (suc n) n String.[] (omega arith) in
    let whole : parse_digits (digits_before (suc n) n String.[]) ≡ some n = parse_digits-show n in
    rw e (parse_i64_unsigned d s low ∙ ap positive_i64 (rw e at whole))

-- `parse` undoes `to_string` on every `i64`.
pub parse_i64-show_ℤ : (z : ℤ) → InI64 z → parse_i64 (show_ℤ z) ≡ some z
unfolding show_ℤ parse_i64
parse_i64-show_ℤ (pos n) h = parse_i64-show_ℕ n ∙ ground arith
parse_i64-show_ℤ (negsuc n) h = rw (parse_digits-show (suc n)) (ground arith)
