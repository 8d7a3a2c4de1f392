-- ===== src/Common/Int/Decimal.antt =====
-- `int` reads back what `str` prints of a number.
use Prim.Native.Nat.{ℕ, zero, suc, ◌+◌, ◌*◌, ◌/◌, ◌%◌, ◌<◌, ◌-◌}
use Prim.Native.String.{String}
use Prim.Native.String
use Prim.Native.Char.{Char, code}
use mathlib.Core.Path.{◌≡◌, refl, sym, ◌∙◌, ap, subst}
use mathlib.Core.Logic.{inl, inr}
use mathlib.Core.Bool.{Bool, true, false}
use mathlib.Core.Option.{some}
use native.Mathlib.Omega.{arith}
use text.Mathlib.TextLemmas.{append_assoc, append-nil, cons-append, nil-append}
use lando_api.Common.Tests.{ltb, Bool-cases}
use lando_api.Common.Text.{digit, decimal_fuel, decimal}
use lando_api.Common.Search.{is_space, strip, rstrip, keep_unless_last}
use lando_api.Common.Int.{positive, pos, is_digit, scan_digits, signed, int_of}

-- A digit is one character.
digit_char : (d : ℕ) → d < 10 → (c : Char) × (digit d ≡ String.◌∷◌ c "") × (code c ≡ 48 + d)
unfolding digit
digit_char zero h = ("0", refl, omega arith)
digit_char (suc zero) h = ("1", refl, omega arith)
digit_char (suc (suc zero)) h = ("2", refl, omega arith)
digit_char (suc (suc (suc zero))) h = ("3", refl, omega arith)
digit_char (suc (suc (suc (suc zero)))) h = ("4", refl, omega arith)
digit_char (suc (suc (suc (suc (suc zero))))) h = ("5", refl, omega arith)
digit_char (suc (suc (suc (suc (suc (suc zero)))))) h = ("6", refl, omega arith)
digit_char (suc (suc (suc (suc (suc (suc (suc zero))))))) h = ("7", refl, omega arith)
digit_char (suc (suc (suc (suc (suc (suc (suc (suc zero)))))))) h = ("8", refl, omega arith)
digit_char (suc (suc (suc (suc (suc (suc (suc (suc (suc zero))))))))) h = ("9", refl, omega arith)
digit_char (suc (suc (suc (suc (suc (suc (suc (suc (suc (suc d)))))))))) h = absurd (omega arith)

pub cons_onto : (c : Char) (rest : String) → String.◌++◌ (String.◌∷◌ c "") rest ≡ String.◌∷◌ c rest
cons_onto c rest = cons-append c "" rest ∙ ap (String.◌∷◌ c) (nil-append rest)

scan_digits-digit :
    (d n : ℕ) (b : Bool) (rest : String)
    → d < 10
    → scan_digits n b (String.◌++◌ (digit d) rest) ≡ scan_digits (n * 10 + d) false rest
unfolding scan_digits
scan_digits-digit d n b rest h =
    let (c, e, k) = digit_char d h in
    let t : is_digit c ≡ true = ground arith in
    let v : n * 10 + (code c - 48) ≡ n * 10 + d = omega arith in
    rw e (rw (cons_onto c rest) (rw t (ap (λ m. scan_digits m false rest) v)))

scan_digits-decimal :
    (f n : ℕ) (rest : String)
    → n < f
    → scan_digits 0 true (String.◌++◌ (decimal_fuel f n) rest) ≡ scan_digits n false rest
unfolding decimal_fuel
scan_digits-decimal zero n rest h = absurd (omega arith)
scan_digits-decimal (suc f) n rest h = elim (Bool-cases (ltb n 10)) [
  | inl t ↦
      let v : 0 * 10 + n ≡ n = omega arith in
      rw t (scan_digits-digit n 0 true rest (ground arith) ∙ ap (λ m. scan_digits m false rest) v)
  | inr t ↦
      let v : n / 10 * 10 + n % 10 ≡ n = omega arith in
      rw t (
        ap (scan_digits 0 true) (append_assoc (decimal_fuel f (n / 10)) (digit (n % 10)) rest)
        ∙ scan_digits-decimal f (n / 10) (String.◌++◌ (digit (n % 10)) rest) (ground arith)
        ∙ scan_digits-digit (n % 10) (n / 10) false rest (omega arith)
        ∙ ap (λ m. scan_digits m false rest) v)
]

-- Each character satisfies `P`.
abbrev pub AllChars : (Char → Type 0) → String → Type 0
AllChars P String.[] = Unit
AllChars P (String.◌∷◌ c s) = P c × AllChars P s

pub AllChars-append :
    (P : Char → Type 0) (s t : String) → AllChars P s → AllChars P t → AllChars P (String.◌++◌ s t)
AllChars-append P String.[] t h k = subst (AllChars P) (sym (nil-append t)) k
AllChars-append P (String.◌∷◌ c s) t h k =
    subst (AllChars P) (sym (cons-append c s t)) (h.0, AllChars-append P s t h.1 k)

abbrev pub IsDigit : Char → Type 0
IsDigit c = is_digit c ≡ true

digit-IsDigit : (d : ℕ) → d < 10 → AllChars IsDigit (digit d)
digit-IsDigit d h =
    let (c, e, k) = digit_char d h in
    let t : is_digit c ≡ true = ground arith in subst (AllChars IsDigit) (sym e) (t, tt)

decimal_fuel-IsDigit : (f n : ℕ) → n < f → AllChars IsDigit (decimal_fuel f n)
unfolding decimal_fuel
decimal_fuel-IsDigit zero n h = absurd (omega arith)
decimal_fuel-IsDigit (suc f) n h = elim (Bool-cases (ltb n 10)) [
  | inl t ↦ rw t (digit-IsDigit n (ground arith))
  | inr t ↦ rw t (
      AllChars-append IsDigit (decimal_fuel f (n / 10)) (digit (n % 10))
        (decimal_fuel-IsDigit f (n / 10) (ground arith)) (digit-IsDigit (n % 10) (omega arith)))
]

-- A number is printed as one or more digits.
pub decimal-IsDigit :
    (n : ℕ)
    → (c : Char) × (s : String) × (decimal n ≡ String.◌∷◌ c s) × IsDigit c × AllChars IsDigit s
unfolding decimal scan_digits
decimal-IsDigit n =
    first_digit (decimal_fuel (suc n) n) refl (decimal_fuel-IsDigit (suc n) n (omega arith))
  where
    first_digit :
        (s : String)
        → decimal_fuel (suc n) n ≡ s
        → AllChars IsDigit s
        → (c : Char) × (t : String) × (decimal_fuel (suc n) n ≡ String.◌∷◌ c t)
          × IsDigit c
          × AllChars IsDigit t
    first_digit String.[] e h =
        let p = scan_digits-decimal (suc n) n "" (omega arith) in
        let q : scan_digits 0 true (String.◌++◌ "" "") ≡ scan_digits n false "" = rw e at p in
        absurd (cc)
    first_digit (String.◌∷◌ c t) e h = (c, t, e, h.0, h.1)

first_digit_positive :
    (f n : ℕ)
    → n < f
    → 0 < n
    → (c : Char) × (s : String) × (decimal_fuel f n ≡ String.◌∷◌ c s) × (48 < code c)
unfolding decimal_fuel
first_digit_positive zero n h k = absurd (omega arith)
first_digit_positive (suc f) n h k = elim (Bool-cases (ltb n 10)) [
  | inl t ↦ let (c, e, v) = digit_char n (ground arith) in rw t (c, "", e, omega arith)
  | inr t ↦
      let (c, s, e, v) = first_digit_positive f (n / 10) (ground arith) (ground arith) in
      rw t (
        c,
        String.◌++◌ s (digit (n % 10)),
        ap (λ front. String.◌++◌ front (digit (n % 10))) e ∙ cons-append c s (digit (n % 10)),
        v,
      )
]

-- A positive number is printed without a leading zero, and its digits give the number.
pub decimal-positive :
    (n : ℕ)
    → 0 < n
    → (c : Char) × (s : String) × (decimal n ≡ String.◌∷◌ c s)
      × (48 < code c)
      × IsDigit c
      × AllChars IsDigit s
      × (scan_digits (code c - 48) false s ≡ some n)
unfolding decimal scan_digits
decimal-positive n h =
    let (c, s, e, v) = first_digit_positive (suc n) n (omega arith) h in
    let (k, ks) = subst (AllChars IsDigit) e (decimal_fuel-IsDigit (suc n) n (omega arith)) in
    let p : scan_digits 0 true (decimal_fuel (suc n) n) ≡ some n =
      ap (scan_digits 0 true) (sym (append-nil (decimal_fuel (suc n) n)))
      ∙ scan_digits-decimal (suc n) n "" (omega arith) in
    let q : scan_digits 0 true (String.◌∷◌ c s) ≡ some n = rw e at p in
    let z : code c - 48 ≡ 0 * 10 + (code c - 48) = omega arith in
    let r : scan_digits (0 * 10 + (code c - 48)) false s ≡ some n = rw k at q in
    (c, s, e, v, k, ks, ap (λ m. scan_digits m false s) z ∙ r)

pub not_space : (c : Char) → IsDigit c → is_space c ≡ false
unfolding is_space
not_space c h = ground arith

-- A text without spaces is not stripped.
rstrip-digits : (s : String) → AllChars IsDigit s → rstrip s ≡ s
unfolding rstrip keep_unless_last
rstrip-digits String.[] h = refl
rstrip-digits (String.◌∷◌ c s) h = kept s (rstrip s) (rstrip-digits s h.1)
  where
    kept : (t r : String) → r ≡ t → keep_unless_last c r ≡ String.◌∷◌ c t
    kept String.[] r e = rw e (rw (not_space c h.0) refl)
    kept (String.◌∷◌ d t) r e = rw e refl

pub strip-digits :
    (c : Char) (s : String)
    → IsDigit c
    → AllChars IsDigit s
    → strip (String.◌∷◌ c s) ≡ String.◌∷◌ c s
unfolding strip
strip-digits c s h k = rw (not_space c h) (rstrip-digits (String.◌∷◌ c s) (h, k))

signed-digits :
    (c : Char) (s : String)
    → IsDigit c
    → signed (String.◌∷◌ c s) ≡ positive (scan_digits 0 true (String.◌∷◌ c s))
unfolding signed
signed-digits c s h = ground arith

-- `int(str(n)) == n`
pub int_of-decimal : (n : ℕ) → int_of (decimal n) ≡ some (pos n)
unfolding int_of decimal scan_digits positive
int_of-decimal n =
    let (c, s, e, h, k) = decimal-IsDigit n in
    let p : scan_digits 0 true (decimal n) ≡ some n =
      ap (scan_digits 0 true) (sym (append-nil (decimal n)))
      ∙ scan_digits-decimal (suc n) n "" (omega arith) in
    let q : scan_digits 0 true (String.◌∷◌ c s) ≡ some n = rw e at p in
    ap (λ t. signed (strip t)) e
    ∙ ap signed (strip-digits c s h k)
    ∙ signed-digits c s h
    ∙ ap positive q
