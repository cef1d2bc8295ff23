-- ===== src/Versions/Printed.antt =====
-- A printed number is read back as itself (fmt.Sprintf's %d and strconv.ParseUint of 64 bits).
use passfs.Prelude.{
  ℕ, zero, suc, ◌+◌, ◌-◌, ◌*◌, ◌/◌, ◌%◌, ◌^◌, ◌<◌, ◌≡◌, ◌≢◌, refl, sym, ap, ◌∙◌, subst, Bool, true,
  false, not, ◌&&◌, ◌||◌, Option, some, none, [], ◌∷◌, ◌++◌, Bytes, ◌==◌, nat_equality,
  if◌then◌else◌, is_empty, all, ltb, arith, ==→eq, ==→ne, ne→==,
}
use mathlib.Core.List.{reverse, reverse-reverse, reverse-append}
use passfs.Result.{ok}
use passfs.Versions.{parse_number}
use passfs.Versions.Numbers.{
  is_digit, value_of, parse_uint, has_leading_zero, IsTopped, all-reverse,
}
use passfs.Versions.Newer.{digits_of, print_uint}

power : ℕ → ℕ
power zero = 1
power (suc f) = 10 * power f

value_of-digits_of : (f n : ℕ) → n < power f → value_of (digits_of f n) ≡ n
unfolding value_of digits_of power
value_of-digits_of zero n h = omega arith
value_of-digits_of (suc f) n h =
    known (n / 10 == 0) refl (value_of-digits_of f (n / 10) (omega arith))
  where
    known :
        (b : Bool)
        → (n / 10 == 0) ≡ b
        → value_of (digits_of f (n / 10)) ≡ n / 10
        → (48 + n % 10 - 48) + 10 * value_of (if b then [] else digits_of f (n / 10)) ≡ n
    known true e ih = let small : n / 10 ≡ 0 = ==→eq (n / 10) 0 e in omega arith
    known false e ih = omega arith

all-digits_of : (f n : ℕ) → all is_digit (digits_of f n) ≡ true
unfolding digits_of
all-digits_of zero n = refl
all-digits_of (suc f) n = known (n / 10 == 0) (all-digits_of f (n / 10))
  where
    known :
        (b : Bool)
        → all is_digit (digits_of f (n / 10)) ≡ true
        → (is_digit (48 + n % 10) && all is_digit (if b then [] else digits_of f (n / 10))) ≡ true
    known true ih = ground arith
    known false ih = ground (arith, ih)

no_digits : (f m : ℕ) → m < power f → [] ≡ digits_of f m → m ≡ 0
unfolding digits_of power
no_digits zero m h e = omega arith
no_digits (suc f) m h e = absurd (cc e)

digits_of-IsTopped : (f n : ℕ) → n ≢ 0 → n < power f → IsTopped (digits_of f n)
unfolding digits_of power
digits_of-IsTopped zero n z h = tt
digits_of-IsTopped (suc f) n z h =
    known (n / 10 == 0) refl (digits_of f (n / 10)) refl
      (λ m. digits_of-IsTopped f (n / 10) m (omega arith))
  where
    known :
        (b : Bool)
        → (n / 10 == 0) ≡ b
        → (ds : Bytes) → ds ≡ digits_of f (n / 10)
        → (n / 10 ≢ 0 → IsTopped ds)
        → IsTopped ((48 + n % 10) ∷ (if b then [] else ds))
    known true e ds q ih = λ p. z (let small : n / 10 ≡ 0 = ==→eq (n / 10) 0 e in omega arith)
    known false e [] q ih = absurd (==→ne (n / 10) 0 e (no_digits f (n / 10) (omega arith) q))
    known false e (d ∷ ds) q ih = ih (==→ne (n / 10) 0 e)

fits : (n : ℕ) → n < 2 ^ 64 → n < power 20
unfolding power
fits n h = omega arith

pub print_digits : (n : ℕ) → all is_digit (print_uint n) ≡ true
unfolding print_uint
print_digits n = all-reverse (digits_of 20 n) (all-digits_of 20 n)

print_filled : (n : ℕ) → is_empty (print_uint n) ≡ false
unfolding print_uint
print_filled n = known (reverse (digits_of 20 n)) refl
  where
    known : (s : Bytes) → reverse (digits_of 20 n) ≡ s → is_empty s ≡ false
    known [] e = absurd (some_digit (sym (reverse-reverse (digits_of 20 n)) ∙ ap reverse e))
      where
        some_digit : digits_of 20 n ≢ []
        some_digit = unfold digits_of in λ p. cc p
    known (c ∷ s) e = refl

pub parse_uint-print_uint : (n : ℕ) → n < 2 ^ 64 → parse_uint (print_uint n) ≡ some n
unfolding parse_uint
parse_uint-print_uint n h =
    ap
      (λ b.
        if◌then◌else◌ {A = Option ℕ} (b || not (all is_digit (print_uint n))) none
          (tested (value_of (reverse (print_uint n)))))
      (print_filled n)
    ∙ ap
        (λ b.
          if◌then◌else◌ {A = Option ℕ} (not b) none (tested (value_of (reverse (print_uint n)))))
        (print_digits n)
    ∙ ap tested (ap value_of back ∙ value_of-digits_of 20 n (fits n h))
    ∙ ap (λ b. if◌then◌else◌ {A = Option ℕ} b (some n) none) small
  where
    tested : ℕ → Option ℕ
    tested m = if ltb m (2 ^ 64) then some m else none

    back : reverse (print_uint n) ≡ digits_of 20 n
    back = unfold print_uint in reverse-reverse (digits_of 20 n)

    small : ltb n (2 ^ 64) ≡ true
    small = ground (arith, h)

IsTopped-end : (s : Bytes) (c : ℕ) → IsTopped (s ++ (c ∷ [])) → c ≢ 48
IsTopped-end [] c h = h
IsTopped-end (d ∷ []) c h = h
IsTopped-end (d ∷ e ∷ s) c h = IsTopped-end (e ∷ s) c h

topped_no_leading_zero : (s : Bytes) → IsTopped (reverse s) → has_leading_zero s ≡ false
topped_no_leading_zero [] h = refl
topped_no_leading_zero (c ∷ []) h = refl
topped_no_leading_zero (c ∷ d ∷ s) h =
    ne→== c 48
      (IsTopped-end (reverse (d ∷ s)) c (subst IsTopped (reverse-append (c ∷ []) (d ∷ s)) h))

print_no_leading_zero : (n : ℕ) → n < 2 ^ 64 → has_leading_zero (print_uint n) ≡ false
unfolding print_uint digits_of
print_no_leading_zero zero h = refl
print_no_leading_zero (suc n) h = topped_no_leading_zero (reverse (digits_of 20 (suc n))) (
    subst IsTopped (sym (reverse-reverse (digits_of 20 (suc n))))
      (digits_of-IsTopped 20 (suc n) (λ e. absurd (omega (arith, e))) (fits (suc n) h)))

pub parse_number-print_uint : (n : ℕ) → n < 2 ^ 64 → parse_number (print_uint n) ≡ ok n
parse_number-print_uint n h =
    cc (print_filled n, print_no_leading_zero n h, parse_uint-print_uint n h)
