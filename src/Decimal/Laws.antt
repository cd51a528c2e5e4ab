-- ===== src/Decimal/Laws.antt =====
-- A numeral of a `u32` is read back.
use alice_text.Prelude.{
  ℕ, zero, suc, ◌+◌, ◌-◌, ◌*◌, ◌/◌, ◌%◌, ◌^◌, ◌<◌, List, [], ◌∷◌, ◌++◌, some, ltb, true, ◌≡◌, refl,
  arith, Bool-cases, inl, ◌≢◌, ◌∙◌, inr, ap,
}
use alice_text.Decimal.{is_ascii_digit, digits, to_decimal, read_digits, parse_u32}

abbrev pub AreDigits : List ℕ → Type 0
AreDigits [] = Unit
AreDigits (c ∷ cs) = (is_ascii_digit c ≡ true) × AreDigits cs

AreDigits-append : (s t : List ℕ) → AreDigits s → AreDigits t → AreDigits (s ++ t)
AreDigits-append [] t hs ht = ht
AreDigits-append (c ∷ s) t hs ht = (hs.0, AreDigits-append s t hs.1 ht)

digit-of : (n : ℕ) → n < 10 → is_ascii_digit (b'0' + n) ≡ true
digit-of n h = ground arith

digits-AreDigits : (fuel n : ℕ) → AreDigits (digits fuel n)
unfolding digits
digits-AreDigits zero n = tt
digits-AreDigits (suc fuel) n = elim (Bool-cases (ltb n 10)) [
  | inl one ↦ rw one (digit-of n (ground arith), tt)
  | inr more ↦ rw more (
      AreDigits-append (digits fuel (n / 10)) _ (digits-AreDigits fuel (n / 10))
        (digit-of (n % 10) (omega arith), tt))
]

pub to_decimal-AreDigits : (n : ℕ) → AreDigits (to_decimal n)
unfolding to_decimal
to_decimal-AreDigits n = digits-AreDigits (suc n) n

-- A digit behind what was read.
read_digits-append :
    (acc n d : ℕ) (s : List ℕ)
    → d < 10
    → n * 10 + d < 2 ^ 32
    → read_digits acc s ≡ some n
    → read_digits acc (s ++ (b'0' + d) ∷ []) ≡ some (n * 10 + d)
unfolding read_digits
read_digits-append acc n d [] hd fits e = ground arith
read_digits-append acc n d (c ∷ s) hd fits e =
    ground (arith, read_digits-append (acc * 10 + (c - b'0')) n d s)

read_digits-digits : (fuel n : ℕ) → n < fuel → n < 2 ^ 32 → read_digits 0 (digits fuel n) ≡ some n
unfolding digits
read_digits-digits zero n h fits = absurd (omega arith)
read_digits-digits (suc fuel) n h fits = elim (Bool-cases (ltb n 10)) [
  | inl one ↦ rw one (unfold read_digits in ground arith)
  | inr more ↦ rw more (
      read_digits-append 0 (n / 10) (n % 10) (digits fuel (n / 10)) (omega arith) (omega arith)
        (read_digits-digits fuel (n / 10) (ground arith) (omega arith))
      ∙ ap some (omega arith))
]

parse_u32-read_digits : (s : List ℕ) → s ≢ [] → parse_u32 s ≡ read_digits 0 s
unfolding parse_u32
parse_u32-read_digits [] h = absurd (h refl)
parse_u32-read_digits (c ∷ s) h = refl

snoc-ne-nil : (s : List ℕ) (c : ℕ) → s ++ c ∷ [] ≢ []
snoc-ne-nil [] c e = cc
snoc-ne-nil (a ∷ s) c e = cc

digits-ne-nil : (fuel n : ℕ) → digits (suc fuel) n ≢ []
unfolding digits
digits-ne-nil fuel n = elim (Bool-cases (ltb n 10)) [
  | inl one ↦ rw one (λ e. cc)
  | inr more ↦ rw more (snoc-ne-nil (digits fuel (n / 10)) (b'0' + n % 10))
]

-- `parse::<u32>` reads back what `to_string` wrote.
pub parse_u32-to_decimal : (n : ℕ) → n < 2 ^ 32 → parse_u32 (to_decimal n) ≡ some n
unfolding to_decimal
parse_u32-to_decimal n h =
    parse_u32-read_digits (digits (suc n) n) (digits-ne-nil n n)
    ∙ read_digits-digits (suc n) n (omega arith) h
