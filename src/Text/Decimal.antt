-- ===== src/Text/Decimal.antt =====
-- strconv.FormatInt and ParseInt to base 10 and 64 bits. An int64 is its word of 64 bits, so that -1 is
-- 2 ^ 64 - 1. 19 digits are enough for a magnitude of 2 ^ 63.
use Prim.Native.Nat.{◌/◌, ◌%◌}
use webhook_broker.Base.{
  ℕ, zero, suc, ◌+◌, ◌-◌, ◌*◌, ◌<◌, ◌≤◌, Bool, true, false, ◌&&◌, ◌==◌, ltb, leb, if◌then◌else◌,
  Option, none, some, [], ◌∷◌, ◌++◌, All, All-append, ◌≡◌, refl, ap, ◌∙◌, arith, Bool-cases, inl,
  inr, length, length-append,
}
use webhook_broker.Text.Strings.{Bytes, is_space, ClearText}

abbrev pub word_mod : ℕ
word_mod = 18_446_744_073_709_551_616

abbrev pub sign_bit : ℕ
sign_bit = 9_223_372_036_854_775_808

unfoldable pub decimal : ℕ → ℕ → Bytes
decimal zero n = []
decimal (suc fuel) n =
    let rest = decimal fuel (n / 10) in
    if ltb n 10 then (b'0' + n) ∷ [] else rest ++ (b'0' + n % 10) ∷ []

unfoldable pub format_int : ℕ → Bytes
format_int w = if ltb w sign_bit then decimal 19 w else b'-' ∷ decimal 19 (word_mod - w)

unfoldable pub is_digit : ℕ → Bool
is_digit c = leb b'0' c && leb c b'9'

unfoldable pub read_digits : ℕ → Bytes → Option ℕ
unfolding is_digit
read_digits acc [] = some acc
read_digits acc (c ∷ cs) =
    let rest = read_digits (acc * 10 + (c - b'0')) cs in if is_digit c then rest else none

unfoldable pub parse_uint : Bytes → Option ℕ
unfolding read_digits
parse_uint [] = none
parse_uint (c ∷ cs) = read_digits 0 (c ∷ cs)

abbrev pub within_int : Option ℕ → Option ℕ
within_int none = none
within_int (some n) = if ltb n sign_bit then some n else none

abbrev pub negated : Option ℕ → Option ℕ
negated none = none
negated (some n) = if leb n sign_bit then some ((word_mod - n) % word_mod) else none

unfoldable pub parse_int : Bytes → Option ℕ
unfolding parse_uint
parse_int [] = none
parse_int (c ∷ cs) =
    if c == b'-'
    then negated (parse_uint cs)
    else if c == b'+'
    then within_int (parse_uint cs)
    else within_int (parse_uint (c ∷ cs))

-- Digits that were read, and one more.
read_digits-append :
    (cs : Bytes) (acc n d : ℕ)
    → read_digits acc cs ≡ some n
    → d < 10
    → read_digits acc (cs ++ (b'0' + d) ∷ []) ≡ some (n * 10 + d)
unfolding read_digits
read_digits-append [] acc n d h lt = ground arith
read_digits-append (c ∷ cs) acc n d h lt =
    ground (arith, read_digits-append cs (acc * 10 + (c - b'0')) n d)

abbrev Digit : ℕ → Type 0
Digit c = (b'0' ≤ c) × (c ≤ b'9')

abbrev pow10 : ℕ → ℕ
pow10 zero = 1
pow10 (suc k) = 10 * pow10 k

read_digits-decimal :
    (fuel n : ℕ) → n < pow10 (suc fuel) → read_digits 0 (decimal (suc fuel) n) ≡ some n
unfolding decimal
read_digits-decimal zero n lt =
    let small : ltb n 10 ≡ true = ground arith in
    rw small (unfold read_digits is_digit in ground arith)
read_digits-decimal (suc fuel) n lt = elim (Bool-cases (ltb n 10)) [
  | inl small ↦ rw small (unfold read_digits is_digit in ground arith)
  | inr big ↦ rw big (
      read_digits-append (decimal (suc fuel) (n / 10)) 0 (n / 10) (n % 10)
        (read_digits-decimal fuel (n / 10) (omega arith)) (omega arith)
      ∙ ap some (omega arith))
]

decimal-Digits : (fuel n : ℕ) → All Digit (decimal fuel n)
unfolding decimal
decimal-Digits zero n = tt
decimal-Digits (suc fuel) n = elim (Bool-cases (ltb n 10)) [
  | inl small ↦ rw small (ground arith, tt)
  | inr big ↦ rw big (
      All-append Digit (decimal fuel (n / 10)) ((b'0' + n % 10) ∷ []) (decimal-Digits fuel (n / 10))
        (omega arith, tt))
]

decimal-nonempty : (fuel n : ℕ) → 0 < length (decimal (suc fuel) n)
unfolding decimal
decimal-nonempty fuel n = elim (Bool-cases (ltb n 10)) [
  | inl small ↦ rw small (omega arith)
  | inr big ↦ rw big (omega (arith, length-append (decimal fuel (n / 10)) ((b'0' + n % 10) ∷ [])))
]

module _ (s : Bytes) (n : ℕ) (some_digit : 0 < length s) (read : read_digits 0 s ≡ some n) where
  parse_uint_digits : parse_uint s ≡ some n
  unfolding parse_uint
  parse_uint_digits = go s some_digit read
    where
      go : (s' : Bytes) → 0 < length s' → read_digits 0 s' ≡ some n → parse_uint s' ≡ some n
      go [] h e = absurd (omega arith)
      go (c ∷ cs) h e = e

  parse_int_digits : All Digit s → n < sign_bit → parse_int s ≡ some n
  unfolding parse_int
  parse_int_digits digits lt = go s some_digit digits parse_uint_digits
    where
      go :
          (s' : Bytes)
          → 0 < length s'
          → All Digit s'
          → parse_uint s' ≡ some n
          → parse_int s' ≡ some n
      go [] h ds e = absurd (omega arith)
      go (c ∷ cs) h ds e =
          let not_minus : (c == b'-') ≡ false = ground arith in
          let not_plus : (c == b'+') ≡ false = ground arith in
          let small : ltb n sign_bit ≡ true = ground arith in
          rw (not_minus, not_plus, e, small) refl

parse_int_minus :
    (s : Bytes) (n : ℕ)
    → parse_uint s ≡ some n
    → n ≤ sign_bit
    → 0 < n
    → parse_int (b'-' ∷ s) ≡ some (word_mod - n)
unfolding parse_int
parse_int_minus s n e le pos =
    let small : leb n sign_bit ≡ true = ground arith in rw (e, small) (ap some (omega arith))

-- An int64 that is written is read again, whichever its sign.
pub parse_int-format_int : (w : ℕ) → w < word_mod → parse_int (format_int w) ≡ some w
unfolding format_int
parse_int-format_int w lt = elim (Bool-cases (ltb w sign_bit)) [
  | inl positive ↦ rw positive (
      parse_int_digits (decimal 19 w) w (decimal-nonempty 18 w)
        (read_digits-decimal 18 w (ground arith)) (decimal-Digits 19 w) (ground arith))
  | inr negative ↦
      let n = word_mod - w in
      let le : n ≤ sign_bit = ground arith in
      rw negative (
        parse_int_minus (decimal 19 n) n
          (parse_uint_digits (decimal 19 n) n (decimal-nonempty 18 n)
            (read_digits-decimal 18 n (omega arith)))
          le (omega arith)
        ∙ ap some (omega arith))
]

Digits-ClearText : (s : Bytes) → All Digit s → ClearText s
unfolding is_space
Digits-ClearText [] h = tt
Digits-ClearText (c ∷ cs) h = ((ground arith, ground arith), Digits-ClearText cs h.1)

pub format_int-ClearText : (w : ℕ) → ClearText (format_int w)
unfolding format_int is_space
format_int-ClearText w = elim (Bool-cases (ltb w sign_bit)) [
  | inl positive ↦ rw positive (Digits-ClearText (decimal 19 w) (decimal-Digits 19 w))
  | inr negative ↦
      let n = word_mod - w in
      rw negative ((refl, refl), Digits-ClearText (decimal 19 n) (decimal-Digits 19 n))
]
