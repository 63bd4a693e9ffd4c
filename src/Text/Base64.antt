-- ===== src/Text/Base64.antt =====
-- encoding/base64 with the standard alphabet and padding.
use Prim.Native.Nat.{◌/◌, ◌%◌}
use webhook_broker.Base.{
  ℕ, ◌+◌, ◌-◌, ◌*◌, ◌<◌, Bool, true, false, ◌&&◌, ◌||◌, ◌==◌, ltb, leb, if◌then◌else◌, Option, none,
  some, [], ◌∷◌, All, ◌≡◌, refl, ap, arith, keep_if, not,
}
use webhook_broker.Text.Strings.{Bytes}

abbrev pub pad : ℕ
pad = b'='

unfoldable pub symbol : ℕ → ℕ
symbol n =
    if ltb n 26
    then b'A' + n
    else if ltb n 52
    then b'a' + (n - 26)
    else if ltb n 62
    then b'0' + (n - 52)
    else if n == 62
    then b'+'
    else b'/'

unfoldable pub sextet : ℕ → Option ℕ
sextet c =
    if leb b'A' c && leb c b'Z'
    then some (c - b'A')
    else if leb b'a' c && leb c b'z'
    then some (c - b'a' + 26)
    else if leb b'0' c && leb c b'9'
    then some (c - b'0' + 52)
    else if c == b'+'
    then some 62
    else if c == b'/'
    then some 63
    else none

-- EncodeToString
unfoldable pub encode : Bytes → Bytes
encode [] = []
encode (a ∷ []) = symbol (a / 4) ∷ symbol (a % 4 * 16) ∷ pad ∷ pad ∷ []
encode (a ∷ b ∷ []) = symbol (a / 4) ∷ symbol (a % 4 * 16 + b / 16) ∷ symbol (b % 16 * 4) ∷ pad ∷ []
encode (a ∷ b ∷ c ∷ rest) =
    symbol (a / 4)
    ∷ symbol (a % 4 * 16 + b / 16)
    ∷ symbol (b % 16 * 4 + c / 64)
    ∷ symbol (c % 64)
    ∷ encode rest

-- The bytes of two, three and four symbols, before those of the rest.
abbrev pub one_byte : Option ℕ → Option ℕ → Option Bytes
one_byte (some x) (some y) = some ((x * 4 + y / 16) ∷ [])
one_byte x y = none

abbrev pub two_bytes : Option ℕ → Option ℕ → Option ℕ → Option Bytes
two_bytes (some x) (some y) (some z) = some ((x * 4 + y / 16) ∷ (y % 16 * 16 + z / 4) ∷ [])
two_bytes x y z = none

abbrev pub three_bytes : Option ℕ → Option ℕ → Option ℕ → Option ℕ → Option Bytes → Option Bytes
three_bytes (some x) (some y) (some z) (some w) (some rest) =
    some ((x * 4 + y / 16) ∷ (y % 16 * 16 + z / 4) ∷ (z % 4 * 64 + w) ∷ rest)
three_bytes x y z w rest = none

abbrev pub is_nil : Bytes → Bool
is_nil [] = true
is_nil (c ∷ cs) = false

unfoldable pub decode_quads : Bytes → Option Bytes
decode_quads [] = some []
decode_quads (a ∷ []) = none
decode_quads (a ∷ b ∷ []) = none
decode_quads (a ∷ b ∷ c ∷ []) = none
decode_quads (a ∷ b ∷ c ∷ d ∷ rest) =
    let more = three_bytes (sextet a) (sextet b) (sextet c) (sextet d) (decode_quads rest) in
    if is_nil rest && (c == pad && d == pad)
    then one_byte (sextet a) (sextet b)
    else if is_nil rest && d == pad
    then two_bytes (sextet a) (sextet b) (sextet c)
    else more

-- DecodeString passes over line ends.
abbrev pub is_line_end : ℕ → Bool
is_line_end c = c == 10 || c == 13

unfoldable pub decode : Bytes → Option Bytes
unfolding decode_quads
decode s = decode_quads (keep_if (λ c. not (is_line_end c)) s)

sextet-symbol : (n : ℕ) → n < 64 → sextet (symbol n) ≡ some n
unfolding sextet symbol
sextet-symbol n lt = ground arith

-- A symbol is no padding and no line end.
symbol_plain : (n : ℕ) → n < 64 → ((symbol n == pad) ≡ false) × (is_line_end (symbol n) ≡ false)
unfolding symbol
symbol_plain n lt = ground arith

abbrev pub IsByte : ℕ → Type 0
IsByte c = c < 256

encode_stripped :
    (s : Bytes) → All IsByte s → keep_if (λ c. not (is_line_end c)) (encode s) ≡ encode s
unfolding encode
encode_stripped [] h = refl
encode_stripped (a ∷ []) h =
    rw ((symbol_plain (a / 4) (omega arith)).1, (symbol_plain (a % 4 * 16) (omega arith)).1) refl
encode_stripped (a ∷ b ∷ []) h =
    rw
      (
        (symbol_plain (a / 4) (omega arith)).1,
        (symbol_plain (a % 4 * 16 + b / 16) (omega arith)).1,
        (symbol_plain (b % 16 * 4) (omega arith)).1,
      )
      refl
encode_stripped (a ∷ b ∷ c ∷ rest) h =
    rw
      (
        (symbol_plain (a / 4) (omega arith)).1,
        (symbol_plain (a % 4 * 16 + b / 16) (omega arith)).1,
        (symbol_plain (b % 16 * 4 + c / 64) (omega arith)).1,
        (symbol_plain (c % 64) (omega arith)).1,
        encode_stripped rest h.1.1.1,
      )
      refl

and_false : (b : Bool) → (b && false) ≡ false
and_false true = refl
and_false false = refl

cons_eq : {a b : ℕ} {s t : Bytes} → a ≡ b → s ≡ t → a ∷ s ≡ b ∷ t
cons_eq p q = cc

decode_quads-encode : (s : Bytes) → All IsByte s → decode_quads (encode s) ≡ some s
unfolding encode decode_quads
decode_quads-encode [] h = refl
decode_quads-encode (a ∷ []) h =
    rw (sextet-symbol (a / 4) (omega arith), sextet-symbol (a % 4 * 16) (omega arith))
      (ap some (cons_eq (omega arith) refl))
decode_quads-encode (a ∷ b ∷ []) h =
    let y = a % 4 * 16 + b / 16 in
    let z = b % 16 * 4 in
    rw
      (
        (symbol_plain z (omega arith)).0,
        sextet-symbol (a / 4) (omega arith),
        sextet-symbol y (omega arith),
        sextet-symbol z (omega arith),
      )
      (ap some (cons_eq (omega arith) (cons_eq (omega arith) refl)))
decode_quads-encode (a ∷ b ∷ c ∷ rest) h =
    let y = a % 4 * 16 + b / 16 in
    let z = b % 16 * 4 + c / 64 in
    let w = c % 64 in
    rw
      (
        (symbol_plain w (omega arith)).0,
        and_false,
        and_false,
        sextet-symbol (a / 4) (omega arith),
        sextet-symbol y (omega arith),
        sextet-symbol z (omega arith),
        sextet-symbol w (omega arith),
        decode_quads-encode rest h.1.1.1,
      )
      (ap some (cons_eq (omega arith) (cons_eq (omega arith) (cons_eq (omega arith) refl))))

-- What was encoded is decoded again.
pub decode-encode : (s : Bytes) → All IsByte s → decode (encode s) ≡ some s
unfolding decode
decode-encode s h = rw (encode_stripped s h) (decode_quads-encode s h)
