-- ===== src/Controllers/Gateway.antt =====
-- controllers/hmac_middleware.go: which requests reach the router. `mac` is crypto/hmac with SHA-256; a
-- time is an int64 as its word, in seconds. A missing header is the empty text. Differences of times are
-- exact, as those below 2 ^ 53 are in a float64.
use Prim.Native.Nat.{◌%◌}
use webhook_broker.Base.{
  ℕ, ◌+◌, ◌-◌, ◌*◌, Bool, true, false, ◌||◌, not, ltb, leb, if◌then◌else◌, Option, none, some, List,
  [], ◌∷◌,
}
use webhook_broker.Text.Strings.{Bytes, comma, bytes_eq, has_prefix, trim_prefix, trim_space, split}
use webhook_broker.Text.Decimal.{word_mod, sign_bit, parse_int}
use webhook_broker.Config.DispatchPause.{second}
use webhook_broker.Config.GatewayAuth.{
  GatewayAuth, is_nil, get_hmac_shared_secret, get_hmac_timestamp_tolerance, get_auth_exempt_paths,
  is_gateway_auth_enabled,
}
use webhook_broker.Parking.Signing.{timestamp_prefix, signature_prefix, signature_of}

pub record HttpRequest : Type 0 where
  pub path : Bytes
  pub signature : Bytes
  pub body : Option Bytes

-- The request goes on to the router, or the status that was written.
pub data Verdict : Type 0 where
  serve : Verdict
  deny : ℕ → Verdict

-- The loop over the parts: what was found last, or an error.
pub record Found : Type 0 where
  pub timestamp : Option ℕ
  pub signature : Option Bytes

unfoldable pub read_parts : List Bytes → Found → Option Found
unfolding has_prefix
read_parts [] f = some f
read_parts (part ∷ parts) f =
    let p = trim_space part in
    let with_signature =
      read_parts parts (record f { signature = some (trim_prefix p signature_prefix) }) in
    let unread = read_parts parts f in
    let with_timestamp = elim (parse_int (trim_prefix p timestamp_prefix)) as (λ t. Option Found) [
      | none ↦ none
      | some t ↦ read_parts parts (record f { timestamp = some t })
    ] in
    if has_prefix p timestamp_prefix
    then with_timestamp
    else if has_prefix p signature_prefix
    then with_signature
    else unread

abbrev pub both_found : Option Found → Option (ℕ × Bytes)
both_found none = none
both_found (some f) = elim f.timestamp [
  | none ↦ none
  | some t ↦ elim f.signature [ none ↦ none | some s ↦ some (t, s) ]
]

abbrev pub two_parts : List Bytes → Option (ℕ × Bytes)
two_parts [] = none
two_parts (a ∷ []) = none
two_parts (a ∷ b ∷ []) =
    both_found (read_parts (a ∷ b ∷ []) (record { timestamp = none; signature = none }))
two_parts (a ∷ b ∷ c ∷ rest) = none

-- parseSignatureHeader
unfoldable pub parse_signature_header : Bytes → Option (ℕ × Bytes)
unfolding read_parts
parse_signature_header header = two_parts (split comma header)

-- math.Abs(now - timestamp) of int64s.
unfoldable pub distance : ℕ → ℕ → ℕ
distance now timestamp =
    let d = (now + word_mod - timestamp) % word_mod in if ltb d sign_bit then d else word_mod - d

-- Whether so many seconds are more than a duration, which is negative from the sign bit on.
abbrev pub exceeds : ℕ → ℕ → Bool
exceeds tolerance seconds = leb sign_bit tolerance || ltb tolerance (seconds * second)

abbrev pub any_prefix : Bytes → List Bytes → Bool
any_prefix path [] = false
any_prefix path (p ∷ ps) = let rest = any_prefix path ps in if has_prefix path p then true else rest

module _ (mac : Bytes → Bytes → Bytes) (default_exempt_paths : Bytes) where
  -- From the body on, with the header's timestamp and signature.
  unfoldable pub check_signature : GatewayAuth → ℕ → ℕ → Bytes → Option Bytes → Verdict
  check_signature c now timestamp signature body =
      if exceeds (get_hmac_timestamp_tolerance c) (distance now timestamp)
      then deny 403
      else elim body [
        | none ↦ deny 500
        | some text ↦
            if not (bytes_eq (signature_of mac (get_hmac_shared_secret c) timestamp text) signature)
            then deny 403
            else serve
      ]

  -- The handler of NewHMACMiddleware.
  unfoldable pub authenticate : GatewayAuth → ℕ → HttpRequest → Verdict
  unfolding check_signature
  authenticate c now r =
      if not (is_gateway_auth_enabled c)
      then serve
      else if any_prefix r.path (get_auth_exempt_paths default_exempt_paths c)
      then serve
      else if is_nil r.signature
      then deny 401
      else elim (parse_signature_header r.signature) [
        | none ↦ deny 401
        | some (timestamp, signature) ↦ check_signature c now timestamp signature r.body
      ]
