-- ===== src/Parking/Signing.antt =====
-- The signature of a hand-off request, parking/handoff.go, with the secret that NewDrainer of
-- parking/drainer.go gives the sender. `mac` is crypto/hmac with SHA-256, and a time is an int64 as its
-- word, in seconds.
use Prim.Native.Nat.{◌/◌, ◌%◌}
use webhook_broker.Base.{ℕ, ◌+◌, ◌-◌, ltb, if◌then◌else◌, [], ◌∷◌, ◌++◌}
use webhook_broker.Text.Strings.{Bytes, comma}
use webhook_broker.Text.Decimal.{format_int}
use webhook_broker.Config.GatewayAuth.{
  GatewayAuth, is_nil, get_hmac_shared_secret, is_gateway_auth_enabled,
}

abbrev pub hex_digit : ℕ → ℕ
hex_digit n = if ltb n 10 then b'0' + n else b'a' + (n - 10)

-- encoding/hex
unfoldable pub hex : Bytes → Bytes
hex [] = []
hex (c ∷ cs) = hex_digit (c / 16) ∷ hex_digit (c % 16) ∷ hex cs

-- The prefixes of the header's parts.
abbrev pub timestamp_prefix : Bytes
timestamp_prefix = b't' ∷ b'=' ∷ []

abbrev pub signature_prefix : Bytes
signature_prefix = b'v' ∷ b'1' ∷ b'=' ∷ []

module _ (mac : Bytes → Bytes → Bytes) where
  -- What both sides sign.
  abbrev pub signature_of : Bytes → ℕ → Bytes → Bytes
  signature_of secret timestamp body = hex (mac secret (format_int timestamp ++ b'.' ∷ body))

  -- SignPayload
  unfoldable pub sign_payload : Bytes → ℕ → Bytes → Bytes
  sign_payload secret timestamp body =
      (timestamp_prefix ++ format_int timestamp)
      ++ comma ∷ (signature_prefix ++ signature_of secret timestamp body)

  -- The signature header that `post` sets, if any.
  unfoldable pub signature_header : Bytes → ℕ → Bytes → Bytes
  unfolding sign_payload
  signature_header secret now body = if is_nil secret then [] else sign_payload secret now body

-- The secret that NewDrainer configures the sender with.
unfoldable pub sender_secret : GatewayAuth → Bytes
unfolding is_gateway_auth_enabled get_hmac_shared_secret
sender_secret c = if is_gateway_auth_enabled c then get_hmac_shared_secret c else []
