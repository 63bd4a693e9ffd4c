-- ===== src/Config/GatewayAuth.antt =====
-- config/gateway_auth_config.go, the section that config/config.go reads for it, and the part of
-- validateConfigurationState that checks it.
use Prim.Native.Nat.{◌%◌}
use webhook_broker.Base.{
  ℕ, ◌*◌, Bool, true, false, ◌&&◌, not, ◌==◌, if◌then◌else◌, Option, none, some, List, [], ◌∷◌,
}
use webhook_broker.Text.Strings.{Bytes, bytes_eq, trim_space, split, comma}
use webhook_broker.Text.Decimal.{word_mod}
use webhook_broker.Text.Base64.{decode}
use webhook_broker.Config.DispatchPause.{second}

-- The settings of Config that are about the gateway.
pub record GatewayAuth : Type 0 where
  pub gateway_auth_mode : Bytes
  pub hmac_shared_secret : Bytes
  pub hmac_timestamp_tolerance_seconds : ℕ
  pub auth_exempt_paths : Bytes

abbrev pub mode_hmac : Bytes
mode_hmac = b'h' ∷ b'm' ∷ b'a' ∷ b'c' ∷ []

-- DefaultGatewayAuthMode, "none"
abbrev pub mode_none : Bytes
mode_none = b'n' ∷ b'o' ∷ b'n' ∷ b'e' ∷ []

abbrev pub is_nil : Bytes → Bool
is_nil [] = true
is_nil (c ∷ cs) = false

-- What the keys of the section hold, "" and `none` for those that are missing or cannot be read.
pub record AuthSection : Type 0 where
  pub mode : Bytes
  pub shared_secret : Bytes
  pub tolerance : Option ℕ
  pub exempt_paths : Bytes

abbrev pub must : Bytes → Bytes → Bytes
must value default_value = if is_nil value then default_value else value

module _ (default_exempt_paths : Bytes) where
  -- setupGatewayAuthConfiguration; without the section the configuration stays.
  unfoldable pub setup_gateway_auth_configuration : Option AuthSection → GatewayAuth → GatewayAuth
  setup_gateway_auth_configuration none c = c
  setup_gateway_auth_configuration (some s) c = record c {
    gateway_auth_mode = must s.mode mode_none;
    hmac_shared_secret = s.shared_secret;
    hmac_timestamp_tolerance_seconds = elim s.tolerance [ none ↦ 300 | some n ↦ n ];
    auth_exempt_paths = must s.exempt_paths default_exempt_paths;
  }

  abbrev pub trimmed_parts : List Bytes → List Bytes
  trimmed_parts [] = []
  trimmed_parts (p ∷ ps) =
      let rest = trimmed_parts ps in
      let trimmed = trim_space p in if is_nil trimmed then rest else trimmed ∷ rest

  unfoldable pub get_auth_exempt_paths : GatewayAuth → List Bytes
  get_auth_exempt_paths c =
      trimmed_parts (split comma (must c.auth_exempt_paths default_exempt_paths))

unfoldable pub get_gateway_auth_mode : GatewayAuth → Bytes
get_gateway_auth_mode c = must c.gateway_auth_mode mode_none

unfoldable pub get_hmac_shared_secret : GatewayAuth → Bytes
get_hmac_shared_secret c = elim (decode c.hmac_shared_secret) [ none ↦ [] | some secret ↦ secret ]

-- A time.Duration as its word of 64 bits: many seconds overflow.
unfoldable pub get_hmac_timestamp_tolerance : GatewayAuth → ℕ
get_hmac_timestamp_tolerance c =
    if c.hmac_timestamp_tolerance_seconds == 0
    then 300 * second
    else c.hmac_timestamp_tolerance_seconds * second % word_mod

unfoldable pub is_gateway_auth_enabled : GatewayAuth → Bool
unfolding get_gateway_auth_mode
is_gateway_auth_enabled c = bytes_eq (get_gateway_auth_mode c) mode_hmac

-- Whether validateConfigurationState accepts the mode and the secret.
unfoldable pub validate_gateway_auth : GatewayAuth → Bool
validate_gateway_auth c =
    if bytes_eq c.gateway_auth_mode mode_hmac
    then (if is_nil c.hmac_shared_secret
        then false
        else elim (decode c.hmac_shared_secret) [ none ↦ false | some secret ↦ true ])
    else if not (bytes_eq c.gateway_auth_mode mode_none) && not (is_nil c.gateway_auth_mode)
    then false
    else true
