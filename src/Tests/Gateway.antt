-- ===== src/Tests/Gateway.antt =====
-- A signed request at a gateway, and a list read by its links.
use webhook_broker.Base.{
  ℕ, zero, suc, true, false, none, some, [], ◌∷◌, ◌++◌, All, take, length, ◌⊎◌, ◌≡◌, refl, ap,
  arith,
}
use webhook_broker.Text.Strings.{Bytes, Without}
use webhook_broker.Text.Base64.{decode, sextet, IsByte}
use webhook_broker.Config.GatewayAuth.{
  GatewayAuth, mode_hmac, is_nil, get_hmac_shared_secret, get_hmac_timestamp_tolerance,
  get_auth_exempt_paths, is_gateway_auth_enabled,
}
use webhook_broker.Parking.Signing.{signature_header, sender_secret}
use webhook_broker.Controllers.Gateway.{
  HttpRequest, serve, distance, exceeds, any_prefix, authenticate,
}
use webhook_broker.Controllers.Signed.{Signed, authenticate-signature_header, authenticate-Signed}
use webhook_broker.Data.Cursors.{
  Cursor, Pagination, PageQuery, TimeText, get_pagination, get_pagination_links,
}
use webhook_broker.Data.Cursors.RoundTrip.{TimeLaws, get_pagination-get_pagination_links}

-- A stand-in for the keyed digest: some bytes of the key and the text.
abbrev digest : Bytes → Bytes → Bytes
digest key text = take 4 (key ++ text)

abbrev a_gateway : GatewayAuth
a_gateway = record {
  gateway_auth_mode = mode_hmac;
  hmac_shared_secret = b'a' ∷ b'2' ∷ b'V' ∷ b'5' ∷ [];
  hmac_timestamp_tolerance_seconds = 60;
  auth_exempt_paths = [];
}

abbrev exempt_paths : Bytes
exempt_paths = b'/' ∷ b'm' ∷ []

abbrev enqueue_path : Bytes
enqueue_path = b'/' ∷ b'i' ∷ []

abbrev a_body : Bytes
a_body = b'{' ∷ b'}' ∷ []

abbrev hand_off : HttpRequest
hand_off = record {
  path = enqueue_path;
  signature = signature_header digest (sender_secret a_gateway) 1000 a_body;
  body = some a_body;
}

has_secret : is_nil (get_hmac_shared_secret a_gateway) ≡ false
unfolding get_hmac_shared_secret decode sextet
has_secret = refl

is_recent : exceeds (get_hmac_timestamp_tolerance a_gateway) (distance 1030 1000) ≡ false
unfolding get_hmac_timestamp_tolerance distance
is_recent = refl

authenticate-signature_header_example :
    authenticate digest exempt_paths a_gateway 1030 hand_off ≡ serve
authenticate-signature_header_example =
    authenticate-signature_header digest exempt_paths a_gateway 1030 1000 enqueue_path a_body
      (omega arith) (λ on. has_secret) is_recent

authenticate-Signed_example :
    (is_gateway_auth_enabled a_gateway ≡ false)
    ⊎ ((any_prefix enqueue_path (get_auth_exempt_paths exempt_paths a_gateway) ≡ true)
        ⊎ Signed digest exempt_paths a_gateway 1030 hand_off)
authenticate-Signed_example = authenticate-Signed digest exempt_paths a_gateway 1030 hand_off (
    authenticate-signature_header digest exempt_paths a_gateway 1030 1000 enqueue_path a_body
      (omega arith) (λ on. has_secret) is_recent)

-- A time as so many bytes.
abbrev strokes : ℕ → Bytes
strokes zero = []
strokes (suc t) = b'x' ∷ strokes t

abbrev in_strokes : TimeText
in_strokes = record { format = strokes; parse = λ s. some (length s) }

length-strokes : (t : ℕ) → length (strokes t) ≡ t
length-strokes zero = refl
length-strokes (suc t) = ap suc (length-strokes t)

strokes-Without : (t : ℕ) → Without b'|' (strokes t)
strokes-Without zero = tt
strokes-Without (suc t) = (refl, strokes-Without t)

strokes-IsByte : (t : ℕ) → All IsByte (strokes t)
strokes-IsByte zero = tt
strokes-IsByte (suc t) = (omega arith, strokes-IsByte t)

in_strokes_laws : TimeLaws in_strokes
in_strokes_laws = record {
  reads = λ t h. ap some (length-strokes t);
  no_bar = strokes-Without;
  bytes = strokes-IsByte;
}

abbrev first_cursor : Cursor
first_cursor = record { id = b'a' ∷ []; timestamp = 3 }

abbrev last_cursor : Cursor
last_cursor = record { id = b'b' ∷ b'c' ∷ []; timestamp = 1 }

abbrev both_ways : Pagination
both_ways = record { next = some last_cursor; previous = some first_cursor }

get_pagination-get_pagination_links_example :
    (onward : PageQuery) × (back : PageQuery) × (get_pagination_links in_strokes both_ways
      ≡ (some onward, some back))
    × (get_pagination in_strokes onward ≡ record { next = some last_cursor; previous = none })
    × (get_pagination in_strokes back ≡ record { next = none; previous = some first_cursor })
get_pagination-get_pagination_links_example =
    get_pagination-get_pagination_links in_strokes in_strokes_laws both_ways last_cursor
      first_cursor refl refl ((refl, (refl, tt)), (omega arith, (omega arith, tt)), omega arith)
      ((refl, tt), (omega arith, tt), omega arith)
