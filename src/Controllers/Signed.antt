-- ===== src/Controllers/Signed.antt =====
-- The gateway, and the hand-off's requests to it: hmac_middleware.go with SignPayload of handoff.go.
use Prim.Native.Nat.{◌/◌, ◌%◌}
use webhook_broker.Base.{
  ℕ, ◌<◌, true, false, Option, none, some, [], ◌∷◌, ◌++◌, ◌≡◌, refl, ◌∙◌, arith, ◌==◌, ◌⊎◌, inl,
  inr, Bool-cases,
}
use webhook_broker.Text.Strings.{
  Bytes, comma, bytes_eq_refl, eq_of_bytes_eq, has_prefix, trim_prefix, is_space, ClearText,
  ClearText-Without, split-Without, split-append, trim_space_clear,
}
use webhook_broker.Text.Decimal.{word_mod, format_int, parse_int-format_int, format_int-ClearText}
use webhook_broker.Config.GatewayAuth.{
  GatewayAuth, is_nil, get_hmac_shared_secret, get_hmac_timestamp_tolerance, get_auth_exempt_paths,
  is_gateway_auth_enabled,
}
use webhook_broker.Parking.Signing.{
  hex_digit, hex, timestamp_prefix, signature_prefix, signature_of, sign_payload, signature_header,
  sender_secret,
}
use webhook_broker.Controllers.Gateway.{
  HttpRequest, serve, read_parts, parse_signature_header, distance, exceeds, any_prefix,
  check_signature, authenticate,
}

hex_digit_clear : (n : ℕ) → ((hex_digit n == comma) ≡ false) × (is_space (hex_digit n) ≡ false)
unfolding is_space
hex_digit_clear n = ground arith

hex-ClearText : (s : Bytes) → ClearText (hex s)
unfolding hex
hex-ClearText [] = tt
hex-ClearText (c ∷ cs) = (hex_digit_clear (c / 16), (hex_digit_clear (c % 16), hex-ClearText cs))

module _ (sent : ℕ) (signature : Bytes) (in_range : sent < word_mod)
    (clear : ClearText signature) where
  abbrev stamp : Bytes
  stamp = timestamp_prefix ++ format_int sent

  abbrev signed : Bytes
  signed = signature_prefix ++ signature

  stamp-ClearText : ClearText stamp
  unfolding is_space
  stamp-ClearText = ((refl, refl), ((refl, refl), format_int-ClearText sent))

  signed-ClearText : ClearText signed
  unfolding is_space
  signed-ClearText = ((refl, refl), ((refl, refl), ((refl, refl), clear)))

  -- The header that the sender writes is read as it was written.
  parse_signature_header-signed :
      parse_signature_header (stamp ++ comma ∷ signed) ≡ some (sent, signature)
  unfolding parse_signature_header read_parts has_prefix trim_prefix
  parse_signature_header-signed =
      rw
        (
          split-append comma stamp signed (ClearText-Without stamp stamp-ClearText),
          split-Without comma signed (ClearText-Without signed signed-ClearText),
          trim_space_clear stamp stamp-ClearText,
        )
        (rw (parse_int-format_int sent in_range, trim_space_clear signed signed-ClearText) refl)

module _ (mac : Bytes → Bytes → Bytes) (default_exempt_paths : Bytes) (c : GatewayAuth)
    (now : ℕ) where
  -- The broker that a hand-off reaches lets its request through, if it has the sender's gateway
  -- settings, the secret is not empty where the gateway is on, and the request is not older or
  -- newer than the tolerance.
  pub authenticate-signature_header :
      (sent : ℕ) (path text : Bytes)
      → sent < word_mod
      → (is_gateway_auth_enabled c ≡ true → is_nil (get_hmac_shared_secret c) ≡ false)
      → exceeds (get_hmac_timestamp_tolerance c) (distance now sent) ≡ false
      → authenticate mac default_exempt_paths c now (record {
        path = path;
        signature = signature_header mac (sender_secret c) sent text;
        body = some text;
      })
        ≡ serve
  unfolding authenticate check_signature signature_header sign_payload sender_secret
  authenticate-signature_header sent path text in_range keyed recent =
      elim (Bool-cases (is_gateway_auth_enabled c)) [
        | inr off ↦ rw off refl
        | inl on ↦
            let secret = get_hmac_shared_secret c in
            let signature = signature_of mac secret sent text in
            let read =
              parse_signature_header-signed sent signature in_range
                (hex-ClearText (mac secret (format_int sent ++ b'.' ∷ text))) in
            elim (Bool-cases (any_prefix path (get_auth_exempt_paths default_exempt_paths c))) [
              | inl exempt ↦ rw (on, exempt) refl
              | inr checked ↦ rw (on, checked, keyed on, read, recent, bytes_eq_refl signature) refl
            ]
      ]

  -- The request carries a signature of its body by the secret, made at a time within the tolerance.
  abbrev pub Signed : HttpRequest → Type 0
  Signed r =
      (timestamp : ℕ) × (text : Bytes) × (r.body ≡ some text)
      × (parse_signature_header r.signature
          ≡ some (timestamp, signature_of mac (get_hmac_shared_secret c) timestamp text))
      × (exceeds (get_hmac_timestamp_tolerance c) (distance now timestamp) ≡ false)

  check_signature-Signed :
      (timestamp : ℕ) (signature : Bytes) (body : Option Bytes)
      → check_signature mac default_exempt_paths c now timestamp signature body ≡ serve
      → (text : Bytes) × (body ≡ some text)
        × (signature_of mac (get_hmac_shared_secret c) timestamp text ≡ signature)
        × (exceeds (get_hmac_timestamp_tolerance c) (distance now timestamp) ≡ false)
  unfolding check_signature
  check_signature-Signed timestamp signature none h = absurd (ground arith)
  check_signature-Signed timestamp signature (some text) h =
      (text, refl, eq_of_bytes_eq _ _ (ground arith), ground arith)

  -- A request reaches the router only if the gateway is off, its path is exempt, or it carries a signature
  -- by the secret of its body and of a time within the tolerance.
  pub authenticate-Signed :
      (r : HttpRequest)
      → authenticate mac default_exempt_paths c now r ≡ serve
      → (is_gateway_auth_enabled c ≡ false)
        ⊎ ((any_prefix r.path (get_auth_exempt_paths default_exempt_paths c) ≡ true) ⊎ Signed r)
  unfolding authenticate
  authenticate-Signed r h = elim (Bool-cases (is_gateway_auth_enabled c)) [
    | inr off ↦ inl off
    | inl on ↦
        elim (Bool-cases (any_prefix r.path (get_auth_exempt_paths default_exempt_paths c))) [
          | inl exempt ↦ inr (inl exempt)
          | inr checked ↦ inr (inr (go on checked (parse_signature_header r.signature) refl))
        ]
  ]
    where
      go :
          is_gateway_auth_enabled c ≡ true
          → any_prefix r.path (get_auth_exempt_paths default_exempt_paths c) ≡ false
          → (read : Option (ℕ × Bytes)) → parse_signature_header r.signature ≡ read
          → Signed r
      go on checked none e = absurd (ground arith)
      go on checked (some (timestamp, signature)) e =
          let passed : check_signature mac default_exempt_paths c now timestamp signature r.body
              ≡ serve =
            ground arith in
          let (text, has_body, same, recent) =
            check_signature-Signed timestamp signature r.body passed in
          (timestamp, text, has_body, e ∙ rw same refl, recent)
