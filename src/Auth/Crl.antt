-- ===== src/Auth/Crl.antt =====
-- The certificate revocation list: src/auth/crl.rs. Bytes and characters are numbers, a time is a
-- number of seconds. The X.509 and base64 libraries are a parameter.
use mathlib.Core.Option
use linux_patch_api.Prelude.{
  ℕ, ◌+◌, ◌-◌, ◌/◌, ◌%◌, Bool, false, not, ltb, leb, if◌then◌else◌, List, [], ◌∷◌, map, filter, any,
  take, drop, find, length, list_eq, Option, none, some,
}
use linux_patch_api.Prelude.Text.{codes, is_whitespace}

-- `CrlStatus`.
pub data CrlStatus : Type 0 where
  valid expired missing invalid degraded : CrlStatus

-- `CrlState`. The serials are texts of lowercase hexadecimal digits.
pub record CrlState : Type 0 where
  pub revoked_serials : List (List ℕ)
  pub status : CrlStatus
  pub crl_mtime : Option ℕ
  pub loaded_at : ℕ
  pub next_update : Option ℕ

-- What the agent uses of x509_parser and base64. A serial is its bytes, the highest first.
pub record X509 : Type 1 where
  pub Crl : Type 0
  pub Key : Type 0
  pub parse_crl : List ℕ → Option Crl
  pub cert_key : List ℕ → Option Key
  pub cert_serial : List ℕ → Option (List ℕ)
  pub verify_signature : Crl → Key → Bool
  pub revoked : Crl → List (List ℕ)
  pub crl_next_update : Crl → Option ℕ
  pub from_utf8_lossy : List ℕ → List ℕ
  pub decode64 : List ℕ → Option (List ℕ)

-- `CrlState::is_revoked`.
unfoldable pub is_revoked : List ℕ → CrlState → Bool
is_revoked serial s = any (list_eq serial) s.revoked_serials

-- `CrlState::crl_age_seconds`: none if the file's time lies in the future.
unfoldable pub crl_age_seconds : ℕ → CrlState → Option ℕ
crl_age_seconds now s = elim s.crl_mtime [
  | none ↦ none
  | some mtime ↦ if leb mtime now then some (now - mtime) else none
]

-- `next_update` has passed.
abbrev pub is_past : ℕ → Option ℕ → Bool
is_past now none = false
is_past now (some t) = ltb t now

-- `CrlState::reevaluate_expiry`.
unfoldable pub reevaluate_expiry : ℕ → CrlState → CrlStatus
reevaluate_expiry now s = elim s.status [
  | valid ↦ if is_past now s.next_update then expired else valid
  | other ↦ other
]

-- A digit of `{:02x}`.
abbrev pub hex_digit : ℕ → ℕ
hex_digit d = if ltb d 10 then b'0' + d else b'a' + (d - 10)

-- `format_serial_hex`.
unfoldable pub format_serial_hex : List ℕ → List ℕ
format_serial_hex [] = []
format_serial_hex (b ∷ bs) = hex_digit (b / 16) ∷ hex_digit (b % 16) ∷ format_serial_hex bs

-- An empty or failed state, with no serials.
abbrev pub no_serials : ℕ → CrlStatus → Option ℕ → CrlState
no_serials now status mtime = record {
  revoked_serials = [];
  status = status;
  crl_mtime = mtime;
  loaded_at = now;
  next_update = none;
}

-- `fs::read` of the list.
pub data FileRead : Type 0 where
  contents : List ℕ → FileRead
  absent unreadable : FileRead

module _ (x : X509) where
  open x use {
    Crl, parse_crl, cert_key, cert_serial, verify_signature, revoked, crl_next_update,
    from_utf8_lossy, decode64,
  }

  -- The common body of `extract_pem_cert_der` and `extract_pem_crl_der`, given the two markers.
  unfoldable pub extract_pem : List ℕ → List ℕ → List ℕ → Option (List ℕ)
  extract_pem begin_marker end_marker bytes =
      let text = from_utf8_lossy bytes in
      elim (find text begin_marker) [
        | none ↦ none
        | some begin_idx ↦
            let rest = drop (begin_idx + length begin_marker) text in
            elim (find rest end_marker) [
              | none ↦ none
              | some end_idx ↦ decode64 (filter (λ c. not (is_whitespace c)) (take end_idx rest))
            ]
      ]

  -- `match extract(bytes) { Some(der) => der, None => bytes.to_vec() }`.
  abbrev pub der_or_raw : Option (List ℕ) → List ℕ → List ℕ
  der_or_raw none bytes = bytes
  der_or_raw (some der) bytes = der

  -- `extract_pem_cert_der` and `extract_pem_crl_der`.
  unfoldable pub extract_pem_cert_der : List ℕ → Option (List ℕ)
  unfolding extract_pem
  extract_pem_cert_der =
      extract_pem (codes "-----BEGIN CERTIFICATE-----") (codes "-----END CERTIFICATE-----")

  unfoldable pub extract_pem_crl_der : List ℕ → Option (List ℕ)
  unfolding extract_pem
  extract_pem_crl_der =
      extract_pem (codes "-----BEGIN X509 CRL-----") (codes "-----END X509 CRL-----")

  -- The state that a verified list yields.
  unfoldable pub verified_state : ℕ → Option ℕ → Crl → CrlState
  unfolding format_serial_hex
  verified_state now mtime crl = record {
    revoked_serials = map format_serial_hex (revoked crl);
    status = if is_past now (crl_next_update crl) then expired else valid;
    crl_mtime = mtime;
    loaded_at = now;
    next_update = crl_next_update crl;
  }

  -- `load_crl_from_bytes`.
  unfoldable pub load_crl_from_bytes : ℕ → List ℕ → Option ℕ → List ℕ → CrlState
  load_crl_from_bytes now crl_bytes mtime ca_cert =
      elim (parse_crl (der_or_raw (extract_pem_crl_der crl_bytes) crl_bytes)) [
        | none ↦ no_serials now invalid mtime
        | some crl ↦ elim (cert_key (der_or_raw (extract_pem_cert_der ca_cert) ca_cert)) [
          | none ↦ no_serials now invalid mtime
          | some key ↦
              if verify_signature crl key
              then verified_state now mtime crl
              else no_serials now invalid mtime
        ]
      ]

  -- `load_crl`, given what reading the file yields and the file's time.
  unfoldable pub load_crl : ℕ → FileRead → Option ℕ → List ℕ → CrlState
  unfolding load_crl_from_bytes
  load_crl now (contents bytes) mtime ca_cert = load_crl_from_bytes now bytes mtime ca_cert
  load_crl now absent mtime ca_cert = no_serials now missing none
  load_crl now unreadable mtime ca_cert = no_serials now degraded none

  -- `cert_serial_hex`.
  unfoldable pub cert_serial_hex : List ℕ → Option (List ℕ)
  unfolding format_serial_hex
  cert_serial_hex cert = Option.map format_serial_hex (cert_serial cert)
