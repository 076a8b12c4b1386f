-- ===== src/Auth/Examples.antt =====
-- Runs of the revocation code on a small stand-in for X.509: the first byte of a list or a
-- certificate is the key that signed it, and the other bytes of a list are serials.
use linux_patch_api.Prelude.{ℕ, ◌%◌, ◌==◌, List, [], ◌∷◌, map, Option, none, some, ◌≡◌, refl, ◌⊎◌}
use linux_patch_api.Prelude.Result.{ok}
use linux_patch_api.Auth.Crl.{
  CrlState, invalid, missing, valid, expired, X509, no_serials, verified_state, load_crl_from_bytes,
  contents, load_crl, reevaluate_expiry,
}
use linux_patch_api.Auth.Refresh.{Store, start_up}
use linux_patch_api.Auth.Trust.{
  RefreshOutcome, ReadsAs, IsTrusted, load_crl_from_bytes-outcome, refresh_crl-outcome,
}
use linux_patch_api.Auth.Enforcement.{Started, started, Started-IsTrusted}

abbrev toy_crl : List ℕ → Option (ℕ × List ℕ)
toy_crl [] = none
toy_crl (b ∷ bs) = some (b, bs)

abbrev toy_key : List ℕ → Option ℕ
toy_key [] = none
toy_key (b ∷ bs) = some b

abbrev toy_serial : List ℕ → Option (List ℕ)
toy_serial [] = none
toy_serial (b ∷ bs) = some ((b % 256) ∷ [])

abbrev toy : X509
toy = record {
  Crl = ℕ × List ℕ;
  Key = ℕ;
  parse_crl = toy_crl;
  cert_key = toy_key;
  cert_serial = toy_serial;
  verify_signature = λ crl key. crl.0 == key;
  revoked = λ crl. map (λ b. (b % 256) ∷ []) crl.1;
  crl_next_update = λ crl. some 100;
  from_utf8_lossy = λ bytes. bytes;
  decode64 = λ text. some text;
}

abbrev disk : Store
disk = record {
  file = contents (7 ∷ 1 ∷ 2 ∷ []);
  file_mtime = some 3;
  shared = no_serials 5 missing none;
}

abbrev loaded : Store
loaded = record disk { shared = verified_state toy 5 (some 3) (7, 1 ∷ 2 ∷ []) }

disk-Started : Started toy (7 ∷ []) loaded
unfolding start_up verified_state load_crl load_crl_from_bytes
    linux_patch_api.Auth.Crl.extract_pem_crl_der linux_patch_api.Auth.Crl.extract_pem_cert_der
disk-Started = started 5 none (contents (7 ∷ 1 ∷ 2 ∷ [])) (some 3) loaded refl

load_crl_from_bytes-outcome_example :
    (((crl : toy.Crl) → ¬ ReadsAs toy (7 ∷ []) (7 ∷ 1 ∷ []) crl)
      × (load_crl_from_bytes toy 5 (7 ∷ 1 ∷ []) none (7 ∷ []) ≡ no_serials 5 invalid none))
    ⊎ ((crl : toy.Crl) × ReadsAs toy (7 ∷ []) (7 ∷ 1 ∷ []) crl
        × (load_crl_from_bytes toy 5 (7 ∷ 1 ∷ []) none (7 ∷ []) ≡ verified_state toy 5 none crl))
load_crl_from_bytes-outcome_example = load_crl_from_bytes-outcome toy (7 ∷ []) 5 (7 ∷ 1 ∷ []) none

refresh_crl-outcome_example : RefreshOutcome toy (7 ∷ []) 9 (ok (7 ∷ 4 ∷ [])) (ok (some 9)) loaded
refresh_crl-outcome_example =
    refresh_crl-outcome toy (7 ∷ []) 9 (ok (7 ∷ 4 ∷ [])) (ok (some 9)) loaded

Started-IsTrusted_example : IsTrusted toy (7 ∷ []) loaded.shared
Started-IsTrusted_example = Started-IsTrusted toy (7 ∷ []) loaded disk-Started
