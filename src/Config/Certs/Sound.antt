-- ===== src/Config/Certs/Sound.antt =====
-- What a good status of `validate_certs` in src/config/loader.rs means.
use linux_patch_api.Prelude.{
  ℕ, ◌≤◌, Bool, true, List, [], ◌∷◌, list_eq, Option, none, some, ◌≡◌, refl, sym, ◌∙◌, arith,
}
use linux_patch_api.Prelude.Result.{Result, ok, err}
use linux_patch_api.Config.{TlsConfig}
use linux_patch_api.Config.Certs.{
  CertStatus, Certificate, Files, Stop, ◌>>=◌, guard, require_files, load_certs, load_key,
  check_expiry, verify_ca_trust, checks, not_none, one_key, not_expired, with_cert, with_current_ca,
  with_key, with_server, with_ca, with_files,
}

bind-eq-ok :
    {A B : Type 0} (m : Result Stop A) (f : A → Result Stop B) {b : B}
    → (m >>= f) ≡ ok b
    → (a : A) × (m ≡ ok a) × (f a ≡ ok b)
bind-eq-ok (ok a) f h = (a, refl, h)
bind-eq-ok (err e) f h = ground (arith, h)

module _ (f : Files) (now : ℕ) (t : TlsConfig) where
  -- The certificates and the key can be read and used: the files exist, the first certificate of each is
  -- not past its end, the key goes with the server's certificates, and the issuer of the server's is the
  -- subject of the authority's.
  pub record Sound (server : Certificate) : Type 0 where
    pub ca_exists : f.exists t.ca_cert ≡ true
    pub server_exists : f.exists t.server_cert ≡ true
    pub key_exists : f.exists t.server_key ≡ true
    pub ca_der : List ℕ
    pub ca_others : List (List ℕ)
    pub ca_read : f.certs t.ca_cert ≡ some (ca_der ∷ ca_others)
    pub server_der : List ℕ
    pub server_others : List (List ℕ)
    pub server_read : f.certs t.server_cert ≡ some (server_der ∷ server_others)
    pub key : List ℕ
    pub key_read : f.private_key t.server_key ≡ some (some key)
    pub ca : Certificate
    pub ca_parsed : f.parse_x509 ca_der ≡ some ca
    pub server_parsed : f.parse_x509 server_der ≡ some server
    pub ca_current : now ≤ ca.not_after
    pub server_current : now ≤ server.not_after
    pub key_fits : f.accepts (server_der ∷ server_others) key ≡ true
    pub names_fit : list_eq server.issuer ca.subject ≡ true

  require_files-eq-ok :
      (u : Unit {0})
      → require_files f now t ≡ ok u
      → (f.exists t.ca_cert ≡ true)
        × (f.exists t.server_cert ≡ true)
        × (f.exists t.server_key ≡ true)
  unfolding require_files
  require_files-eq-ok u h = ground (arith, h)

  not_none-eq-ok :
      (path : List ℕ) (o : Option (List (List ℕ))) (r : List ℕ × List (List ℕ))
      → not_none f now path o ≡ ok r
      → o ≡ some (r.0 ∷ r.1)
  not_none-eq-ok path none r h = ground (arith, h)
  not_none-eq-ok path (some []) r h = ground (arith, h)
  not_none-eq-ok path (some (c ∷ cs)) r h = ground (arith, h)

  one_key-eq-ok :
      (path : List ℕ) (o : Option (Option (List ℕ))) (key : List ℕ)
      → one_key f now path o ≡ ok key
      → o ≡ some (some key)
  one_key-eq-ok path o key h = ground (arith, h)

  not_expired-eq-ok :
      (path : List ℕ) (o : Option Certificate) (c : Certificate)
      → not_expired f now path o ≡ ok c
      → (o ≡ some c) × (now ≤ c.not_after)
  not_expired-eq-ok path o c h = ground (arith, h)

  guard-eq-ok : (b : Bool) (s : CertStatus) (u : Unit {0}) → guard b s ≡ ok u → b ≡ true
  guard-eq-ok b s u h = ground (arith, h)

  module _ (ca_der server_der : List ℕ) (server ca : Certificate) where
    verify_ca_trust-eq :
        f.parse_x509 server_der ≡ some server
        → f.parse_x509 ca_der ≡ some ca
        → verify_ca_trust f now server_der ca_der ≡ list_eq server.issuer ca.subject
    unfolding verify_ca_trust
    verify_ca_trust-eq hs ha = rw (verify_ca_trust, hs, ha) refl

  check_expiry-eq-ok :
      (path der : List ℕ) (c : Certificate)
      → check_expiry f now path der ≡ ok c
      → (f.parse_x509 der ≡ some c) × (now ≤ c.not_after)
  unfolding check_expiry
  check_expiry-eq-ok path der c h = not_expired-eq-ok path (f.parse_x509 der) c h

  load_certs-eq-ok :
      (path : List ℕ) (r : List ℕ × List (List ℕ))
      → load_certs f now path ≡ ok r
      → f.certs path ≡ some (r.0 ∷ r.1)
  unfolding load_certs
  load_certs-eq-ok path r h = not_none-eq-ok path (f.certs path) r h

  load_key-eq-ok :
      (path key : List ℕ) → load_key f now path ≡ ok key → f.private_key path ≡ some (some key)
  unfolding load_key
  load_key-eq-ok path key h = one_key-eq-ok path (f.private_key path) key h

  with_cert-eq-ok :
      (ca server : List ℕ × List (List ℕ)) (key : List ℕ) (c cert : Certificate)
      → with_cert f now ca server key c ≡ ok cert
      → (f.accepts (server.0 ∷ server.1) key ≡ true)
        × (verify_ca_trust f now server.0 ca.0 ≡ true)
        × (c ≡ cert)
  with_cert-eq-ok ca server key c cert h = ground (arith, h)

  pub checks-Sound : (cert : Certificate) → checks f now t ≡ ok cert → Sound cert
  unfolding checks
  checks-Sound cert h =
      let (u, h0, k0) = bind-eq-ok (require_files f now t) (with_files f now t) h in
      let (a, h1, k1) = bind-eq-ok (load_certs f now t.ca_cert) (with_ca f now t) k0 in
      let (s, h2, k2) = bind-eq-ok (load_certs f now t.server_cert) (with_server f now t a) k1 in
      let (key, h3, k3) = bind-eq-ok (load_key f now t.server_key) (with_key f now t a s) k2 in
      let (ca, h4, k4) =
        bind-eq-ok (check_expiry f now t.ca_cert a.0) (with_current_ca f now t a s key) k3 in
      let (c, h5, k5) =
        bind-eq-ok (check_expiry f now t.server_cert s.0) (with_cert f now a s key) k4 in
      let (fits, trusted, same) = with_cert-eq-ok a s key c cert k5 in
      let there = require_files-eq-ok u h0 in
      let (ca_parsed, ca_current) = check_expiry-eq-ok t.ca_cert a.0 ca h4 in
      let (parsed, current) = check_expiry-eq-ok t.server_cert s.0 c h5 in
      rw⁻¹ same (record {
        ca_exists = there.0;
        server_exists = there.1;
        key_exists = there.2;
        ca_der = a.0;
        ca_others = a.1;
        ca_read = load_certs-eq-ok t.ca_cert a h1;
        server_der = s.0;
        server_others = s.1;
        server_read = load_certs-eq-ok t.server_cert s h2;
        key = key;
        key_read = load_key-eq-ok t.server_key key h3;
        ca = ca;
        ca_parsed = ca_parsed;
        server_parsed = parsed;
        ca_current = ca_current;
        server_current = current;
        key_fits = fits;
        names_fit = sym (verify_ca_trust-eq a.0 s.0 c ca parsed ca_parsed) ∙ trusted;
      })
