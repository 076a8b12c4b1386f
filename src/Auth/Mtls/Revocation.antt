-- ===== src/Auth/Mtls/Revocation.antt =====
-- Which certificates are refused on account of the revocation list.
use linux_patch_api.Prelude.{ℕ, ◌<◌, List, [], ◌∷◌, map, any, list_eq, ◌≡◌, refl, ◌/◌, ◌%◌, arith}
use linux_patch_api.Auth.Crl.{hex_digit, format_serial_hex}

-- The numbers are bytes.
abbrev pub AllBytes : List ℕ → Type 0
AllBytes [] = Unit {0}
AllBytes (b ∷ bs) = (b < 256) × AllBytes bs

abbrev pub AllSerials : List (List ℕ) → Type 0
AllSerials [] = Unit {0}
AllSerials (s ∷ ss) = AllBytes s × AllSerials ss

hex_digit_inj : (a b : ℕ) → a < 16 → b < 16 → hex_digit a ≡ hex_digit b → a ≡ b
hex_digit_inj a b ha hb h = ground arith

byte_inj :
    (a b : ℕ)
    → a < 256
    → b < 256
    → hex_digit (a / 16) ≡ hex_digit (b / 16)
    → hex_digit (a % 16) ≡ hex_digit (b % 16)
    → a ≡ b
byte_inj a b ha hb p q = omega (
  arith,
  hex_digit_inj (a / 16) (b / 16) (omega arith) (omega arith) p,
  hex_digit_inj (a % 16) (b % 16) (omega arith) (omega arith) q,
)

-- Two serials with the same text are the same bytes.
pub format_serial_hex-inj :
    (xs bs : List ℕ)
    → AllBytes xs
    → AllBytes bs
    → list_eq (format_serial_hex xs) (format_serial_hex bs) ≡ list_eq xs bs
unfolding format_serial_hex
format_serial_hex-inj [] [] ha hb = refl
format_serial_hex-inj [] (b ∷ bs) ha hb = refl
format_serial_hex-inj (a ∷ xs) [] ha hb = refl
format_serial_hex-inj (a ∷ xs) (b ∷ bs) ha hb =
    ground (arith, format_serial_hex-inj xs bs ha.1 hb.1, byte_inj a b ha.0 hb.0)

pub any-format :
    (s : List ℕ) (ss : List (List ℕ))
    → AllBytes s
    → AllSerials ss
    → any (list_eq (format_serial_hex s)) (map format_serial_hex ss) ≡ any (list_eq s) ss
any-format s [] h hs = refl
any-format s (t ∷ ts) h hs =
    ground (arith, any-format s ts h hs.1, format_serial_hex-inj s t h hs.0)
