-- ===== src/Whitelist/Address.antt =====
-- IPv4 addresses of src/auth/whitelist.rs. An address is the number of its 32 bits, a text the list
-- of its characters. The parsers of Rust's standard library are written out.
use linux_patch_api.Prelude.{
  ℕ, zero, suc, ◌+◌, ◌-◌, ◌*◌, ◌/◌, ◌%◌, ◌^◌, Bool, ltb, leb, ◌==◌, List, [], ◌∷◌, Option, none,
  some, if◌then◌else◌,
}

-- `&` of two numbers of w bits.
unfoldable pub bit_and : ℕ → ℕ → ℕ → ℕ
bit_and zero a b = 0
bit_and (suc w) a b = (if a % 2 == 1 then b % 2 else 0) + 2 * bit_and w (a / 2) (b / 2)

-- `!0u32 << (32 - prefix)`, and 0 for the prefix 0.
abbrev pub mask : ℕ → ℕ
mask prefix = if prefix == 0 then 0 else (2 ^ 32 - 1) * 2 ^ (32 - prefix) % 2 ^ 32

-- `ip_in_subnet`.
unfoldable pub ip_in_subnet : ℕ → ℕ → ℕ → Bool
unfolding bit_and
ip_in_subnet ip network prefix = bit_and 32 ip (mask prefix) == bit_and 32 network (mask prefix)

abbrev pub digit_value : ℕ → Option ℕ
digit_value c = if leb b'0' c then if leb c b'9' then some (c - b'0') else none else none

-- The value of decimal digits, behind the value read so far, if it stays within the limit.
unfoldable pub digits_upto : ℕ → ℕ → List ℕ → Option ℕ
digits_upto limit acc [] = some acc
digits_upto limit acc (c ∷ cs) = elim (digit_value c) [
  | none ↦ none
  | some d ↦
      let rest = digits_upto limit (acc * 10 + d) cs in
      if ltb limit (acc * 10 + d) then none else rest
]

-- `str::parse::<u8>`: a plus sign may stand in front.
unfoldable pub parse_u8 : List ℕ → Option ℕ
unfolding digits_upto
parse_u8 [] = none
parse_u8 (c ∷ []) = digits_upto 255 0 (c ∷ [])
parse_u8 (c ∷ d ∷ cs) =
    if c == b'+' then digits_upto 255 0 (d ∷ cs) else digits_upto 255 0 (c ∷ d ∷ cs)

-- One of the four numbers of an address: no sign, and no zero in front.
unfoldable pub parse_octet : List ℕ → Option ℕ
unfolding digits_upto
parse_octet [] = none
parse_octet (c ∷ []) = digits_upto 255 0 (c ∷ [])
parse_octet (c ∷ d ∷ cs) = if c == b'0' then none else digits_upto 255 0 (c ∷ d ∷ cs)

-- `str::split_once`.
unfoldable pub split_once : ℕ → List ℕ → Option (List ℕ × List ℕ)
split_once sep [] = none
split_once sep (c ∷ cs) =
    let rest = split_once sep cs in
    if c == sep then some ([], cs) else elim rest [ none ↦ none | some p ↦ some (c ∷ p.0, p.1) ]

-- The numbers of an address, n dots and n + 1 numbers, behind the value of those before.
unfoldable pub parse_octets : ℕ → ℕ → List ℕ → Option ℕ
unfolding parse_octet split_once
parse_octets zero acc text = elim (parse_octet text) [ none ↦ none | some b ↦ some (acc * 256 + b) ]
parse_octets (suc n) acc text = elim (split_once b'.' text) [
  | none ↦ none
  | some p ↦ elim (parse_octet p.0) [ none ↦ none | some b ↦ parse_octets n (acc * 256 + b) p.1 ]
]

-- `str::parse::<Ipv4Addr>`.
unfoldable pub parse_ipv4 : List ℕ → Option ℕ
unfolding parse_octets
parse_ipv4 text = parse_octets 3 0 text
