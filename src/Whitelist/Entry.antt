-- ===== src/Whitelist/Entry.antt =====
-- Whitelist entries: how src/auth/whitelist.rs reads them and whom they let in. Name look-up is a
-- parameter: the addresses of a name, none if it fails.
use linux_patch_api.Prelude.{
  ℕ, ltb, Bool, true, false, ◌==◌, List, [], ◌∷◌, any, list_eq, Option, none, some, if◌then◌else◌,
}
use linux_patch_api.Prelude.Result.{Result, ok, err}
use linux_patch_api.Prelude.Text.{trim}
use linux_patch_api.Whitelist.Address.{ip_in_subnet, parse_ipv4, parse_u8, split_once}

-- `WhitelistEntry`.
pub data WhitelistEntry : Type 0 where
  ip : ℕ → WhitelistEntry
  cidr : (network : ℕ) → (prefix : ℕ) → WhitelistEntry
  hostname : (name : List ℕ) → (resolved : ℕ) → WhitelistEntry

-- `IpAddr`.
pub data IpAddr : Type 0 where
  v4 v6 : ℕ → IpAddr

-- `PartialEq` of `WhitelistEntry`.
abbrev pub entry_eq : WhitelistEntry → WhitelistEntry → Bool
entry_eq (ip a) (ip b) = a == b
entry_eq (cidr m p) (cidr n q) = if m == n then p == q else false
entry_eq (hostname m a) (hostname n b) = if list_eq m n then a == b else false
entry_eq _ _ = false

-- One case of `is_allowed`.
unfoldable pub entry_allows : ℕ → WhitelistEntry → Bool
unfolding ip_in_subnet
entry_allows a (ip allowed_ip) = a == allowed_ip
entry_allows a (cidr network prefix) = ip_in_subnet a network prefix
entry_allows a (hostname name resolved) = a == resolved

-- `is_allowed`.
unfoldable pub is_allowed : ℕ → List WhitelistEntry → Bool
unfolding entry_allows
is_allowed a entries = any (entry_allows a) entries

-- `is_socket_allowed`.
unfoldable pub is_socket_allowed : IpAddr → List WhitelistEntry → Bool
unfolding is_allowed
is_socket_allowed (v4 a) entries = is_allowed a entries
is_socket_allowed (v6 a) entries = false

-- `HashSet::insert`.
unfoldable pub insert : WhitelistEntry → List WhitelistEntry → List WhitelistEntry
insert e entries = if any (entry_eq e) entries then entries else e ∷ entries

-- The errors of the two parsers.
pub data EntryError : Type 0 where
  empty_entry invalid_ip invalid_prefix prefix_too_large : EntryError

-- An entry with a slash.
unfoldable pub parse_cidr : List ℕ → List ℕ → Result EntryError WhitelistEntry
unfolding parse_ipv4 parse_u8
parse_cidr ip_str prefix_str = elim (parse_ipv4 ip_str) [
  | none ↦ err invalid_ip
  | some network ↦ elim (parse_u8 prefix_str) [
    | none ↦ err invalid_prefix
    | some prefix ↦ if ltb 32 prefix then err prefix_too_large else ok (cidr network prefix)
  ]
]

-- The first IPv4 address: the loop of `resolve_hostname`.
abbrev pub first_v4 : List IpAddr → Option ℕ
first_v4 [] = none
first_v4 (v4 a ∷ addrs) = some a
first_v4 (v6 a ∷ addrs) = first_v4 addrs

-- `resolve_hostname`.
unfoldable pub resolve_hostname : (List ℕ → Option (List IpAddr)) → List ℕ → Option ℕ
resolve_hostname lookup name = elim (lookup name) [ none ↦ none | some addrs ↦ first_v4 addrs ]

abbrev pub is_skipped : List ℕ → Bool
is_skipped [] = true
is_skipped (c ∷ cs) = c == b'#'

-- The body of the loop of `parse_entries`, for a trimmed line: what it inserts, if anything.
unfoldable pub parse_line :
    (List ℕ → Option (List IpAddr)) → List ℕ → Result EntryError (Option WhitelistEntry)
unfolding parse_cidr resolve_hostname split_once parse_ipv4
parse_line lookup line = if is_skipped line then ok none else elim (split_once b'/' line) [
  | some parts ↦ elim (parse_cidr parts.0 parts.1) [ ok e ↦ ok (some e) | err f ↦ err f ]
  | none ↦ elim (parse_ipv4 line) [
    | some a ↦ ok (some (ip a))
    | none ↦ elim (resolve_hostname lookup line) [
      | some a ↦ ok (some (hostname line a))
      | none ↦ ok none
    ]
  ]
]

abbrev pub insert_opt : Option WhitelistEntry → List WhitelistEntry → List WhitelistEntry
insert_opt none parsed = parsed
insert_opt (some e) parsed = insert e parsed

-- `parse_entries`, from what is parsed so far.
unfoldable pub parse_entries :
    (List ℕ → Option (List IpAddr))
    → List WhitelistEntry
    → List (List ℕ)
    → Result EntryError (List WhitelistEntry)
unfolding parse_line trim insert
parse_entries lookup parsed [] = ok parsed
parse_entries lookup parsed (line ∷ lines) = elim (parse_line lookup (trim line)) [
  | err f ↦ err f
  | ok found ↦ parse_entries lookup (insert_opt found parsed) lines
]

-- The parser of `append_entry`, for a trimmed text: no names.
unfoldable pub parse_appended : List ℕ → Result EntryError WhitelistEntry
unfolding parse_cidr split_once parse_ipv4
parse_appended [] = err empty_entry
parse_appended (c ∷ cs) = elim (split_once b'/' (c ∷ cs)) [
  | some parts ↦ parse_cidr parts.0 parts.1
  | none ↦ elim (parse_ipv4 (c ∷ cs)) [ none ↦ err invalid_ip | some a ↦ ok (ip a) ]
]
