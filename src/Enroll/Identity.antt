-- ===== src/Enroll/Identity.antt =====
-- Who this host is: src/enroll/identity.rs. Files, commands and network interfaces are parameters;
-- the output of a command is given where it ran and succeeded.
pub mod Host
pub mod Selection
mod Examples
use linux_patch_api.Prelude.{
  ℕ, ◌+◌, ◌*◌, ◌/◌, ◌%◌, ◌^◌, ◌==◌, ltb, leb, Bool, true, false, ◌&&◌, ◌||◌, not, List, [], ◌∷◌,
  ◌++◌, any, list_eq, Option, none, some, if◌then◌else◌,
}
use linux_patch_api.Prelude.Result.{Result, ok, err}
use linux_patch_api.Prelude.Text.{codes, trim, show_ℕ}
use linux_patch_api.Prelude.Lines.{contains, split_whitespace}
use linux_patch_api.Packages.Splitting.{until}
use linux_patch_api.Whitelist.Address.{bit_and, parse_ipv4}
use linux_patch_api.Whitelist.Entry.{IpAddr, v4, v6}
use linux_patch_api.Enroll.Release.{field}

abbrev octet : ℕ → ℕ → ℕ
octet i addr = addr / 2 ^ (8 * i) % 256

-- `is_container_bridge` and `is_link_local`.
unfoldable pub is_container_bridge : ℕ → Bool
unfolding bit_and
is_container_bridge addr = (octet 3 addr == 172) && (bit_and 8 (octet 2 addr) 0xf0 == 0x10)

unfoldable pub is_link_local : ℕ → Bool
is_link_local addr = (octet 3 addr == 169) && (octet 2 addr == 254)

-- `Ipv4Addr::is_loopback`, and `Display`.
unfoldable pub is_loopback : ℕ → Bool
is_loopback addr = octet 3 addr == 127

unfoldable pub show_ipv4 : ℕ → List ℕ
unfolding show_ℕ
show_ipv4 addr =
    codes (show_ℕ (octet 3 addr))
    ++ b'.' ∷ codes (show_ℕ (octet 2 addr))
    ++ b'.' ∷ codes (show_ℕ (octet 1 addr))
    ++ b'.' ∷ codes (show_ℕ (octet 0 addr))

-- An interface of `if_addrs`, with its own test for loopback.
pub record Interface : Type 0 where
  pub name : List ℕ
  pub loopback : Bool
  pub ip : IpAddr

-- `sort` of texts, by insertion, and `dedup`.
abbrev pub text_le : List ℕ → List ℕ → Bool
text_le [] ys = true
text_le (x ∷ xs) [] = false
text_le (x ∷ xs) (y ∷ ys) =
    let rest = text_le xs ys in if ltb x y then true else if x == y then rest else false

abbrev insert_sorted : List ℕ → List (List ℕ) → List (List ℕ)
insert_sorted t [] = t ∷ []
insert_sorted t (u ∷ us) =
    let rest = insert_sorted t us in if text_le t u then t ∷ u ∷ us else u ∷ rest

unfoldable pub sort : List (List ℕ) → List (List ℕ)
sort [] = []
sort (t ∷ ts) = insert_sorted t (sort ts)

abbrev unless_first : List ℕ → List (List ℕ) → List (List ℕ)
unless_first t [] = t ∷ []
unless_first t (u ∷ us) = if list_eq t u then u ∷ us else t ∷ u ∷ us

unfoldable pub dedup : List (List ℕ) → List (List ℕ)
dedup [] = []
dedup (t ∷ ts) = unless_first t (dedup ts)

-- The address of an interface that may be reported.
abbrev reported : Interface → Option (List ℕ)
reported i = if i.loopback then none else elim i.ip [
  | v6 n ↦ none
  | v4 addr ↦ if is_container_bridge addr || is_link_local addr then none else some (show_ipv4 addr)
]

abbrev keep : Option (List ℕ) → List (List ℕ) → List (List ℕ)
keep none ts = ts
keep (some t) ts = t ∷ ts

unfoldable pub usable : List Interface → List (List ℕ)
unfolding is_container_bridge is_link_local show_ipv4
usable [] = []
usable (i ∷ is) = keep (reported i) (usable is)

-- `get_ip_addresses`, of the interfaces, if they could be listed.
abbrev sorted_usable : Option (List Interface) → Option (List (List ℕ))
sorted_usable none = none
sorted_usable (some is) = some (dedup (sort (usable is)))

unfoldable pub get_ip_addresses : Option (List Interface) → Option (List (List ℕ))
unfolding usable sort dedup
get_ip_addresses = sorted_usable

-- The word that follows `src`.
abbrev next_word : List (List ℕ) → Option (List ℕ)
next_word [] = none
next_word (w ∷ ws) = some w

unfoldable pub word_after_src : List (List ℕ) → Option (List ℕ)
word_after_src [] = none
word_after_src (w ∷ ws) =
    let rest = word_after_src ws in if list_eq w (codes "src") then next_word ws else rest

-- An address that the manager can reach.
unfoldable pub is_reportable : ℕ → Bool
unfolding is_loopback is_container_bridge is_link_local
is_reportable addr =
    not (is_loopback addr) && not (is_container_bridge addr) && not (is_link_local addr)

abbrev valid_source : Option (List ℕ) → Option (List ℕ)
valid_source none = none
valid_source (some word) = elim (parse_ipv4 word) [
  | none ↦ none
  | some addr ↦ if is_reportable addr then some word else none
]

-- `get_route_source_ip`, of the output of `ip route get`.
unfoldable pub get_route_source_ip : Option (List ℕ) → Option (List ℕ)
unfolding split_whitespace word_after_src parse_ipv4 is_reportable
get_route_source_ip none = none
get_route_source_ip (some output) = valid_source (word_after_src (split_whitespace output))

abbrev v4_of : Interface → Option (List ℕ)
v4_of i = elim i.ip [ v6 n ↦ none | v4 addr ↦ if i.loopback then none else some (show_ipv4 addr) ]

abbrev or_later : Option (List ℕ) → Option (List ℕ) → Option (List ℕ)
or_later none other = other
or_later (some t) other = some t

unfoldable pub first_on : List ℕ → List Interface → Option (List ℕ)
unfolding show_ipv4
first_on name [] = none
first_on name (i ∷ is) =
    let rest = first_on name is in if list_eq i.name name then or_later (v4_of i) rest else rest

-- `get_ip_for_interface`.
unfoldable pub get_ip_for_interface : Option (List Interface) → List ℕ → Option (List ℕ)
unfolding first_on
get_ip_for_interface none name = none
get_ip_for_interface (some is) name = first_on name is

-- The override by `report_ip`: an address, and not of the loopback network.
unfoldable pub explicit_ip : Option (List ℕ) → Option (List ℕ)
unfolding parse_ipv4 is_loopback
explicit_ip none = none
explicit_ip (some ip) = elim (parse_ipv4 ip) [
  | none ↦ none
  | some addr ↦ if is_loopback addr then none else some ip
]

abbrev first_address : Option (List (List ℕ)) → Option (List ℕ)
first_address none = none
first_address (some []) = none
first_address (some (t ∷ ts)) = some t

abbrev with_option : (List ℕ → Option (List ℕ)) → Option (List ℕ) → Option (List ℕ)
with_option f none = none
with_option f (some a) = f a

-- `get_primary_ip`: the interfaces, and the output of `ip route get` for each target.
unfoldable pub get_primary_ip :
    Option (List Interface)
    → (List ℕ → Option (List ℕ))
    → (report_interface report_ip route_target : Option (List ℕ)) → Option (List ℕ)
unfolding get_ip_addresses get_route_source_ip get_ip_for_interface explicit_ip
get_primary_ip interfaces route report_interface report_ip route_target =
    or_later (explicit_ip report_ip) (
      or_later (with_option (get_ip_for_interface interfaces) report_interface) (
        or_later (with_option (λ target. get_route_source_ip (route target)) route_target)
          (first_address (get_ip_addresses interfaces))))
