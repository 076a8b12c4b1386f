-- ===== src/Enroll/Identity/Examples.antt =====
-- Tests of the identity, and its theorems at concrete inputs.
use linux_patch_api.Prelude.{
  arith, any, ℕ, Bool, true, false, List, [], ◌∷◌, none, some, ◌≡◌, refl, ◌*◌, ◌+◌, ◌^◌,
}
use linux_patch_api.Prelude.Text.{codes}
use linux_patch_api.Whitelist.Entry.{v4}
use linux_patch_api.Enroll.Identity.{
  Interface, get_ip_addresses, get_primary_ip, get_route_source_ip,
}
use linux_patch_api.Enroll.Identity.Selection.{
  Ascending, contained, shows, get_ip_addresses-Ascending,
}

abbrev interface : List ℕ → Bool → ℕ → Interface
interface name loopback addr = record { name = name; loopback = loopback; ip = v4 addr }

-- 127.0.0.1, 172.17.0.1, 10.0.0.9 and 10.0.0.10.
abbrev interfaces : List Interface
interfaces =
    interface (codes "lo") true (127 * 2 ^ 24 + 1)
    ∷ interface (codes "docker0") false (172 * 2 ^ 24 + 17 * 2 ^ 16 + 1)
    ∷ interface (codes "eth0") false (10 * 2 ^ 24 + 9)
    ∷ interface (codes "eth1") false (10 * 2 ^ 24 + 10)
    ∷ []

addresses : get_ip_addresses (some interfaces) ≡ some (codes "10.0.0.10" ∷ codes "10.0.0.9" ∷ [])
unfolding get_ip_addresses
addresses = refl

-- The interface that was asked for has a bridge's address, which is reported all the same.
of_interface :
    get_primary_ip (some interfaces) (λ t. none) (some (codes "docker0")) none none
    ≡ some (codes "172.17.0.1")
unfolding get_primary_ip
of_interface = refl

of_route :
    get_route_source_ip (some (codes "1.2.3.4 via 10.0.0.1 dev eth0 src 10.0.0.9 uid 0"))
    ≡ some (codes "10.0.0.9")
unfolding get_route_source_ip
of_route = refl

get_ip_addresses-Ascending_example :
    (ts : List (List ℕ)) × (get_ip_addresses (some interfaces) ≡ some ts)
    × Ascending ts
    × ((x : List ℕ) → contained x ts ≡ any (shows x) interfaces)
get_ip_addresses-Ascending_example =
    get_ip_addresses-Ascending interfaces
      (omega arith, (omega arith, (omega arith, (omega arith, tt))))
