-- ===== src/Enroll/Identity/Selection.antt =====
-- Which addresses are reported, and in which order: src/enroll/identity.rs.
use linux_patch_api.Prelude.{
  ℕ, ◌+◌, ◌*◌, ◌/◌, ◌%◌, ◌^◌, ◌≤◌, ◌<◌, leb, ◌&&◌, not, if◌then◌else◌, Bool, true, false, List, [],
  ◌∷◌, any, list_eq, eq_of_list_eq, some, ◌≡◌, ◌↔◌, refl, ◌∙◌, inl, inr, Bool-cases, arith,
}
use linux_patch_api.Whitelist.Address.{bit_and}
use linux_patch_api.Whitelist.Entry.{IpAddr, v4, v6}
use linux_patch_api.Whitelist.Subnet.{bit_and-mask}
use linux_patch_api.Enroll.Identity.{
  is_container_bridge, is_link_local, Interface, text_le, insert_sorted, sort, unless_first, dedup,
  usable, keep, reported, show_ipv4, get_ip_addresses,
}

high_nibble : (x : ℕ) → x < 256 → bit_and 8 x 240 ≡ 16 * (x / 16)
high_nibble x h = bit_and-mask 8 4 x (omega arith) h ∙ omega (arith, h)

-- The addresses from 172.16.0.0 to 172.31.255.255 are those of container bridges, and those from
-- 169.254.0.0 to 169.254.255.255 the ones of a link only.
pub is_container_bridge-range :
    (addr : ℕ)
    → addr < 2 ^ 32
    → ((is_container_bridge addr ≡ true)
        ↔ ((172 * 2 ^ 24 + 16 * 2 ^ 16 ≤ addr) × (addr < 172 * 2 ^ 24 + 32 * 2 ^ 16)))
      × ((is_link_local addr ≡ true)
          ↔ ((169 * 2 ^ 24 + 254 * 2 ^ 16 ≤ addr) × (addr < 169 * 2 ^ 24 + 255 * 2 ^ 16)))
unfolding is_container_bridge is_link_local
is_container_bridge-range addr h =
    rw (high_nibble (addr / 2 ^ 16 % 256) (omega arith)) (ground (arith, h))

-- Texts that rise strictly, by characters.
abbrev Below : List ℕ → List (List ℕ) → Type 0
Below t [] = Unit {0}
Below t (u ∷ us) = (text_le t u ≡ true) × (list_eq t u ≡ false)

abbrev pub Ascending : List (List ℕ) → Type 0
Ascending [] = Unit {0}
Ascending (t ∷ ts) = Below t ts × Ascending ts

abbrev NotBelow : List ℕ → List (List ℕ) → Type 0
NotBelow t [] = Unit {0}
NotBelow t (u ∷ us) = text_le t u ≡ true

abbrev Sorted : List (List ℕ) → Type 0
Sorted [] = Unit {0}
Sorted (t ∷ ts) = NotBelow t ts × Sorted ts

pub text_le_total : (t u : List ℕ) → text_le t u ≡ false → text_le u t ≡ true
text_le_total [] u h = ground (arith, h)
text_le_total (x ∷ xs) [] h = refl
text_le_total (x ∷ xs) (y ∷ ys) h = ground (arith, text_le_total xs ys, h)

insert_sorted-NotBelow :
    (u t : List ℕ) (us : List (List ℕ))
    → text_le u t ≡ true
    → NotBelow u us
    → NotBelow u (insert_sorted t us)
insert_sorted-NotBelow u t [] h b = h
insert_sorted-NotBelow u t (v ∷ vs) h b = ground (arith, h, b)

insert_sorted-Sorted : (t : List ℕ) (us : List (List ℕ)) → Sorted us → Sorted (insert_sorted t us)
insert_sorted-Sorted t [] s = (tt, tt)
insert_sorted-Sorted t (u ∷ us) (b, s) = elim (Bool-cases (text_le t u)) [
  | inl le ↦ rw le ((le, (b, s)))
  | inr gt ↦
      rw gt (insert_sorted-NotBelow u t us (text_le_total t u gt) b, insert_sorted-Sorted t us s)
]

sort-Sorted : (ts : List (List ℕ)) → Sorted (sort ts)
unfolding sort
sort-Sorted [] = tt
sort-Sorted (t ∷ ts) = insert_sorted-Sorted t (sort ts) (sort-Sorted ts)

unless_first-NotBelow :
    (t u : List ℕ) (us : List (List ℕ)) → text_le t u ≡ true → NotBelow t (unless_first u us)
unless_first-NotBelow t u [] h = h
unless_first-NotBelow t u (v ∷ vs) h = elim (Bool-cases (list_eq u v)) [
  | inl same ↦ rw (same, ← eq_of_list_eq u v same) h
  | inr other ↦ rw other h
]

dedup-NotBelow : (t : List ℕ) (us : List (List ℕ)) → NotBelow t us → NotBelow t (dedup us)
unfolding dedup
dedup-NotBelow t [] h = tt
dedup-NotBelow t (u ∷ us) h = unless_first-NotBelow t u (dedup us) h

unless_first-Ascending :
    (t : List ℕ) (us : List (List ℕ)) → NotBelow t us → Ascending us → Ascending (unless_first t us)
unless_first-Ascending t [] b a = (tt, tt)
unless_first-Ascending t (u ∷ us) b a = elim (Bool-cases (list_eq t u)) [
  | inl same ↦ rw same a
  | inr other ↦ rw other ((b, other), a)
]

dedup-Ascending : (ts : List (List ℕ)) → Sorted ts → Ascending (dedup ts)
unfolding dedup
dedup-Ascending [] s = tt
dedup-Ascending (t ∷ ts) (b, s) =
    unless_first-Ascending t (dedup ts) (dedup-NotBelow t ts b) (dedup-Ascending ts s)

module _ (x : List ℕ) where
  abbrev pub contained : List (List ℕ) → Bool
  contained = any (list_eq x)

  contained-insert_sorted :
      (t : List ℕ) (us : List (List ℕ)) → contained (insert_sorted t us) ≡ contained (t ∷ us)
  contained-insert_sorted t [] = refl
  contained-insert_sorted t (u ∷ us) = ground (arith, contained-insert_sorted t us)

  contained-sort : (ts : List (List ℕ)) → contained (sort ts) ≡ contained ts
  unfolding sort
  contained-sort [] = refl
  contained-sort (t ∷ ts) = contained-insert_sorted t (sort ts) ∙ ground (arith, contained-sort ts)

  contained-unless_first :
      (t : List ℕ) (us : List (List ℕ)) → contained (unless_first t us) ≡ contained (t ∷ us)
  contained-unless_first t [] = refl
  contained-unless_first t (u ∷ us) = elim (Bool-cases (list_eq t u)) [
    | inl same ↦ rw (same, ← eq_of_list_eq t u same) (ground arith)
    | inr other ↦ rw other refl
  ]

  contained-dedup : (ts : List (List ℕ)) → contained (dedup ts) ≡ contained ts
  unfolding dedup
  contained-dedup [] = refl
  contained-dedup (t ∷ ts) =
      contained-unless_first t (dedup ts) ∙ ground (arith, contained-dedup ts)

-- The address is none from the first one up to the second.
abbrev pub outside : ℕ → ℕ → ℕ → Bool
outside lo hi addr = if leb lo addr then leb hi addr else true

-- The interface is no loopback, its address is of IPv4 and neither from 172.16.0.0 to 172.31.255.255 nor
-- from 169.254.0.0 to 169.254.255.255, and this is its text.
abbrev pub shows : List ℕ → Interface → Bool
shows x i = elim i.ip [
  | v6 n ↦ false
  | v4 addr ↦
      not i.loopback
      && (outside (172 * 2 ^ 24 + 16 * 2 ^ 16) (172 * 2 ^ 24 + 32 * 2 ^ 16) addr
          && (outside (169 * 2 ^ 24 + 254 * 2 ^ 16) (169 * 2 ^ 24 + 255 * 2 ^ 16) addr
              && list_eq x (show_ipv4 addr)))
]

abbrev pub FitsIp : IpAddr → Type 0
FitsIp (v4 addr) = addr < 2 ^ 32
FitsIp (v6 n) = Unit {0}

-- The addresses of IPv4 have 32 bits.
abbrev pub Fits : List Interface → Type 0
Fits [] = Unit {0}
Fits (i ∷ is) = FitsIp i.ip × Fits is

bridge_outside :
    (addr : ℕ)
    → addr < 2 ^ 32
    → outside (172 * 2 ^ 24 + 16 * 2 ^ 16) (172 * 2 ^ 24 + 32 * 2 ^ 16) addr
      ≡ not (is_container_bridge addr)
bridge_outside addr h =
    let r = (is_container_bridge-range addr h).0 in
    elim (Bool-cases (is_container_bridge addr)) [
      | inl e ↦ let w = r.0 e in ground (arith, e, w.0, w.1)
      | inr e ↦ ground (arith, e, r.1)
    ]

link_outside :
    (addr : ℕ)
    → addr < 2 ^ 32
    → outside (169 * 2 ^ 24 + 254 * 2 ^ 16) (169 * 2 ^ 24 + 255 * 2 ^ 16) addr
      ≡ not (is_link_local addr)
link_outside addr h =
    let r = (is_container_bridge-range addr h).1 in
    elim (Bool-cases (is_link_local addr)) [
      | inl e ↦ let w = r.0 e in ground (arith, e, w.0, w.1)
      | inr e ↦ ground (arith, e, r.1)
    ]

contained-reported :
    (x name : List ℕ) (loopback : Bool) (at : IpAddr) (ts : List (List ℕ))
    → FitsIp at
    → let i : Interface = record { name = name; loopback = loopback; ip = at } in
      contained x (keep (reported i) ts) ≡ (if shows x i then true else contained x ts)
contained-reported x name true (v6 n) ts h = refl
contained-reported x name false (v6 n) ts h = refl
contained-reported x name true (v4 addr) ts h = refl
contained-reported x name false (v4 addr) ts h =
    rw (bridge_outside addr h, link_outside addr h) (ground arith)

contained-keep :
    (x : List ℕ) (i : Interface) (ts : List (List ℕ))
    → FitsIp i.ip
    → contained x (keep (reported i) ts) ≡ (if shows x i then true else contained x ts)
contained-keep x i ts h = contained-reported x i.name i.loopback i.ip ts h

contained-usable :
    (x : List ℕ) (is : List Interface) → Fits is → contained x (usable is) ≡ any (shows x) is
unfolding usable
contained-usable x [] h = refl
contained-usable x (i ∷ is) (h, hs) =
    contained-keep x i (usable is) h ∙ ground (arith, contained-usable x is hs)

-- The addresses are listed in strictly rising order of their texts, so none twice, and a text stands
-- there exactly if an interface that is no loopback has an address of IPv4 with this text, neither from
-- 172.16.0.0 to 172.31.255.255 nor from 169.254.0.0 to 169.254.255.255.
pub get_ip_addresses-Ascending :
    (interfaces : List Interface)
    → Fits interfaces
    → (ts : List (List ℕ)) × (get_ip_addresses (some interfaces) ≡ some ts)
      × Ascending ts
      × ((x : List ℕ) → contained x ts ≡ any (shows x) interfaces)
unfolding get_ip_addresses
get_ip_addresses-Ascending interfaces h =
    let texts = usable interfaces in
    (
      dedup (sort texts),
      refl,
      dedup-Ascending (sort texts) (sort-Sorted texts),
      (λ x.
          contained-dedup x (sort texts)
          ∙ contained-sort x texts
          ∙ contained-usable x interfaces h),
    )
