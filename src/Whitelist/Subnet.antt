-- ===== src/Whitelist/Subnet.antt =====
-- The subnet test of src/auth/whitelist.rs against the definition of a subnet.
use linux_patch_api.Prelude.{
  ℕ, zero, suc, ◌+◌, ◌-◌, ◌*◌, ◌/◌, ◌%◌, ◌^◌, ◌≤◌, ◌<◌, false, ◌==◌, ◌≡◌, refl, arith,
  if◌then◌else◌,
}
use linux_patch_api.Whitelist.Address.{bit_and, mask, ip_in_subnet}

-- The number with its low k bits cleared.
abbrev pub clear_low : ℕ → ℕ → ℕ
clear_low zero a = a
clear_low (suc k) a = 2 * clear_low k (a / 2)

-- The number without its low k bits.
abbrev pub shift_right : ℕ → ℕ → ℕ
shift_right zero a = a
shift_right (suc k) a = shift_right k (a / 2)

pow_pos : (k : ℕ) → 1 ≤ 2 ^ k
pow_pos zero = omega arith
pow_pos (suc k) = omega (arith, pow_pos k)

bit_and-suc :
    (w a b d c : ℕ)
    → b / 2 ≡ d
    → bit_and w (a / 2) d ≡ c
    → bit_and (suc w) a b ≡ (if a % 2 == 1 then b % 2 else 0) + 2 * c
unfolding bit_and
bit_and-suc w a b d c p q = rw (bit_and, p, q)

bit_and-ones : (w a : ℕ) → a < 2 ^ w → bit_and w a (2 ^ w - 1) ≡ a
unfolding bit_and
bit_and-ones zero a h = ground arith
bit_and-ones (suc w) a h = ground (
  arith,
  pow_pos w,
  bit_and-suc w a (2 ^ suc w - 1) (2 ^ w - 1) (a / 2) (omega (arith, pow_pos w))
      (bit_and-ones w (a / 2) (omega (arith, h))),
)

pow_le : (k w : ℕ) → k ≤ w → 2 ^ k ≤ 2 ^ w
pow_le zero w h = pow_pos w
pow_le (suc k) zero h = ground arith
pow_le (suc k) (suc w) h = omega (arith, pow_le k w (omega (arith, h)))

pub bit_and-mask : (w k a : ℕ) → k ≤ w → a < 2 ^ w → bit_and w a (2 ^ w - 2 ^ k) ≡ clear_low k a
unfolding bit_and
bit_and-mask w zero a h l = bit_and-ones w a l
bit_and-mask zero (suc k) a h l = ground arith
bit_and-mask (suc w) (suc k) a h l = ground (
  arith,
  pow_pos w,
  pow_le k w (omega (arith, h)),
  bit_and-suc w a (2 ^ suc w - 2 ^ suc k) (2 ^ w - 2 ^ k) (clear_low k (a / 2))
      (omega (arith, pow_le k w (omega (arith, h))))
      (bit_and-mask w k (a / 2) (omega (arith, h)) (omega (arith, l))),
)

clear_low-eq : (k a b : ℕ) → (clear_low k a == clear_low k b) ≡ (shift_right k a == shift_right k b)
clear_low-eq zero a b = refl
clear_low-eq (suc k) a b = ground (arith, clear_low-eq k (a / 2) (b / 2))

-- 4294967296 is 2 ^ 32.
shifted : (q : ℕ) → 1 ≤ q → q ≤ 4294967296 → (4294967295 * q) % 4294967296 ≡ 4294967296 - q
shifted q h l = omega (arith, h, l)

suc_not_zero : (n : ℕ) → (suc n == 0) ≡ false
suc_not_zero n = ground arith

mask_lem : (prefix : ℕ) → prefix ≤ 32 → mask prefix ≡ 2 ^ 32 - 2 ^ (32 - prefix)
mask_lem zero h = refl
mask_lem (suc p) h =
    rw (suc_not_zero p)
      (shifted (2 ^ (32 - suc p)) (pow_pos (32 - suc p)) (pow_le (32 - suc p) 32 (omega arith)))

-- An address lies in a subnet exactly if it agrees with the network in all but the low bits.
pub ip_in_subnet_lem :
    (ip network prefix : ℕ)
    → ip < 2 ^ 32
    → network < 2 ^ 32
    → prefix ≤ 32
    → ip_in_subnet ip network prefix
      ≡ (shift_right (32 - prefix) ip == shift_right (32 - prefix) network)
unfolding ip_in_subnet
ip_in_subnet_lem ip network prefix hi hn hp =
    rw
      (
        mask_lem prefix hp,
        bit_and-mask 32 (32 - prefix) ip (omega arith) hi,
        bit_and-mask 32 (32 - prefix) network (omega arith) hn,
      )
      (clear_low-eq (32 - prefix) ip network)
