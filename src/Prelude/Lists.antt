-- ===== src/Prelude/Lists.antt =====
-- Lists measured by native numbers, under the library's names.
use Prim.Native.Nat.{ℕ, zero, suc, ◌+◌, ◌≤◌}
use mathlib.Core.Path.{◌≡◌, refl}
use mathlib.Core.Bool.{Bool, true, false}
use mathlib.Core.Option
use mathlib.Core.Option.{Option, none, some}
use mathlib.Core.List.{List, [], ◌∷◌, ◌++◌}
use native.Mathlib.Omega.{arith}
use linux_patch_api.Prelude.Tests.{if◌then◌else◌, ◌==◌}

module _ {ℓ} {A : Type ℓ} where
  abbrev pub length : List A → ℕ
  length [] = 0
  length (x ∷ xs) = suc (length xs)

  -- `Vec::truncate`.
  abbrev pub take : ℕ → List A → List A
  take zero xs = []
  take (suc n) [] = []
  take (suc n) (x ∷ xs) = x ∷ take n xs

  -- `Vec::retain` with a test.
  abbrev pub filter : (A → Bool) → List A → List A
  filter p [] = []
  filter p (x ∷ xs) = let rest = filter p xs in if p x then x ∷ rest else rest

  -- `Iterator::any`.
  abbrev pub any : (A → Bool) → List A → Bool
  any p [] = false
  any p (x ∷ xs) = let rest = any p xs in if p x then true else rest

  pub length-append : (xs ys : List A) → length (xs ++ ys) ≡ length xs + length ys
  length-append [] ys = omega arith
  length-append (x ∷ xs) ys = omega (arith, length-append xs ys)

  pub length-filter-le : (p : A → Bool) (xs : List A) → length (filter p xs) ≤ length xs
  length-filter-le p [] = omega arith
  length-filter-le p (x ∷ xs) = ground (arith, length-filter-le p xs)

  pub length-take-le : (n : ℕ) (xs : List A) → length (take n xs) ≤ n
  length-take-le zero xs = omega arith
  length-take-le (suc n) [] = omega arith
  length-take-le (suc n) (x ∷ xs) = omega (arith, length-take-le n xs)

module _ {ℓ} {A : Type ℓ} where
  pub filter-append :
      (p : A → Bool) (xs ys : List A) → filter p (xs ++ ys) ≡ filter p xs ++ filter p ys
  filter-append p [] ys = refl
  filter-append p (x ∷ xs) ys = ground (arith, filter-append p xs ys)

  -- What no element passes, no kept element passes.
  pub any-filter : (p q : A → Bool) (xs : List A) → any p xs ≡ false → any p (filter q xs) ≡ false
  any-filter p q [] h = refl
  any-filter p q (x ∷ xs) h = ground (arith, any-filter p q xs)

  pub filter_hit :
      (p : A → Bool) (a : A) (xs ys : List A)
      → p a ≡ true
      → filter p (xs ++ a ∷ ys) ≡ filter p xs ++ a ∷ filter p ys
  filter_hit p a [] ys h = ground arith
  filter_hit p a (x ∷ xs) ys h = ground (arith, filter_hit p a xs ys h)

  pub filter_miss :
      (p : A → Bool) (a : A) (xs ys : List A)
      → p a ≡ false
      → filter p (xs ++ a ∷ ys) ≡ filter p xs ++ filter p ys
  filter_miss p a [] ys h = ground arith
  filter_miss p a (x ∷ xs) ys h = ground (arith, filter_miss p a xs ys h)

  pub any-append :
      (p : A → Bool) (xs ys : List A)
      → any p xs ≡ false
      → any p ys ≡ false
      → any p (xs ++ ys) ≡ false
  any-append p [] ys hx hy = hy
  any-append p (x ∷ xs) ys hx hy = ground (arith, any-append p xs ys)

module _ {ℓ} {A : Type ℓ} where
  abbrev pub drop : ℕ → List A → List A
  drop zero xs = xs
  drop (suc n) [] = []
  drop (suc n) (x ∷ xs) = drop n xs

-- Equality and membership of lists of numbers.
abbrev pub list_eq : List ℕ → List ℕ → Bool
list_eq [] [] = true
list_eq [] (y ∷ ys) = false
list_eq (x ∷ xs) [] = false
list_eq (x ∷ xs) (y ∷ ys) = let rest = list_eq xs ys in if x == y then rest else false

-- The text starts with these characters.
abbrev pub starts : List ℕ → List ℕ → Bool
starts [] ys = true
starts (x ∷ xs) [] = false
starts (x ∷ xs) (y ∷ ys) = let rest = starts xs ys in if x == y then rest else false

-- `str::find`: the first position at which the second text stands in the first.
abbrev pub find : List ℕ → List ℕ → Option ℕ
find [] t = if starts t [] then some 0 else none
find (x ∷ xs) t = let rest = find xs t in if starts t (x ∷ xs) then some 0 else Option.map suc rest

pub eq_of_list_eq : (xs ys : List ℕ) → list_eq xs ys ≡ true → xs ≡ ys
eq_of_list_eq [] [] h = refl
eq_of_list_eq [] (y ∷ ys) h = ground arith
eq_of_list_eq (x ∷ xs) [] h = ground arith
eq_of_list_eq (x ∷ xs) (y ∷ ys) h = ground (arith, eq_of_list_eq xs ys)

pub list_eq_refl : (xs : List ℕ) → list_eq xs xs ≡ true
list_eq_refl [] = refl
list_eq_refl (x ∷ xs) = ground (arith, list_eq_refl xs)

pub list_eq_comm : (xs ys : List ℕ) → list_eq xs ys ≡ list_eq ys xs
list_eq_comm [] [] = refl
list_eq_comm [] (y ∷ ys) = refl
list_eq_comm (x ∷ xs) [] = refl
list_eq_comm (x ∷ xs) (y ∷ ys) = ground (arith, list_eq_comm xs ys)
