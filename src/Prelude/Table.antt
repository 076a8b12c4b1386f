-- ===== src/Prelude/Table.antt =====
-- `HashMap<Uuid, V>` as an association list. An id is a number; the order of the list stands for
-- the map's iteration order, about which nothing is assumed.
use Prim.Native.Nat.{ℕ, ◌+◌, ◌≤◌}
use mathlib.Core.Path.{◌≡◌, refl}
use mathlib.Core.Bool.{Bool}
use mathlib.Core.Option.{Option, none, some}
use mathlib.Core.Option
use mathlib.Core.List.{List, [], ◌∷◌}
use native.Mathlib.Omega.{arith}
use linux_patch_api.Prelude.Tests.{if◌then◌else◌, ◌==◌, to_nat}

module _ {ℓ} {V : Type ℓ} where
  -- `get`.
  unfoldable pub get : ℕ → List (ℕ × V) → Option V
  get k [] = none
  get k ((j, v) ∷ m) = let rest = get k m in if j == k then some v else rest

  -- `insert`: an old value of the key is replaced.
  unfoldable pub insert : ℕ → V → List (ℕ × V) → List (ℕ × V)
  insert k v [] = (k, v) ∷ []
  insert k v ((j, w) ∷ m) = let rest = insert k v m in if j == k then (k, v) ∷ m else (j, w) ∷ rest

  -- `remove`.
  unfoldable pub remove : ℕ → List (ℕ × V) → List (ℕ × V)
  remove k [] = []
  remove k ((j, w) ∷ m) = let rest = remove k m in if j == k then rest else (j, w) ∷ rest

  -- `get_mut` and an assignment through the reference: nothing happens on a missing key.
  unfoldable pub modify : ℕ → (V → V) → List (ℕ × V) → List (ℕ × V)
  modify k f [] = []
  modify k f ((j, w) ∷ m) =
      let rest = modify k f m in if j == k then (j, f w) ∷ m else (j, w) ∷ rest

  -- A loop over `iter_mut` that sees the key.
  unfoldable pub modify_each : (ℕ → V → V) → List (ℕ × V) → List (ℕ × V)
  modify_each f [] = []
  modify_each f ((j, w) ∷ m) = (j, f j w) ∷ modify_each f m

  -- `values().cloned().collect()`.
  abbrev pub values : List (ℕ × V) → List V
  values [] = []
  values ((j, w) ∷ m) = w ∷ values m

  -- `values().filter(p).count()`.
  unfoldable pub count : (V → Bool) → List (ℕ × V) → ℕ
  count p [] = 0
  count p ((j, w) ∷ m) = to_nat (p w) + count p m

  -- The share of an optional value in such a count.
  abbrev pub hit : (V → Bool) → Option V → ℕ
  hit p none = 0
  hit p (some v) = to_nat (p v)

module _ {ℓ} {V : Type ℓ} where
  pub get-insert :
      (k j : ℕ) (v : V) (m : List (ℕ × V))
      → get j (insert k v m) ≡ (if k == j then some v else get j m)
  unfolding get insert
  get-insert k j v [] = refl
  get-insert k j v ((i, w) ∷ m) = ground (arith, get-insert k j v m)

  pub get-remove :
      (k j : ℕ) (m : List (ℕ × V)) → get j (remove k m) ≡ (if k == j then none else get j m)
  unfolding get remove
  get-remove k j [] = ground arith
  get-remove k j ((i, w) ∷ m) = ground (arith, get-remove k j m)

  pub get-modify :
      (k j : ℕ) (f : V → V) (m : List (ℕ × V))
      → get j (modify k f m) ≡ (if k == j then Option.map f (get j m) else get j m)
  unfolding get modify
  get-modify k j f [] = ground arith
  get-modify k j f ((i, w) ∷ m) = ground (arith, get-modify k j f m)

  pub get-modify_each :
      (f : ℕ → V → V) (j : ℕ) (m : List (ℕ × V))
      → get j (modify_each f m) ≡ Option.map (f j) (get j m)
  unfolding get modify_each
  get-modify_each f j [] = refl
  get-modify_each f j ((i, w) ∷ m) = ground (arith, get-modify_each f j m)

  -- Removing a fresh key that was just inserted gives the old map back.
  pub remove-insert :
      (k : ℕ) (v : V) (m : List (ℕ × V)) → get k m ≡ none → remove k (insert k v m) ≡ m
  unfolding get remove insert
  remove-insert k v [] h = ground arith
  remove-insert k v ((i, w) ∷ m) h = ground (arith, remove-insert k v m)

  pub count-insert :
      (p : V → Bool) (k : ℕ) (v : V) (m : List (ℕ × V))
      → count p (insert k v m) + hit p (get k m) ≡ count p m + to_nat (p v)
  unfolding count insert get
  count-insert p k v [] = omega arith
  count-insert p k v ((i, w) ∷ m) = ground (arith, count-insert p k v m)

  pub count-modify :
      (p : V → Bool) (k : ℕ) (f : V → V) (m : List (ℕ × V))
      → count p (modify k f m) + hit p (get k m) ≡ count p m + hit p (Option.map f (get k m))
  unfolding count modify get
  count-modify p k f [] = refl
  count-modify p k f ((i, w) ∷ m) = ground (arith, count-modify p k f m)

  pub count-remove-le : (p : V → Bool) (k : ℕ) (m : List (ℕ × V)) → count p (remove k m) ≤ count p m
  unfolding count remove
  count-remove-le p k [] = omega arith
  count-remove-le p k ((i, w) ∷ m) = ground (arith, count-remove-le p k m)

  -- A loop that makes no new value count cannot raise the count.
  pub count-modify_each-le :
      (p : V → Bool) (f : ℕ → V → V) (m : List (ℕ × V))
      → ((k : ℕ) (v : V) → to_nat (p (f k v)) ≤ to_nat (p v))
      → count p (modify_each f m) ≤ count p m
  unfolding count modify_each
  count-modify_each-le p f [] h = omega arith
  count-modify_each-le p f ((i, w) ∷ m) h = omega (arith, h i w, count-modify_each-le p f m h)

module _ {ℓ} {V : Type ℓ} where
  pub hit-map-le :
      (p : V → Bool) (f : V → V) (o : Option V)
      → ((v : V) → to_nat (p (f v)) ≤ to_nat (p v))
      → hit p (Option.map f o) ≤ hit p o
  hit-map-le p f none h = omega arith
  hit-map-le p f (some v) h = h v

-- No key stands twice, as in any `HashMap`.
abbrev pub Distinct {ℓ} : {V : Type ℓ} → List (ℕ × V) → Type ℓ
Distinct [] = Unit
Distinct ((k, v) ∷ m) = (get k m ≡ none) × Distinct m

module _ {ℓ} {V : Type ℓ} where
  pub insert-Distinct : (k : ℕ) (v : V) (m : List (ℕ × V)) → Distinct m → Distinct (insert k v m)
  unfolding insert get
  insert-Distinct k v [] d = (refl, tt)
  insert-Distinct k v ((j, w) ∷ m) d = ground (arith, insert-Distinct k v m d.1, get-insert k j v m)

  pub remove-Distinct : (k : ℕ) (m : List (ℕ × V)) → Distinct m → Distinct (remove k m)
  unfolding remove get
  remove-Distinct k [] d = tt
  remove-Distinct k ((j, w) ∷ m) d = ground (arith, remove-Distinct k m d.1, get-remove k j m)

  pub modify-Distinct :
      (k : ℕ) (f : V → V) (m : List (ℕ × V)) → Distinct m → Distinct (modify k f m)
  unfolding modify get
  modify-Distinct k f [] d = tt
  modify-Distinct k f ((j, w) ∷ m) d = ground (arith, modify-Distinct k f m d.1, get-modify k j f m)
