-- ===== src/Whitelist/Trimming.antt =====
-- Trimming twice is trimming once.
use linux_patch_api.Prelude.{ℕ, false, List, [], ◌∷◌, ◌≡◌, refl, ap, inl, inr, Bool-cases}
use linux_patch_api.Prelude.Text.{is_whitespace, trim, trim_start, trim_end, trim_end_one}

-- The text is empty or starts with another character than white space.
abbrev StartsBare : List ℕ → Type 0
StartsBare [] = Unit {0}
StartsBare (c ∷ cs) = is_whitespace c ≡ false

trim_start-StartsBare : (cs : List ℕ) → StartsBare (trim_start cs)
trim_start-StartsBare [] = tt
trim_start-StartsBare (c ∷ cs) = elim (Bool-cases (is_whitespace c)) [
  | inl h ↦ rw h (trim_start-StartsBare cs)
  | inr h ↦ rw h h
]

trim_start-id : (cs : List ℕ) → StartsBare cs → trim_start cs ≡ cs
trim_start-id [] h = refl
trim_start-id (c ∷ cs) h = rw h

one-StartsBare : (c : ℕ) (ds : List ℕ) → is_whitespace c ≡ false → StartsBare (trim_end_one c ds)
one-StartsBare c [] h = rw h h
one-StartsBare c (d ∷ ds) h = h

trim_end_one-fixed :
    (c : ℕ) (ds : List ℕ) → trim_end ds ≡ ds → trim_end (trim_end_one c ds) ≡ trim_end_one c ds
trim_end_one-fixed c [] e = elim (Bool-cases (is_whitespace c)) [ inl h ↦ rw h | inr h ↦ rw (h, h) ]
trim_end_one-fixed c (d ∷ ds) e = ap (trim_end_one c) e

trim_end-StartsBare : (cs : List ℕ) → StartsBare cs → StartsBare (trim_end cs)
trim_end-StartsBare [] h = tt
trim_end-StartsBare (c ∷ cs) h = one-StartsBare c (trim_end cs) h

trim_end-trim_end : (cs : List ℕ) → trim_end (trim_end cs) ≡ trim_end cs
trim_end-trim_end [] = refl
trim_end-trim_end (c ∷ cs) = trim_end_one-fixed c (trim_end cs) (trim_end-trim_end cs)

pub trim-trim : (cs : List ℕ) → trim (trim cs) ≡ trim cs
unfolding trim
trim-trim cs =
    rw (trim_start-id (trim_end (trim_start cs)) (trim_end-StartsBare _ (trim_start-StartsBare cs)))
      (trim_end-trim_end (trim_start cs))
