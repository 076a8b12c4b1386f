-- ===== src/Enroll/Disk/Outcomes.antt =====
-- Reasoning on the steps of Enroll/Disk.antt: what holds of a result, whichever way the disk fails.
use linux_patch_api.Prelude.{
  ℕ, Bool, true, false, List, [], list_eq, list_eq_refl, is_some, Option, none, some, if◌then◌else◌,
  ◌≡◌, refl,
}
use linux_patch_api.Prelude.Result.{ok, err}
use linux_patch_api.Enroll.Disk.{
  File, Disk, Outcome, done, refused, cut, DiskError, put, tick, After, DiskStep, continue_with,
  in_context, create_dir_all, set_dir_permissions, create_new, write_all, rename, copy, when_done,
  create_into, write_result, rename_file, copy_result, has_parent, fs_write, mode_of, temp_write,
}

-- What holds of the disk behind a success and behind a failure.
abbrev pub Leaves : {E A : Type 0} → (A → Disk → Type 0) → (Disk → Type 0) → After E A → Type 0
Leaves Good Bad (d, ok a) = Good a d
Leaves Good Bad (d, err e) = Bad d

pub continue-Leaves :
    {E A B : Type 0} (Mid : A → Disk → Type 0) (Good : B → Disk → Type 0) (Bad : Disk → Type 0)
    (r : After E A) (f : A → DiskStep E B)
    → Leaves Mid Bad r
    → ((a : A) (d : Disk) → Mid a d → Leaves Good Bad (f a d))
    → Leaves Good Bad (continue_with r f)
continue-Leaves Mid Good Bad (d, ok a) f h k = k a d h
continue-Leaves Mid Good Bad (d, err e) f h k = h

pub in_context-Leaves :
    {E F A : Type 0} (Good : A → Disk → Type 0) (Bad : Disk → Type 0) (wrap : E → F) (r : After E A)
    → Leaves Good Bad r
    → Leaves Good Bad (in_context wrap r)
in_context-Leaves Good Bad wrap (d, ok a) h = h
in_context-Leaves Good Bad wrap (d, err e) h = h

pub weaken-Leaves :
    {E A : Type 0} (Good Good' : A → Disk → Type 0) (Bad Bad' : Disk → Type 0) (r : After E A)
    → ((a : A) (d : Disk) → Good a d → Good' a d)
    → ((d : Disk) → Bad d → Bad' d)
    → Leaves Good Bad r
    → Leaves Good' Bad' r
weaken-Leaves Good Good' Bad Bad' (d, ok a) g b h = g a d h
weaken-Leaves Good Good' Bad Bad' (d, err e) g b h = b d h

pub put_same : (p : List ℕ) (f : Option File) (fs : List ℕ → Option File) → put p f fs p ≡ f
put_same p f fs = rw list_eq_refl refl

pub put_apart :
    (p q : List ℕ) (f : Option File) (fs : List ℕ → Option File)
    → list_eq p q ≡ false
    → put p f fs q ≡ fs q
put_apart p q f fs h = rw h refl

-- What an operation does to the files: nothing, a file is put, a file is moved or copied.
abbrev pub Same : Disk → Disk → Type 0
Same d d' = d'.files ≡ d.files

abbrev pub Puts : List ℕ → List ℕ → ℕ → Disk → Disk → Type 0
Puts p text mode d d' = d'.files ≡ put p (some (record { content = text; mode = mode })) d.files

abbrev pub Moves : List ℕ → List ℕ → Disk → Disk → Type 0
Moves from to d d' =
    (g : File) × (d.files from ≡ some g) × (d'.files ≡ put to (some g) (put from none d.files))

abbrev pub Copies : List ℕ → List ℕ → Disk → Disk → Type 0
Copies from to d d' = (g : File) × (d.files from ≡ some g) × (d'.files ≡ put to (some g) d.files)

-- A file is put, with some mode.
abbrev pub Holds : List ℕ → List ℕ → Disk → Disk → Type 0
Holds p text d d' = (mode : ℕ) × Puts p text mode d d'

-- Only this path has another file.
abbrev pub Others : List ℕ → Disk → Disk → Type 0
Others p d d' = (q : List ℕ) → list_eq p q ≡ false → d'.files q ≡ d.files q

module _ {E A : Type 0} (Good : A → Disk → Type 0) (Bad : Disk → Type 0) where
  when_done-Leaves :
      (o : Outcome) (a b : After E A)
      → Leaves Good Bad a
      → Leaves Good Bad b
      → Leaves Good Bad (when_done o a b)
  when_done-Leaves done a b ha hb = ha
  when_done-Leaves refused a b ha hb = hb
  when_done-Leaves (cut k) a b ha hb = hb

module _ (fault : ℕ → Outcome) where
  pub create_dir_all-Leaves :
      (dir : List ℕ) (d : Disk) → Leaves (λ _. Same d) (Same d) (create_dir_all fault dir d)
  unfolding create_dir_all
  create_dir_all-Leaves dir d =
      when_done-Leaves (λ _. Same d) (Same d) (fault d.clock) _ _ refl refl

  pub set_dir_permissions-Leaves :
      (dir : List ℕ) (d : Disk) → Leaves (λ _. Same d) (Same d) (set_dir_permissions fault dir d)
  unfolding set_dir_permissions
  set_dir_permissions-Leaves dir d =
      when_done-Leaves (λ _. Same d) (Same d) (fault d.clock) _ _ refl refl

  create_into-Leaves :
      (p : List ℕ) (mode : ℕ) (d : Disk) (there here : Bool)
      → Leaves (λ _. Puts p [] mode d) (Same d) (create_into fault p mode d there here)
  create_into-Leaves p mode d false true = refl
  create_into-Leaves p mode d false false = refl
  create_into-Leaves p mode d true here = refl

  pub create_new-Leaves :
      (p : List ℕ) (mode : ℕ) (d : Disk)
      → Leaves (λ _. Puts p [] mode d) (Same d) (create_new fault p mode d)
  unfolding create_new
  create_new-Leaves p mode d =
      when_done-Leaves (λ _. Puts p [] mode d) (Same d) (fault d.clock) _ _
        (create_into-Leaves p mode d (is_some (d.files p)) (has_parent d p)) refl

  write_result-Leaves :
      (o : Outcome) (p text : List ℕ) (mode : ℕ) (d : Disk)
      → Leaves (λ _. Puts p text mode d) (Others p d) (write_result fault o p text mode d)
  write_result-Leaves done p text mode d = refl
  write_result-Leaves refused p text mode d = λ q h. refl
  write_result-Leaves (cut k) p text mode d = λ q h. put_apart p q _ d.files h

  pub write_all-Leaves :
      (p text : List ℕ) (mode : ℕ) (d : Disk)
      → Leaves (λ _. Puts p text mode d) (Others p d) (write_all fault p text mode d)
  unfolding write_all
  write_all-Leaves p text mode d = write_result-Leaves (fault d.clock) p text mode d

  rename_file-Leaves :
      (from to : List ℕ) (f : Option File) (d : Disk)
      → Leaves
          (λ _ d'. (g : File) × (f ≡ some g) × (d'.files ≡ put to (some g) (put from none d.files)))
          (Same d)
          (rename_file fault from to f d)
  rename_file-Leaves from to none d = refl
  rename_file-Leaves from to (some f) d = (f, refl, refl)

  pub rename-Leaves :
      (from to : List ℕ) (d : Disk)
      → Leaves (λ _. Moves from to d) (Same d) (rename fault from to d)
  unfolding rename
  rename-Leaves from to d =
      when_done-Leaves (λ _. Moves from to d) (Same d) (fault d.clock) _ _
        (rename_file-Leaves from to (d.files from) d) refl

  copy_result-Leaves :
      (o : Outcome) (from to : List ℕ) (f : Option File) (d : Disk)
      → Leaves
          (λ _ d'. (g : File) × (f ≡ some g) × (d'.files ≡ put to (some g) d.files))
          (Others to d)
          (copy_result fault o from to f d)
  copy_result-Leaves o from to none d = λ q h. refl
  copy_result-Leaves done from to (some f) d = (f, refl, refl)
  copy_result-Leaves refused from to (some f) d = λ q h. refl
  copy_result-Leaves (cut k) from to (some f) d = λ q h. put_apart to q _ d.files h

  pub copy-Leaves :
      (from to : List ℕ) (d : Disk)
      → Leaves (λ _. Copies from to d) (Others to d) (copy fault from to d)
  unfolding copy
  copy-Leaves from to d = copy_result-Leaves (fault d.clock) from to (d.files from) d

  if_here-Leaves :
      (Good : Unit {0} → Disk → Type 0) (Bad : Disk → Type 0) (here : Bool)
      (a b : After DiskError (Unit {0}))
      → Leaves Good Bad a
      → Leaves Good Bad b
      → Leaves Good Bad (if here then a else b)
  if_here-Leaves Good Bad true a b ha hb = ha
  if_here-Leaves Good Bad false a b ha hb = hb

  pub fs_write-Leaves :
      (p text : List ℕ) (d : Disk)
      → Leaves (λ _. Holds p text d) (Others p d) (fs_write fault p text d)
  unfolding fs_write
  fs_write-Leaves p text d =
      let mode = mode_of fault (d.files p) in
      let result = write_result fault (fault d.clock) p text mode d in
      if_here-Leaves (λ _. Holds p text d) (Others p d) (has_parent d p) result
        (tick d, err (temp_write p))
        (weaken-Leaves (λ _. Puts p text mode d) (λ _. Holds p text d) (Others p d) (Others p d)
          result (λ _ d' e. (mode, e)) (λ d' o. o)
          (write_result-Leaves (fault d.clock) p text mode d))
        (λ q h. refl)
