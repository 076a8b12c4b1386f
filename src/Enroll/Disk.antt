-- ===== src/Enroll/Disk.antt =====
-- The files that provisioning writes: what src/enroll/provision.rs uses of `std::fs`, on a disk that
-- may fail at any operation. Paths are absolute, without a trailing slash.
pub mod Outcomes
use linux_patch_api.Prelude.{
  ℕ, suc, Bool, true, false, List, [], ◌∷◌, ◌++◌, take, starts, list_eq, is_some, Option, none,
  some, if◌then◌else◌,
}
use linux_patch_api.Prelude.Result.{Result, ok, err}
use linux_patch_api.Prelude.Text.{codes}
use linux_patch_api.Packages.Splitting.{split_last}

pub record File : Type 0 where
  pub content : List ℕ
  pub mode : ℕ

-- The files and the directories, and the number of operations so far.
pub record Disk : Type 0 where
  pub files : List ℕ → Option File
  pub dirs : List ℕ → Bool
  pub clock : ℕ

-- How the next operation goes: it is done as far as the disk allows it, refused, or cut short after
-- some bytes were written.
pub data Outcome : Type 0 where
  done refused : Outcome
  cut : ℕ → Outcome

-- An operation that failed, with its path.
pub data DiskError : Type 0 where
  create_directory set_permissions backup temp_create temp_write rename_temp : List ℕ → DiskError

abbrev pub put : List ℕ → Option File → (List ℕ → Option File) → List ℕ → Option File
put p f files q = if list_eq p q then f else files q

abbrev pub tick : Disk → Disk
tick d = record d { clock = suc d.clock }

abbrev pub store : List ℕ → Option File → Disk → Disk
store p f d = record d { files = put p f d.files; clock = suc d.clock }

-- `Path::parent`.
unfoldable pub parent : List ℕ → Option (List ℕ)
parent p =
    if list_eq p []
    then none
    else if list_eq p (codes "/")
    then none
    else elim (split_last b'/' p) [
      | none ↦ some []
      | some r ↦ some (if list_eq r.0 [] then codes "/" else r.0)
    ]

abbrev pub has_parent : Disk → List ℕ → Bool
has_parent d p = elim (parent p) [ none ↦ true | some dir ↦ d.dirs dir ]

-- `Path::with_extension("tmp")` and `format!("{}.bak", path)`.
abbrev pub stem : List ℕ → List ℕ
stem name = elim (split_last b'.' name) [
  | none ↦ name
  | some r ↦ if list_eq r.0 [] then name else r.0
]

unfoldable pub temp_path : List ℕ → List ℕ
temp_path p = elim (split_last b'/' p) [
  | none ↦ stem p ++ codes ".tmp"
  | some r ↦ r.0 ++ b'/' ∷ stem r.1 ++ codes ".tmp"
]

unfoldable pub backup_path : List ℕ → List ℕ
backup_path p = p ++ codes ".bak"

-- What an operation leaves and returns.
abbrev pub After : Type 0 → Type 0 → Type 0
After E A = Disk × Result E A

abbrev pub DiskStep : Type 0 → Type 0 → Type 0
DiskStep E A = Disk → After E A

abbrev pub continue_with : {E A B : Type 0} → After E A → (A → DiskStep E B) → After E B
continue_with (d, ok a) f = f a d
continue_with (d, err e) f = (d, err e)

-- `with_context`: another error, the same disk.
abbrev pub in_context : {E F A : Type 0} → (E → F) → After E A → After F A
in_context wrap (d, ok a) = (d, ok a)
in_context wrap (d, err e) = (d, err (wrap e))

infixl 5 ◌>>=◌ ◌>>◌
abbrev pub ◌>>=◌ : {E A B : Type 0} → DiskStep E A → (A → DiskStep E B) → DiskStep E B
(m >>= f) d = continue_with (m d) f

abbrev pub ◌>>◌ : {E B : Type 0} → DiskStep E (Unit {0}) → DiskStep E B → DiskStep E B
m >> k = m >>= λ _. k

abbrev pub pass : {E : Type 0} → DiskStep E (Unit {0})
pass d = (d, ok tt)

abbrev pub fails : {E A : Type 0} → E → DiskStep E A
fails e d = (d, err e)

abbrev pub when_done : {A : Type 0} → Outcome → A → A → A
when_done done a other = a
when_done refused a other = other
when_done (cut k) a other = other

-- The modes 0o600, 0o644 and 0o755.
abbrev pub key_mode : ℕ
key_mode = 384

abbrev pub cert_mode : ℕ
cert_mode = 420

module _ (fault : ℕ → Outcome) where
  abbrev give_up : DiskError → Disk → After DiskError (Unit {0})
  give_up e d = (tick d, err e)

  -- `create_dir_all`: the directory and all above it.
  unfoldable pub create_dir_all : List ℕ → DiskStep DiskError (Unit {0})
  create_dir_all dir d =
      when_done (fault d.clock)
        (
          record d {
            dirs = λ q. if starts (q ++ codes "/") (dir ++ codes "/") then true else d.dirs q;
            clock = suc d.clock;
          },
          ok tt,
        )
        (give_up (create_directory dir) d)

  -- `metadata` and `set_permissions` of a directory, whose mode nothing reads.
  unfoldable pub set_dir_permissions : List ℕ → DiskStep DiskError (Unit {0})
  set_dir_permissions dir d =
      when_done (fault d.clock) (tick d, ok tt) (give_up (set_permissions dir) d)

  abbrev pub create_into : List ℕ → ℕ → Disk → Bool → Bool → After DiskError (Unit {0})
  create_into p mode d false true = (store p (some (record { content = []; mode = mode })) d, ok tt)
  create_into p mode d false false = give_up (temp_create p) d
  create_into p mode d true here = give_up (temp_create p) d

  -- `OpenOptions` with `create_new`: never on a path that exists.
  unfoldable pub create_new : List ℕ → ℕ → DiskStep DiskError (Unit {0})
  unfolding parent
  create_new p mode d =
      when_done (fault d.clock) (create_into p mode d (is_some (d.files p)) (has_parent d p))
        (give_up (temp_create p) d)

  abbrev pub write_result : Outcome → List ℕ → List ℕ → ℕ → Disk → After DiskError (Unit {0})
  write_result done p text mode d =
      (store p (some (record { content = text; mode = mode })) d, ok tt)
  write_result refused p text mode d = give_up (temp_write p) d
  write_result (cut k) p text mode d =
      (store p (some (record { content = take k text; mode = mode })) d, err (temp_write p))

  -- `write_all` into the file that was just created.
  unfoldable pub write_all : List ℕ → List ℕ → ℕ → DiskStep DiskError (Unit {0})
  write_all p text mode d = write_result (fault d.clock) p text mode d

  abbrev pub mode_of : Option File → ℕ
  mode_of none = cert_mode
  mode_of (some f) = f.mode

  -- `std::fs::write`: a file that exists keeps its mode.
  unfoldable pub fs_write : List ℕ → List ℕ → DiskStep DiskError (Unit {0})
  unfolding parent
  fs_write p text d =
      if has_parent d p
      then write_result (fault d.clock) p text (mode_of (d.files p)) d
      else give_up (temp_write p) d

  abbrev pub rename_file : List ℕ → List ℕ → Option File → Disk → After DiskError (Unit {0})
  rename_file from to none d = give_up (rename_temp to) d
  rename_file from to (some f) d =
      (record d { files = put to (some f) (put from none d.files); clock = suc d.clock }, ok tt)

  -- `rename`.
  unfoldable pub rename : List ℕ → List ℕ → DiskStep DiskError (Unit {0})
  rename from to d =
      when_done (fault d.clock) (rename_file from to (d.files from) d) (give_up (rename_temp to) d)

  abbrev pub copy_result :
      Outcome → List ℕ → List ℕ → Option File → Disk → After DiskError (Unit {0})
  copy_result o from to none d = give_up (backup from) d
  copy_result done from to (some f) d = (store to (some f) d, ok tt)
  copy_result refused from to (some f) d = give_up (backup from) d
  copy_result (cut k) from to (some f) d =
      (store to (some (record f { content = take k f.content })) d, err (backup from))

  -- `copy`, with the mode.
  unfoldable pub copy : List ℕ → List ℕ → DiskStep DiskError (Unit {0})
  copy from to d = copy_result (fault d.clock) from to (d.files from) d

  -- `set_permissions` of a file.
  unfoldable pub set_file_mode : List ℕ → ℕ → DiskStep DiskError (Unit {0})
  set_file_mode p mode d =
      when_done (fault d.clock)
        (elim (d.files p) [
          | none ↦ give_up (set_permissions p) d
          | some f ↦ (store p (some (record f { mode = mode })) d, ok tt)
        ])
        (give_up (set_permissions p) d)

  abbrev contents : Outcome → Option File → Option (List ℕ)
  contents done none = none
  contents done (some f) = some f.content
  contents refused f = none
  contents (cut k) f = none

  -- `read_to_string(..).ok()`, of text.
  unfoldable pub read_to_string : {E : Type 0} → List ℕ → DiskStep E (Option (List ℕ))
  read_to_string p d = (tick d, ok (contents (fault d.clock) (d.files p)))
