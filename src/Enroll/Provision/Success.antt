-- ===== src/Enroll/Provision/Success.antt =====
-- When a write succeeds: `write_pem_file` of src/enroll/provision.rs on a disk that works.
use linux_patch_api.Prelude.{
  ℕ, suc, Bool, true, false, List, list_eq, list_eq_refl, Option, none, some, if◌then◌else◌, ◌≡◌,
  refl, sym, ◌∙◌,
}
use linux_patch_api.Prelude.Result.{ok, err, is_ok}
use linux_patch_api.Enroll.Disk.{
  File, Disk, Outcome, done, DiskError, temp_path, backup_path, After, continue_with, parent,
  has_parent, key_mode, cert_mode, create_new, write_all, rename, copy,
}
use linux_patch_api.Enroll.Disk.Outcomes.{put_apart}
use linux_patch_api.Enroll.Provision.{ensure_dir, back_up, replace, write_pem_file}

module _ (fault : ℕ → Outcome) (works : (n : ℕ) → fault n ≡ done) (p text : List ℕ) (mode : ℕ) where
  -- Nothing is in the way of a temporary file.
  abbrev Clear : Disk → Type 0
  Clear d = (d.files (temp_path p) ≡ none) × (has_parent d (temp_path p) ≡ true)

  -- A success that leaves the way clear.
  abbrev Cleared : After DiskError (Unit {0}) → Type 0
  Cleared (d, ok u) = Clear d
  Cleared (d, err e) = true ≡ false

  replace-ok : (d : Disk) → Clear d → is_ok (replace fault p text mode d).1 ≡ true
  unfolding replace create_new write_all rename
  replace-ok d (free, here) =
      rw
        (
          works d.clock,
          free,
          here,
          works (suc d.clock),
          works (suc (suc d.clock)),
          list_eq_refl (temp_path p),
        )
        refl

  back_up-Cleared :
      (d : Disk) (old : Option File)
      → d.files p ≡ old
      → list_eq (backup_path p) (temp_path p) ≡ false
      → Clear d
      → Cleared (back_up fault p d)
  unfolding back_up copy
  back_up-Cleared d none o apart c = rw o c
  back_up-Cleared d (some f) o apart (free, here) =
      rw (o, works d.clock)
        (put_apart (backup_path p) (temp_path p) (some f) d.files apart ∙ free, here)

  ensure_dir-Cleared :
      (d : Disk) (dir : List ℕ)
      → d.dirs dir ≡ true
      → Clear d
      → Cleared (ensure_dir fault (some dir) d)
  unfolding ensure_dir
  ensure_dir-Cleared d dir there c = rw there c

  then-Cleared :
      (r : After DiskError (Unit {0})) (f : Unit {0} → Disk → After DiskError (Unit {0}))
      → Cleared r
      → ((d : Disk) → Clear d → Cleared (f tt d))
      → Cleared (continue_with r f)
  then-Cleared (d, ok tt) f h k = k d h
  then-Cleared (d, err e) f h k = h

  then-ok :
      (r : After DiskError (Unit {0})) (f : Unit {0} → Disk → After DiskError (Unit {0}))
      → Cleared r
      → ((d : Disk) → Clear d → is_ok (f tt d).1 ≡ true)
      → is_ok (continue_with r f).1 ≡ true
  then-ok (d, ok tt) f h k = k d h
  then-ok (d, err e) f h k = sym h

-- On a disk on which every operation is done, a file in a directory that exists can always be written,
-- unless its temporary file is in the way. The backup is another path than the temporary file, which
-- stands in the same directory.
write_pem_file-succeeds :
    (fault : ℕ → Outcome) (p text dir : List ℕ) (is_key : Bool) (before : Disk)
    → ((n : ℕ) → fault n ≡ done)
    → parent p ≡ some dir
    → parent (temp_path p) ≡ some dir
    → before.dirs dir ≡ true
    → list_eq (backup_path p) (temp_path p) ≡ false
    → before.files (temp_path p) ≡ none
    → is_ok (write_pem_file fault p text is_key before).1 ≡ true
unfolding write_pem_file
write_pem_file-succeeds fault p text dir is_key before works above above_temp there apart free =
    let mode = if is_key then key_mode else cert_mode in
    let clear : Clear fault works p text mode before = (free, rw (has_parent, above_temp) there) in
    rw above (
      then-ok fault works p text mode
        (continue_with (ensure_dir fault (some dir) before) (λ _. back_up fault p))
        (λ _. replace fault p text mode)
        (then-Cleared fault works p text mode (ensure_dir fault (some dir) before)
          (λ _. back_up fault p) (ensure_dir-Cleared fault works p text mode before dir there clear)
          (λ d c. back_up-Cleared fault works p text mode d (d.files p) refl apart c))
        (λ d c. replace-ok fault works p text mode d c))
