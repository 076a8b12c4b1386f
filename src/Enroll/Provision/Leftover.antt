-- ===== src/Enroll/Provision/Leftover.antt =====
-- A temporary file left behind by an earlier write: `write_pem_file` of src/enroll/provision.rs.
use linux_patch_api.Prelude.{
  ℕ, Bool, true, false, List, list_eq, is_some, some, if◌then◌else◌, ◌≡◌, refl, ap, ◌∙◌, arith,
}
use linux_patch_api.Prelude.Result.{ok, err, is_ok}
use linux_patch_api.Enroll.Disk.{
  File, Disk, Outcome, done, refused, cut, DiskError, temp_path, backup_path, After, continue_with,
  when_done, create_into, parent, has_parent, key_mode, cert_mode, create_new, write_all, rename,
  copy, temp_create, tick,
}
use linux_patch_api.Enroll.Disk.Outcomes.{
  Leaves, continue-Leaves, weaken-Leaves, Same, Copies, Others, put_apart, copy-Leaves,
}
use linux_patch_api.Enroll.Provision.{ensure_dir, back_up, replace, write_pem_file}
use linux_patch_api.Enroll.Provision.Pem.{ensure_dir-Leaves, unless_there-Leaves}

-- No success at all.
abbrev Never : Unit {0} → Disk → Type 0
Never u d = true ≡ false

abbrev Anything : Disk → Type 0
Anything d = Unit {0}

Never-err : (r : After DiskError (Unit {0})) → Leaves Never Anything r → is_ok r.1 ≡ false
Never-err (d, ok u) h = ground (arith, h)
Never-err (d, err e) h = refl

module _ (fault : ℕ → Outcome) (p text : List ℕ) (mode : ℕ) (left : File) where
  abbrev Blocked : Disk → Type 0
  Blocked d = d.files (temp_path p) ≡ some left

  when_done-Never :
      (o : Outcome) (a b : After DiskError (Unit {0}))
      → Leaves Never Anything a
      → Leaves Never Anything b
      → Leaves Never Anything (when_done o a b)
  when_done-Never done a b ha hb = ha
  when_done-Never refused a b ha hb = hb
  when_done-Never (cut k) a b ha hb = hb

  create_new-Never :
      (d : Disk) → Blocked d → Leaves Never Anything (create_new fault (temp_path p) mode d)
  unfolding create_new
  create_new-Never d b =
      when_done-Never (fault d.clock)
        (create_into fault (temp_path p) mode d (is_some (d.files (temp_path p)))
          (has_parent d (temp_path p)))
        (tick d, err (temp_create (temp_path p))) (rw b tt) tt

  replace-Never : (d : Disk) → Blocked d → Leaves Never Anything (replace fault p text mode d)
  unfolding replace
  replace-Never d b =
      let created = create_new fault (temp_path p) mode d in
      continue-Leaves Never Never Anything
        (continue_with created (λ _. write_all fault (temp_path p) text mode))
        (λ _. rename fault (temp_path p) p)
        (continue-Leaves Never Never Anything created (λ _. write_all fault (temp_path p) text mode)
          (create_new-Never d b) (λ _ d' h. ground (arith, h)))
        (λ _ d' h. ground (arith, h))

  back_up-Blocked :
      (d : Disk)
      → list_eq (backup_path p) (temp_path p) ≡ false
      → Blocked d
      → Leaves (λ _. Blocked) Anything (back_up fault p d)
  unfolding back_up
  back_up-Blocked d apart b =
      unless_there-Leaves fault p text mode d (λ _. Blocked) Anything (is_some (d.files p))
        (copy fault p (backup_path p) d) (d, ok tt)
        (weaken-Leaves (λ _. Copies p (backup_path p) d) (λ _. Blocked) (Others (backup_path p) d)
          Anything (copy fault p (backup_path p) d)
          (λ _ d' (g, at_p, e).
            rw e (put_apart (backup_path p) (temp_path p) (some g) d.files apart ∙ b))
          (λ d' o. tt) (copy-Leaves fault p (backup_path p) d))
        b

-- While a temporary file of the target exists, which a write that was interrupted or cut short leaves
-- behind, every write of that target fails, however well the disk works. The backup must be another
-- path than the temporary file.
pub write_pem_file-blocked :
    (fault : ℕ → Outcome) (p text : List ℕ) (is_key : Bool) (before : Disk) (left : File)
    → list_eq (backup_path p) (temp_path p) ≡ false
    → before.files (temp_path p) ≡ some left
    → is_ok (write_pem_file fault p text is_key before).1 ≡ false
unfolding write_pem_file
write_pem_file-blocked fault p text is_key before left apart there =
    let mode = if is_key then key_mode else cert_mode in
    let Stopped = Blocked fault p text mode left in
    let made = ensure_dir fault (parent p) before in
    let saved = continue_with made (λ _. back_up fault p) in
    let after = continue_with saved (λ _. replace fault p text mode) in
    Never-err after (
      continue-Leaves (λ _. Stopped) Never Anything saved (λ _. replace fault p text mode)
        (continue-Leaves (λ _. Stopped) (λ _. Stopped) Anything made (λ _. back_up fault p)
          (weaken-Leaves (λ _. Same before) (λ _. Stopped) (Same before) Anything made
            (λ _ d e. ap (λ fs. fs (temp_path p)) e ∙ there) (λ d e. tt)
            (ensure_dir-Leaves fault p text mode before (parent p)))
          (λ _ d b. back_up-Blocked fault p text mode left d apart b))
        (λ _ d b. replace-Never fault p text mode left d b))
