-- ===== src/Enroll/Provision/Pem.antt =====
-- One file: what `write_pem_file` of src/enroll/provision.rs leaves, whichever operation fails.
use linux_patch_api.Prelude.{
  ℕ, Bool, true, false, List, [], list_eq, list_eq_comm, is_some, Option, none, some, if◌then◌else◌,
  ◌≡◌, refl, sym, ap, ◌∙◌,
}
use linux_patch_api.Prelude.Result.{ok}
use linux_patch_api.Enroll.Disk.{
  File, Disk, Outcome, DiskError, temp_path, backup_path, After, continue_with, put, parent,
  key_mode, cert_mode, create_new, write_all, rename, copy, set_dir_permissions,
}
use linux_patch_api.Enroll.Disk.Outcomes.{
  Leaves, continue-Leaves, weaken-Leaves, Same, Puts, Moves, Copies, Others, put_same, put_apart,
  create_new-Leaves, write_all-Leaves, rename-Leaves, copy-Leaves, create_dir_all-Leaves,
  set_dir_permissions-Leaves,
}
use linux_patch_api.Enroll.Provision.{ensure_dir, back_up, replace, write_pem_file}

-- The file, its temporary file and its backup are three different paths.
abbrev pub IsPlain : List ℕ → Type 0
IsPlain p =
    (list_eq (temp_path p) p ≡ false)
    × (list_eq (backup_path p) p ≡ false)
    × (list_eq (temp_path p) (backup_path p) ≡ false)

-- No file but the temporary one and the backup differs from before.
abbrev pub Kept : List ℕ → Disk → Disk → Type 0
Kept p before d =
    (q : List ℕ)
    → list_eq (temp_path p) q ≡ false
    → list_eq (backup_path p) q ≡ false
    → d.files q ≡ before.files q

abbrev pub older : Option File → Option File → Option File
older none backup = backup
older (some f) backup = some f

-- The backup holds the old file, if there was one.
abbrev pub Saved : List ℕ → Disk → Disk → Type 0
Saved p before d = d.files (backup_path p) ≡ older (before.files p) (before.files (backup_path p))

-- The new file is in place, with its mode, the old one is in the backup, and nothing else differs.
abbrev pub Written : List ℕ → List ℕ → ℕ → Disk → Disk → Type 0
Written p text mode before d =
    (d.files p ≡ some (record { content = text; mode = mode }))
    × Saved p before d
    × ((q : List ℕ)
        → list_eq p q ≡ false
        → list_eq (temp_path p) q ≡ false
        → list_eq (backup_path p) q ≡ false
        → d.files q ≡ before.files q)

module _ (fault : ℕ → Outcome) (p text : List ℕ) (mode : ℕ) (before : Disk) where
  abbrev Ready : Disk → Type 0
  Ready d = Kept p before d × Saved p before d

  abbrev Staged : List ℕ → Disk → Type 0
  Staged now d = Ready d × (d.files (temp_path p) ≡ some (record { content = now; mode = mode }))

  pub unless_there-Leaves :
      (Good : Unit {0} → Disk → Type 0) (Bad : Disk → Type 0) (here : Bool)
      (skip other : After DiskError (Unit {0}))
      → Leaves Good Bad skip
      → Leaves Good Bad other
      → Leaves Good Bad (if here then skip else other)
  unless_there-Leaves Good Bad true skip other hs ho = hs
  unless_there-Leaves Good Bad false skip other hs ho = ho

  chosen-Leaves :
      (Good : Unit {0} → Disk → Type 0) (Bad : Disk → Type 0) (there : Bool)
      (first other : After DiskError (Unit {0}))
      → there ≡ true
      → Leaves Good Bad first
      → Leaves Good Bad (if there then first else other)
  chosen-Leaves Good Bad there first other h l = rw h l

  pub ensure_dir-Leaves :
      (dir : Option (List ℕ))
      → Leaves (λ _. Same before) (Same before) (ensure_dir fault dir before)
  unfolding ensure_dir
  ensure_dir-Leaves none = refl
  ensure_dir-Leaves (some dir) =
      unless_there-Leaves (λ _. Same before) (Same before) (before.dirs dir) _ _ refl
        (continue-Leaves (λ _. Same before) (λ _. Same before) (Same before) _ _
          (create_dir_all-Leaves fault dir before)
          (λ _ d e.
            weaken-Leaves (λ _. Same d) (λ _. Same before) (Same d) (Same before)
              (set_dir_permissions fault dir d) (λ _ d' e'. e' ∙ e) (λ d' e'. e' ∙ e)
              (set_dir_permissions-Leaves fault dir d)))

  Others-Kept : (d d' : Disk) → Same before d → Others (backup_path p) d d' → Kept p before d'
  Others-Kept d d' e o q t b = rw (o q b, e) refl

  module _ (plain : IsPlain p) where
    Same-Kept : (d : Disk) → Same before d → Kept p before d
    Same-Kept d e q t b = ap (λ fs. fs q) e

    back_up-Leaves :
        (d : Disk) (old : Option File)
        → Same before d
        → d.files p ≡ old
        → Leaves (λ _. Ready) (Kept p before) (back_up fault p d)
    unfolding back_up
    back_up-Leaves d none e o =
        let old = sym (ap (λ fs. fs p) e) ∙ o in
        rw o (Same-Kept d e, rw old (ap (λ fs. fs (backup_path p)) e))
    back_up-Leaves d (some f) e o =
        let old = sym (ap (λ fs. fs p) e) ∙ o in
        chosen-Leaves (λ _. Ready) (Kept p before) (is_some (d.files p))
          (copy fault p (backup_path p) d) (d, ok tt) (rw o refl)
          (weaken-Leaves (λ _. Copies p (backup_path p) d) (λ _. Ready) (Others (backup_path p) d)
            (Kept p before) (copy fault p (backup_path p) d)
            (λ _ d' (g, at_p, e'). (
              (λ q t b. rw e' (put_apart (backup_path p) q _ d.files b ∙ ap (λ fs. fs q) e)),
              rw (e', old) (put_same (backup_path p) _ d.files ∙ (sym at_p ∙ o)),
            ))
            (λ d' o'. Others-Kept d d' e o') (copy-Leaves fault p (backup_path p) d))

    Puts-Staged :
        (now : List ℕ) (d d' : Disk) → Ready d → Puts (temp_path p) now mode d d' → Staged now d'
    Puts-Staged now d d' (k, s) e = (
      (
        (λ q t b. rw e (put_apart (temp_path p) q _ d.files t ∙ k q t b)),
        rw e (put_apart (temp_path p) (backup_path p) _ d.files plain.2 ∙ s),
      ),
      rw e (put_same (temp_path p) _ d.files),
    )

    Moves-Written :
        (d d' : Disk) → Staged text d → Moves (temp_path p) p d d' → Written p text mode before d'
    Moves-Written d d' ((k, s), t) (g, at_temp, e) =
        let moved = put (temp_path p) none d.files in
        (
          rw e (put_same p (some g) moved ∙ (sym at_temp ∙ t)),
          rw e (
              put_apart p (backup_path p) (some g) moved (list_eq_comm p (backup_path p) ∙ plain.1)
              ∙ (put_apart (temp_path p) (backup_path p) none d.files plain.2 ∙ s)),
          (λ q hp ht hb. rw e (
              put_apart p q (some g) moved hp
              ∙ (put_apart (temp_path p) q none d.files ht ∙ k q ht hb))),
        )

    replace-Leaves :
        (d : Disk)
        → Ready d
        → Leaves (λ _. Written p text mode before) (Kept p before) (replace fault p text mode d)
    unfolding replace
    replace-Leaves d r =
        continue-Leaves (λ _. Staged text) (λ _. Written p text mode before) (Kept p before) _ _
          (continue-Leaves (λ _. Staged []) (λ _. Staged text) (Kept p before) _ _
            (weaken-Leaves (λ _. Puts (temp_path p) [] mode d) (λ _. Staged []) (Same d)
              (Kept p before) (create_new fault (temp_path p) mode d)
              (λ _ d' e. Puts-Staged [] d d' r e) (λ d' e q t b. rw e (r.0 q t b))
              (create_new-Leaves fault (temp_path p) mode d))
            (λ _ d' st.
              weaken-Leaves (λ _. Puts (temp_path p) text mode d') (λ _. Staged text)
                (Others (temp_path p) d') (Kept p before)
                (write_all fault (temp_path p) text mode d')
                (λ _ d'' e. Puts-Staged text d' d'' st.0 e) (λ d'' o q t b. o q t ∙ st.0.0 q t b)
                (write_all-Leaves fault (temp_path p) text mode d')))
          (λ _ d' st.
            weaken-Leaves (λ _. Moves (temp_path p) p d') (λ _. Written p text mode before)
              (Same d') (Kept p before) (rename fault (temp_path p) p d')
              (λ _ d'' m. Moves-Written d' d'' st m) (λ d'' e q t b. rw e (st.0.0 q t b))
              (rename-Leaves fault (temp_path p) p d'))

    pub steps-Leaves :
        Leaves
          (λ _. Written p text mode before)
          (Kept p before)
          (continue_with
            (continue_with (ensure_dir fault (parent p) before) (λ _. back_up fault p))
            (λ _. replace fault p text mode))
    steps-Leaves =
        continue-Leaves (λ _. Ready) (λ _. Written p text mode before) (Kept p before)
          (continue_with (ensure_dir fault (parent p) before) (λ _. back_up fault p))
          (λ _. replace fault p text mode)
          (continue-Leaves (λ _. Same before) (λ _. Ready) (Kept p before)
            (ensure_dir fault (parent p) before) (λ _. back_up fault p)
            (weaken-Leaves (λ _. Same before) (λ _. Same before) (Same before) (Kept p before)
              (ensure_dir fault (parent p) before) (λ _ d e. e) (λ d e. Same-Kept d e)
              (ensure_dir-Leaves (parent p)))
            (λ _ d e. back_up-Leaves d (d.files p) e refl))
          (λ _ d r. replace-Leaves d r)

-- Either the new file is in place with its mode, the old one is in the backup and no other file has
-- changed, or an operation failed, and then the target and every other file is as before, but for
-- the temporary file and the backup. The disk may fail in any way, also halfway through a write.
pub write_pem_file-Leaves :
    (fault : ℕ → Outcome) (p text : List ℕ) (is_key : Bool) (before : Disk)
    → IsPlain p
    → Leaves
        (λ _. Written p text (if is_key then key_mode else cert_mode) before)
        (Kept p before)
        (write_pem_file fault p text is_key before)
unfolding write_pem_file
write_pem_file-Leaves fault p text is_key before plain =
    steps-Leaves fault p text (if is_key then key_mode else cert_mode) before plain
