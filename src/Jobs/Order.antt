-- ===== src/Jobs/Order.antt =====
-- Jobs in the order of src/jobs/scheduler.rs and src/jobs/persistence.rs, the newest first.
use linux_patch_api.Prelude.{
  ℕ, leb, ◌≤◌, ◌+◌, Bool, List, [], ◌∷◌, ◌≡◌, refl, arith, inl, inr, Bool-cases, to_nat,
  if◌then◌else◌,
}
use linux_patch_api.Jobs.Job.{Job}

-- A stable sort by `Reverse(created_at)`: the newest first, and equal times in their order.
unfoldable pub insert_newest : Job → List Job → List Job
insert_newest j [] = j ∷ []
insert_newest j (k ∷ ks) =
    let rest = insert_newest j ks in if leb k.created_at j.created_at then j ∷ k ∷ ks else k ∷ rest

unfoldable pub sort_newest : List Job → List Job
unfolding insert_newest
sort_newest [] = []
sort_newest (j ∷ js) = insert_newest j (sort_newest js)

-- Every job was created at this time or before.
abbrev pub NoNewer : ℕ → List Job → Type 0
NoNewer t [] = Unit {0}
NoNewer t (j ∷ js) = (j.created_at ≤ t) × NoNewer t js

-- No job is older than one behind it.
abbrev pub IsSorted : List Job → Type 0
IsSorted [] = Unit {0}
IsSorted (j ∷ js) = NoNewer j.created_at js × IsSorted js

NoNewer-weaken : (t u : ℕ) (js : List Job) → t ≤ u → NoNewer t js → NoNewer u js
NoNewer-weaken t u [] h n = tt
NoNewer-weaken t u (j ∷ js) h n = (omega (arith, h, n.0), NoNewer-weaken t u js h n.1)

NoNewer-insert_newest :
    (t : ℕ) (j : Job) (js : List Job)
    → j.created_at ≤ t
    → NoNewer t js
    → NoNewer t (insert_newest j js)
unfolding insert_newest
NoNewer-insert_newest t j [] h n = (h, tt)
NoNewer-insert_newest t j (k ∷ ks) h n = elim (Bool-cases (leb k.created_at j.created_at)) [
  | inl e ↦ rw e (h, n)
  | inr e ↦ rw e (n.0, NoNewer-insert_newest t j ks h n.1)
]

insert_newest-IsSorted : (j : Job) (js : List Job) → IsSorted js → IsSorted (insert_newest j js)
unfolding insert_newest
insert_newest-IsSorted j [] s = (tt, tt)
insert_newest-IsSorted j (k ∷ ks) s = elim (Bool-cases (leb k.created_at j.created_at)) [
  | inl e ↦ rw e ((ground arith, NoNewer-weaken k.created_at j.created_at ks (ground arith) s.0), s)
  | inr e ↦
      rw e (
        NoNewer-insert_newest k.created_at j ks (ground arith) s.0,
        insert_newest-IsSorted j ks s.1,
      )
]

pub sort_newest-IsSorted : (js : List Job) → IsSorted (sort_newest js)
unfolding sort_newest
sort_newest-IsSorted [] = tt
sort_newest-IsSorted (j ∷ js) = insert_newest-IsSorted j (sort_newest js) (sort_newest-IsSorted js)

-- How many jobs pass a test.
abbrev pub count_of : (Job → Bool) → List Job → ℕ
count_of p [] = 0
count_of p (j ∷ js) = to_nat (p j) + count_of p js

count_of-insert_newest :
    (p : Job → Bool) (j : Job) (js : List Job)
    → count_of p (insert_newest j js) ≡ to_nat (p j) + count_of p js
unfolding insert_newest
count_of-insert_newest p j [] = refl
count_of-insert_newest p j (k ∷ ks) = ground (arith, count_of-insert_newest p j ks)

pub count_of-sort_newest :
    (p : Job → Bool) (js : List Job) → count_of p (sort_newest js) ≡ count_of p js
unfolding sort_newest
count_of-sort_newest p [] = refl
count_of-sort_newest p (j ∷ js) =
    omega (arith, count_of-insert_newest p j (sort_newest js), count_of-sort_newest p js)
