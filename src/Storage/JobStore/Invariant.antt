-- ===== src/Storage/JobStore/Invariant.antt =====
-- The table never holds a transient state, nor two rows of one job (job_store.py).
use local_content_processor.Prelude.{
  ◌+◌, ◌≤◌, String, ◌≡◌, refl, sym, ap, ◌∙◌, subst, false, Option, none, some, List, [], ◌∷◌, ◌++◌,
  arith, str_eq, str_eq_iff, ◌⊎◌, Bool-cases, Option-cases, inl, inr, if◌then◌else◌, eq_of_some,
}
use local_content_processor.Core.Errors.{Result}
use local_content_processor.Core.State.{JobState, ReviewReason, state_mem, transient_states}
use local_content_processor.Storage.World.{World, JobRecord, JobDir, Host}
use local_content_processor.Storage.Exec.{modify_dir}
use local_content_processor.Storage.Exec.Respects.{
  IsPreorder, Respects, Respects-modify, Respects-modify_dir, Respects-bind,
  Respects-bind-refuse_if, exec_rules,
}
use local_content_processor.Storage.Audit.{Event, append}
use local_content_processor.Storage.Audit.Chain.{append_elsewhere}
use local_content_processor.Storage.JobStore.Rows.{find_row, update_row, count_rows, delete_rows}
use local_content_processor.Storage.JobStore.Lifecycle.{find_row-update_row}
use local_content_processor.Storage.JobStore.Table.{
  Refused, set_state_outcome, persist_crawl_result_outcome, persist_from_processing_outcome,
}
use local_content_processor.Storage.JobStore.{
  insert_row, create_job, set_state, persist_crawl_result, persist_from_processing, with_state,
  with_hashes, ensure_job_dir,
}

abbrev pub Rests : JobState → Type 0
Rests s = state_mem s transient_states ≡ false

pub record IsValid (rows : List JobRecord) : Type 0 where
  pub rests : (j : String) (r : JobRecord) → find_row j rows ≡ some r → Rests r.state
  pub unique : (j : String) → count_rows j rows ≤ 1

-- A store that was valid is valid afterwards.
pub record KeepsValid (w w' : World) : Type 0 where
  pub keeps : IsValid w.jobs → IsValid w'.jobs

pub KeepsValid-preorder : IsPreorder KeepsValid
KeepsValid-preorder = record {
  same = λ w. record { keeps = λ v. v };
  chain = λ u v w a b. record { keeps = λ h. b.keeps (a.keeps h) };
}

pub KeepsValid-same_jobs : {w w' : World} → w'.jobs ≡ w.jobs → KeepsValid w w'
KeepsValid-same_jobs e = record { keeps = λ v. subst IsValid (sym e) v }

count_rows-update_row :
    (j k : String) (f : JobRecord → JobRecord) (rows : List JobRecord)
    → ((r : JobRecord) → (f r).job_id ≡ r.job_id)
    → count_rows j (update_row k f rows) ≡ count_rows j rows
unfolding count_rows update_row
count_rows-update_row j k f [] h = refl
count_rows-update_row j k f (r ∷ rows) h = ground (arith, h r, count_rows-update_row j k f rows h)

update_keeps :
    (k : String) (f : JobRecord → JobRecord) (s : JobState) (rows : List JobRecord)
    → ((r : JobRecord) → ((f r).job_id ≡ r.job_id) × ((f r).state ≡ s))
    → Rests s
    → IsValid rows
    → IsValid (update_row k f rows)
update_keeps k f s rows h resting v = record {
  rests = λ j r found. elim (Bool-cases (str_eq k j)) [
    | inl e ↦ elim (Option-cases (find_row j rows)) [
      | inl gone ↦ ground (arith, find_row-update_row j k f rows (λ q. (h q).0))
      | inr (q, there) ↦
          let same : f q ≡ r =
            eq_of_some _ _
              (sym (find_row-update_row j k f rows (λ p. (h p).0) ∙ (rw (e, there))) ∙ found) in
          subst (λ (p : JobRecord). Rests p.state) same (rw (h q).1 resting)
    ]
    | inr e ↦ v.rests j r (sym (rw e at (find_row-update_row j k f rows (λ q. (h q).0))) ∙ found)
  ];
  unique = λ j. rw (count_rows-update_row j k f rows (λ q. (h q).0)) (v.unique j);
}

Refused-keeps :
    {A : Type 0} (out : Result A × World) (w : World) → Refused out w → KeepsValid w out.1
Refused-keeps {A} out w (x, e) = KeepsValid-same_jobs (ap (λ (p : Result A × World). p.1.jobs) e)

pub set_state-KeepsValid :
    (job_id : String) (s : JobState) (ts : String) (e : Option String) (r : Option ReviewReason)
    → Respects KeepsValid (set_state job_id s ts e r)
set_state-KeepsValid job_id s ts e r = record {
  at = λ w. elim (set_state_outcome job_id s ts e r w) [
    | inl no_change ↦ Refused-keeps _ w no_change
    | inr (current, found, allowed, resting, out) ↦ rw out (record {
      keeps = update_keeps job_id (with_state s ts e r) s w.jobs (λ q. (refl, refl)) resting;
    })
  ];
}

pub persist_crawl_result-KeepsValid :
    (job_id : String) (s : JobState) (ts : String) (html text : Option String)
    → Respects KeepsValid (persist_crawl_result job_id s ts html text)
persist_crawl_result-KeepsValid job_id s ts html text = record {
  at = λ w. elim (persist_crawl_result_outcome job_id s ts html text w) [
    | inl no_change ↦ Refused-keeps _ w no_change
    | inr (current, found, allowed, resting, out) ↦ rw out (record {
      keeps = update_keeps job_id (with_hashes s ts html text) s w.jobs (λ q. (refl, refl)) resting;
    })
  ];
}

pub persist_from_processing-KeepsValid :
    (job_id : String) (s : JobState) (ts : String) (r : Option ReviewReason) (e : Option String)
    → Respects KeepsValid (persist_from_processing job_id s ts r e)
persist_from_processing-KeepsValid job_id s ts r e = record {
  at = λ w. elim (persist_from_processing_outcome job_id s ts e r w) [
    | inl no_change ↦ Refused-keeps _ w no_change
    | inr (current, found, enters, leaves, resting, out) ↦ rw out (record {
      keeps = update_keeps job_id (with_state s ts e r) s w.jobs (λ q. (refl, refl)) resting;
    })
  ];
}

count_rows-append :
    (j : String) (row : JobRecord) (rows : List JobRecord)
    → count_rows j (rows ++ row ∷ [])
      ≡ (if str_eq row.job_id j then count_rows j rows + 1 else count_rows j rows)
unfolding count_rows
count_rows-append j row [] = ground arith
count_rows-append j row (r ∷ rows) = ground (arith, count_rows-append j row rows)

count_rows-find_row :
    (j : String) (rows : List JobRecord) → find_row j rows ≡ none → count_rows j rows ≡ 0
unfolding count_rows find_row
count_rows-find_row j [] h = refl
count_rows-find_row j (r ∷ rows) h = ground (arith, count_rows-find_row j rows)

find_row-append :
    (j : String) (row : JobRecord) (rows : List JobRecord) (r : JobRecord)
    → find_row j (rows ++ row ∷ []) ≡ some r
    → (find_row j rows ≡ some r) ⊎ (row ≡ r)
unfolding find_row
find_row-append j row [] r h = ground arith
find_row-append j row (q ∷ rows) r h = ground (arith, find_row-append j row rows r)

insert_keeps :
    (row : JobRecord) (rows : List JobRecord)
    → find_row row.job_id rows ≡ none
    → Rests row.state
    → IsValid rows
    → IsValid (rows ++ row ∷ [])
insert_keeps row rows fresh resting v = record {
  rests = λ j r found. elim (find_row-append j row rows r found) [
    | inl old ↦ v.rests j r old
    | inr same ↦ subst (λ (p : JobRecord). Rests p.state) same resting
  ];
  unique = λ j. ground (
    arith,
    count_rows-append j row rows,
    v.unique j,
    str_eq_iff row.job_id j,
    count_rows-find_row j rows,
  );
}

-- INSERT of a row in a resting state keeps the table valid.
pub insert_row-KeepsValid :
    (row : JobRecord) → Rests row.state → Respects KeepsValid (insert_row row)
unfolding insert_row
insert_row-KeepsValid row resting = record {
  at = λ w. elim (Option-cases (find_row row.job_id w.jobs)) [
    | inl fresh ↦ rw fresh (record { keeps = insert_keeps row w.jobs fresh resting })
    | inr (r, there) ↦ rw there (KeepsValid-same_jobs refl)
  ];
}

pub modify_dir-KeepsValid :
    (job_id : String) (f : JobDir → JobDir) → Respects KeepsValid (modify_dir job_id f)
modify_dir-KeepsValid job_id f = Respects-modify_dir job_id f (λ w. KeepsValid-same_jobs refl)

jobs-append : (host : Host) (e : Event) (w : World) → (append host e w).1.jobs ≡ w.jobs
jobs-append host e w = (append_elsewhere host e w).0

pub append-KeepsValid : (host : Host) (e : Event) → Respects KeepsValid (append host e)
append-KeepsValid host e = record { at = λ w. KeepsValid-same_jobs (jobs-append host e w) }

pub ruleset valid_rules = (
  exec_rules, KeepsValid-preorder, set_state-KeepsValid, persist_crawl_result-KeepsValid,
  persist_from_processing-KeepsValid, modify_dir-KeepsValid, append-KeepsValid,
)

pub ensure_job_dir-KeepsValid : (job_id : String) → Respects KeepsValid (ensure_job_dir job_id)
unfolding ensure_job_dir
ensure_job_dir-KeepsValid job_id = modify_dir-KeepsValid job_id _

pub create_job-KeepsValid :
    (job_id ts : String) (s : JobState) → Respects KeepsValid (create_job job_id ts s)
unfolding create_job
create_job-KeepsValid job_id ts s =
    Respects-bind-refuse_if KeepsValid-preorder _ _ _
      (λ resting. search (valid_rules, insert_row-KeepsValid, resting) depth 9)

count_rows-delete_rows :
    (j k : String) (rows : List JobRecord)
    → count_rows j (delete_rows k rows) ≡ (if str_eq k j then 0 else count_rows j rows)
unfolding count_rows delete_rows
count_rows-delete_rows j k [] = ground arith
count_rows-delete_rows j k (r ∷ rows) = ground (
  arith,
  str_eq_iff k j,
  str_eq_iff r.job_id j,
  str_eq_iff r.job_id k,
  count_rows-delete_rows j k rows,
)

pub find_row-delete_rows :
    (j k : String) (rows : List JobRecord)
    → find_row j (delete_rows k rows) ≡ (if str_eq k j then none else find_row j rows)
unfolding find_row delete_rows
find_row-delete_rows j k [] = ground arith
find_row-delete_rows j k (r ∷ rows) = ground (
  arith,
  str_eq_iff k j,
  str_eq_iff r.job_id j,
  str_eq_iff r.job_id k,
  find_row-delete_rows j k rows,
)

-- To delete the rows of a job keeps the table valid.
pub delete_keeps :
    (k : String) (rows : List JobRecord) → IsValid rows → IsValid (delete_rows k rows)
delete_keeps k rows v = record {
  rests = λ j r found. ground (arith, find_row-delete_rows j k rows, v.rests j r);
  unique = λ j. ground (arith, count_rows-delete_rows j k rows, v.unique j);
}
