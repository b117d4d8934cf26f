-- ===== src/Storage/JobStore/Lifecycle.antt =====
-- The store moves jobs along the transition table and nowhere else (job_store.py).
use mathlib.Core.Option
use local_content_processor.Prelude.{
  String, ◌≡◌, refl, sym, ap, ◌∙◌, subst, ◌++◌, Option, some, List, [], ◌∷◌, arith, str_eq,
  str_eq_iff, Bool-cases, inl, inr, if◌then◌else◌, is_some, eq_of_some,
}
use local_content_processor.Core.Errors.{Result}
use local_content_processor.Core.State.{JobState, ReviewReason}
use local_content_processor.Core.State.Lifecycle.{Leads, Leads-trans}
use local_content_processor.Storage.World.{World, JobRecord, JobDir}
use local_content_processor.Storage.Exec.{modify_dir}
use local_content_processor.Storage.Exec.Respects.{
  IsPreorder, Respects, Respects-modify_dir, exec_rules,
}
use local_content_processor.Storage.JobStore.Rows.{find_row, update_row}
use local_content_processor.Storage.JobStore.Table.{
  Refused, set_state_outcome, persist_crawl_result_outcome, persist_from_processing_outcome,
}
use local_content_processor.Storage.JobStore.{
  insert_row, create_job, set_state, persist_crawl_result, persist_from_processing, with_state,
  with_hashes,
}

-- The row of a job is still there, created when it was, in a state that legal transitions reach.
pub record Moved (r : JobRecord) (found : Option JobRecord) : Type 0 where
  pub row : JobRecord
  pub is_found : found ≡ some row
  pub leads : Leads r.state row.state
  pub same_creation : row.created_at ≡ r.created_at

-- Every job that was there is still there, and has moved along the table.
pub record Follows (w w' : World) : Type 0 where
  pub moved :
      (j : String) (r : JobRecord) → find_row j w.jobs ≡ some r → Moved r (find_row j w'.jobs)

pub Follows-same_jobs : {w w' : World} → w'.jobs ≡ w.jobs → Follows w w'
Follows-same_jobs {w} {w'} e = record {
  moved = λ j r f. record {
    row = r;
    is_found = ap (find_row j) e ∙ f;
    leads = Leads.here;
    same_creation = refl;
  };
}

Follows-trans : (u v w : World) → Follows u v → Follows v w → Follows u w
Follows-trans u v w a b = record {
  moved = λ j r f.
      let m = a.moved j r f in
      let n = b.moved j m.row m.is_found in
      record {
        row = n.row;
        is_found = n.is_found;
        leads = Leads-trans m.leads n.leads;
        same_creation = n.same_creation ∙ m.same_creation;
      };
}

pub Follows-preorder : IsPreorder Follows
Follows-preorder = record { same = λ w. Follows-same_jobs refl; chain = Follows-trans }

-- An update of one row is seen at its key alone.
pub find_row-update_row :
    (j k : String) (f : JobRecord → JobRecord) (rows : List JobRecord)
    → ((r : JobRecord) → (f r).job_id ≡ r.job_id)
    → find_row j (update_row k f rows)
      ≡ (if str_eq k j then Option.map f (find_row j rows) else find_row j rows)
unfolding find_row update_row
find_row-update_row j k f [] h = ground arith
find_row-update_row j k f (r ∷ rows) h = ground (
  arith,
  h r,
  str_eq_iff r.job_id k,
  str_eq_iff r.job_id j,
  str_eq_iff k j,
  find_row-update_row j k f rows h,
)

-- An update that moves the state of its row along the table.
update-Follows :
    (k : String) (f : JobRecord → JobRecord) (w : World) (s : JobState) {current : JobRecord}
    → ((r : JobRecord)
        → ((f r).job_id ≡ r.job_id) × ((f r).created_at ≡ r.created_at) × ((f r).state ≡ s))
    → find_row k w.jobs ≡ some current
    → Leads current.state s
    → Follows w (record w { jobs = update_row k f w.jobs })
update-Follows k f w s h at_key leads = record {
  moved = λ j r found. elim (Bool-cases (str_eq k j)) [
    | inl e ↦ record {
      row = f r;
      is_found = rw (find_row-update_row j k f w.jobs (λ q. (h q).0), e, found);
      leads = rw (h r).2 (
          subst (λ (q : JobRecord). Leads q.state s)
            (eq_of_some _ _
              (sym at_key ∙ ap (λ i. find_row i w.jobs) ((str_eq_iff k j).0 e) ∙ found))
            leads);
      same_creation = (h r).1;
    }
    | inr e ↦ record {
      row = r;
      is_found = rw (find_row-update_row j k f w.jobs (λ q. (h q).0), e) found;
      leads = Leads.here;
      same_creation = refl;
    }
  ];
}

unchanged-Follows :
    {A : Type 0} (out : Result A × World) (w : World) → Refused out w → Follows w out.1
unchanged-Follows {A} out w (x, e) = Follows-same_jobs (ap (λ (p : Result A × World). p.1.jobs) e)

pub set_state-Follows :
    (job_id : String) (s : JobState) (ts : String) (e : Option String) (r : Option ReviewReason)
    → Respects Follows (set_state job_id s ts e r)
set_state-Follows job_id s ts e r = record {
  at = λ w. elim (set_state_outcome job_id s ts e r w) [
    | inl no_change ↦ unchanged-Follows _ w no_change
    | inr (current, found, allowed, resting, out) ↦ rw out (
        update-Follows job_id (with_state s ts e r) w s (λ q. (refl, refl, refl)) found
          (Leads.step allowed Leads.here))
  ];
}

pub persist_crawl_result-Follows :
    (job_id : String) (s : JobState) (ts : String) (html text : Option String)
    → Respects Follows (persist_crawl_result job_id s ts html text)
persist_crawl_result-Follows job_id s ts html text = record {
  at = λ w. elim (persist_crawl_result_outcome job_id s ts html text w) [
    | inl no_change ↦ unchanged-Follows _ w no_change
    | inr (current, found, allowed, resting, out) ↦ rw out (
        update-Follows job_id (with_hashes s ts html text) w s (λ q. (refl, refl, refl)) found
          (Leads.step allowed Leads.here))
  ];
}

pub persist_from_processing-Follows :
    (job_id : String) (s : JobState) (ts : String) (r : Option ReviewReason) (e : Option String)
    → Respects Follows (persist_from_processing job_id s ts r e)
persist_from_processing-Follows job_id s ts r e = record {
  at = λ w. elim (persist_from_processing_outcome job_id s ts e r w) [
    | inl no_change ↦ unchanged-Follows _ w no_change
    | inr (current, found, enters, leaves, resting, out) ↦ rw out (
        Follows-trans w (record w { jobs = update_row job_id (with_state s ts e r) w.jobs }) _
          (update-Follows job_id (with_state s ts e r) w s (λ q. (refl, refl, refl)) found
            (Leads.step enters (Leads.step leaves Leads.here)))
          (Follows-same_jobs refl))
  ];
}

find_row-append :
    (j : String) (row : JobRecord) (rows : List JobRecord) (r : JobRecord)
    → find_row j rows ≡ some r
    → find_row j (rows ++ row ∷ []) ≡ some r
unfolding find_row
find_row-append j row [] r h = cc
find_row-append j row (q ∷ rows) r h = ground (arith, find_row-append j row rows r)

pub insert_row-Follows : (row : JobRecord) → Respects Follows (insert_row row)
unfolding insert_row
insert_row-Follows row = record {
  at = λ w. elim (Bool-cases (is_some (find_row row.job_id w.jobs))) [
    | inl there ↦ rw there (Follows-same_jobs refl)
    | inr fresh ↦ rw fresh (record {
      moved = λ j r found. record {
        row = r;
        is_found = find_row-append j row w.jobs r found;
        leads = Leads.here;
        same_creation = refl;
      };
    })
  ];
}

-- What is written in a folder moves no job.
pub modify_dir-Follows :
    (job_id : String) (f : JobDir → JobDir) → Respects Follows (modify_dir job_id f)
modify_dir-Follows job_id f = Respects-modify_dir job_id f (λ w. Follows-same_jobs refl)

pub ruleset follows_rules = (
  exec_rules, Follows-preorder, set_state-Follows, persist_crawl_result-Follows,
  persist_from_processing-Follows, insert_row-Follows, modify_dir-Follows,
)

pub create_job-Follows :
    (job_id ts : String) (s : JobState) → Respects Follows (create_job job_id ts s)
unfolding create_job
create_job-Follows job_id ts s = search follows_rules depth 9
