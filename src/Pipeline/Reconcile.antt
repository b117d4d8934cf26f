-- ===== src/Pipeline/Reconcile.antt =====
-- `reconcile` of src/lcp/pipeline.py reads the worklist and disturbs no running process.
use local_content_processor.Prelude.{
  ℕ, String, ◌≡◌, refl, ap, ◌∙◌, Bool, false, not, ◌||◌, none, List, [], ◌∷◌, arith, is_some,
  str_eq, str_eq_iff, Bool-cases, inl, inr, subst, ◌⊎◌,
}
use local_content_processor.Core.State.{state_mem}
use local_content_processor.Storage.World.{World, JobDir, JobRecord, Host, set_dir}
use local_content_processor.Storage.Exec.{◌>>=◌}
use local_content_processor.Storage.Exec.Respects.{IsPreorder, Respects, Respects-bind, exec_rules}
use local_content_processor.Storage.JobStore.{
  pid_of, is_processing, processing_owner_pid, read_interrupt_count, clear_processing, list_all,
}
use local_content_processor.Pipeline.{
  is_live, reconcilable_states, marker_only_clear_states, surface, check_row, check_rows, reconcile,
}

-- The folder is what it was, but for a marker that no running process owned.
abbrev pub AtMostCleared : Host → JobDir → JobDir → Type 0
AtMostCleared host d d' =
    (d' ≡ d) ⊎ ((is_live host (pid_of d.marker) ≡ false) × (d' ≡ record d { marker = none }))

-- The table and the log are what they were, and so is each folder, but for stale markers.
pub record Passive (host : Host) (w w' : World) : Type 0 where
  pub same_jobs : w'.jobs ≡ w.jobs
  pub same_audit : w'.audit ≡ w.audit
  pub cleared : (j : String) → AtMostCleared host (w.dirs j) (w'.dirs j)

second_false : (a b : Bool) → (a || b) ≡ false → b ≡ false
second_false a b h = ground arith

module _ (host : Host) where
  Passive-same : (w : World) → Passive host w w
  Passive-same w = record { same_jobs = refl; same_audit = refl; cleared = λ j. inl refl }

  AtMostCleared-chain :
      (d e f : JobDir) → AtMostCleared host d e → AtMostCleared host e f → AtMostCleared host d f
  AtMostCleared-chain d e f a b = elim a [
    | inl same ↦ subst (λ x. AtMostCleared host x f) same b
    | inr (dead, gone) ↦ elim b [
      | inl kept ↦ inr (dead, kept ∙ gone)
      | inr (still, again) ↦
          inr (dead, again ∙ ap {A = JobDir} {B = JobDir} (λ x. record x { marker = none }) gone)
    ]
  ]

  Passive-preorder : IsPreorder (Passive host)
  Passive-preorder = record {
    same = Passive-same;
    chain = λ u v w a b. record {
      same_jobs = b.same_jobs ∙ a.same_jobs;
      same_audit = b.same_audit ∙ a.same_audit;
      cleared =
          λ j. AtMostCleared-chain (u.dirs j) (v.dirs j) (w.dirs j) (a.cleared j) (b.cleared j);
    };
  }

  -- To clear a marker that no running process owns.
  cleared-Passive :
      (k : String) (w : World)
      → is_live host (pid_of (w.dirs k).marker) ≡ false
      → Passive host w (set_dir k (record (w.dirs k) { marker = none }) w)
  cleared-Passive k w dead = record {
    same_jobs = refl;
    same_audit = refl;
    cleared = λ j. elim (Bool-cases (str_eq k j)) [
      | inl e ↦
          let same : k ≡ j = (str_eq_iff k j).0 e in
          inr (
            subst (λ i. is_live host (pid_of (w.dirs i).marker) ≡ false) same dead,
            rw e (ap {B = JobDir} (λ i. record (w.dirs i) { marker = none }) same),
          )
      | inr e ↦ inl (rw e)
    ];
  }

module _ (host : Host) (max : ℕ) where
  surface-Passive :
      (r : JobRecord) (w : World)
      → is_live host (pid_of (w.dirs r.job_id).marker) ≡ false
      → Passive host w (surface host max r w).1
  unfolding surface ◌>>=◌ read_interrupt_count clear_processing
  surface-Passive r w dead = elim (Bool-cases (state_mem r.state reconcilable_states)) [
    | inl stopped ↦ rw stopped (Passive-same host w)
    | inr other ↦ elim (Bool-cases (state_mem r.state marker_only_clear_states)) [
      | inl done ↦ rw (other, done) (cleared-Passive host r.job_id w dead)
      | inr neither ↦ rw (other, neither) (Passive-same host w)
    ]
  ]

  check_row-Passive : (r : JobRecord) → Respects (Passive host) (check_row host max r)
  unfolding check_row ◌>>=◌ is_processing processing_owner_pid
  check_row-Passive r = record {
    at = λ w.
        let d = w.dirs r.job_id in
        elim (Bool-cases (not (is_some d.marker) || is_live host (pid_of d.marker))) [
          | inl busy ↦ rw busy (Passive-same host w)
          | inr stale ↦ rw stale (surface-Passive r w (second_false _ _ stale))
        ];
  }

  check_rows-Passive : (rs : List JobRecord) → Respects (Passive host) (check_rows host max rs)
  unfolding check_rows
  check_rows-Passive [] = search (exec_rules, Passive-preorder)
  check_rows-Passive (r ∷ rs) =
      Respects-bind (Passive-preorder host) (check_row host max r) _ (check_row-Passive r)
        (λ here. search (exec_rules, Passive-preorder, check_rows-Passive rs))

  -- A view of the worklist changes neither the table nor the audit log, and in each folder it at
  -- most clears a marker that no running process owns; so every count of crashes stays, and so does
  -- the folder of a job whose marker a running process owns.
  pub reconcile-Passive : Respects (Passive host) (reconcile host max)
  unfolding reconcile list_all
  reconcile-Passive = search (exec_rules, Passive-preorder, check_rows-Passive)
