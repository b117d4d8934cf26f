-- ===== src/Storage/JobStore/Table.antt =====
-- What each write to the table `jobs` does, on every branch (job_store.py).
use local_content_processor.Prelude.{
  String, ◌≡◌, sym, ap, ◌∙◌, true, false, Option, none, some, Option-cases, Bool-cases, ◌⊎◌, inl,
  inr,
}
use local_content_processor.Core.Errors.{
  Error, Result, ok, err, input_validation, unknown_job, illegal_transition, transient_state,
}
use local_content_processor.Core.State.{
  JobState, ReviewReason, processing, is_legal_transition, validate_transition, state_mem,
  transient_states,
}
use local_content_processor.Storage.World.{World, JobRecord, set_dir}
use local_content_processor.Storage.Exec.{◌>>=◌}
use local_content_processor.Storage.JobStore.Rows.{find_row, update_row}
use local_content_processor.Storage.JobStore.{
  set_state, persist_crawl_result, persist_from_processing, with_state, with_hashes,
}

-- A call raised, and left the store as it was.
abbrev pub Refused : {A : Type 0} → Result A × World → World → Type 0
Refused out w = (x : Error) × (out ≡ (err x, w))

module _ (job_id : String) (s : JobState) (ts : String) where
  -- `set_state` writes the four columns of a row that is there, along a legal transition to a state
  -- that may rest; in any other case it raises and changes nothing.
  pub set_state_outcome :
      (e : Option String) (r : Option ReviewReason) (w : World)
      → Refused (set_state job_id s ts e r w) w
        ⊎ ((current : JobRecord) × (find_row job_id w.jobs ≡ some current)
            × (is_legal_transition current.state s ≡ true)
            × (state_mem s transient_states ≡ false)
            × (set_state job_id s ts e r w ≡ (
              ok (with_state s ts e r current),
              record w { jobs = update_row job_id (with_state s ts e r) w.jobs },
            )))
  unfolding set_state ◌>>=◌ validate_transition
  set_state_outcome e r w = elim (Option-cases (find_row job_id w.jobs)) [
    | inl gone ↦ inl (input_validation unknown_job, rw gone)
    | inr (current, found) ↦ elim (Bool-cases (is_legal_transition current.state s)) [
      | inr illegal ↦ inl (input_validation illegal_transition, rw (found, illegal))
      | inl allowed ↦ elim (Bool-cases (state_mem s transient_states)) [
        | inl passing ↦ inl (input_validation transient_state, rw (found, allowed, passing))
        | inr resting ↦ inr (current, found, allowed, resting, rw (found, allowed, resting))
      ]
    ]
  ]

  -- `persist_crawl_result` writes the state and the hashes of a row that is there, along a legal
  -- transition to a state that may rest; in any other case it raises and changes nothing: the state
  -- and the hashes are written together or not at all.
  pub persist_crawl_result_outcome :
      (html text : Option String) (w : World)
      → Refused (persist_crawl_result job_id s ts html text w) w
        ⊎ ((current : JobRecord) × (find_row job_id w.jobs ≡ some current)
            × (is_legal_transition current.state s ≡ true)
            × (state_mem s transient_states ≡ false)
            × (persist_crawl_result job_id s ts html text w ≡ (
              ok (with_hashes s ts html text current),
              record w { jobs = update_row job_id (with_hashes s ts html text) w.jobs },
            )))
  unfolding persist_crawl_result ◌>>=◌ validate_transition
  persist_crawl_result_outcome html text w = elim (Bool-cases (state_mem s transient_states)) [
    | inl passing ↦ inl (input_validation transient_state, rw passing)
    | inr resting ↦ elim (Option-cases (find_row job_id w.jobs)) [
      | inl gone ↦ inl (input_validation unknown_job, rw (resting, gone))
      | inr (current, found) ↦ elim (Bool-cases (is_legal_transition current.state s)) [
        | inr illegal ↦ inl (input_validation illegal_transition, rw (resting, found, illegal))
        | inl allowed ↦ inr (current, found, allowed, resting, rw (resting, found, allowed))
      ]
    ]
  ]

  -- The store after a gate has parked or passed a job: the columns are written and the marker gone.
  abbrev pub gate_written : Option String → Option ReviewReason → World → World
  gate_written e r w =
      set_dir job_id (record (w.dirs job_id) { marker = none })
        (record w { jobs = update_row job_id (with_state s ts e r) w.jobs })

  -- `persist_from_processing` needs a row that may enter PROCESSING and a resting state that
  -- PROCESSING may lead to; it then writes the four columns and clears the marker; in any other case
  -- it raises and changes nothing, the marker included.
  pub persist_from_processing_outcome :
      (e : Option String) (r : Option ReviewReason) (w : World)
      → Refused (persist_from_processing job_id s ts r e w) w
        ⊎ ((current : JobRecord) × (find_row job_id w.jobs ≡ some current)
            × (is_legal_transition current.state processing ≡ true)
            × (is_legal_transition processing s ≡ true)
            × (state_mem s transient_states ≡ false)
            × (persist_from_processing job_id s ts r e w
                ≡ (ok (with_state s ts e r current), gate_written e r w)))
  unfolding persist_from_processing ◌>>=◌ validate_transition
  persist_from_processing_outcome e r w = elim (Bool-cases (state_mem s transient_states)) [
    | inl passing ↦ inl (input_validation transient_state, rw passing)
    | inr resting ↦ elim (Option-cases (find_row job_id w.jobs)) [
      | inl gone ↦ inl (input_validation unknown_job, rw (resting, gone))
      | inr (current, found) ↦ elim (Bool-cases (is_legal_transition current.state processing)) [
        | inr illegal ↦ inl (input_validation illegal_transition, rw (resting, found, illegal))
        | inl enters ↦ elim (Bool-cases (is_legal_transition processing s)) [
          | inr illegal ↦
              inl (input_validation illegal_transition, rw (resting, found, enters, illegal))
          | inl leaves ↦
              inr (current, found, enters, leaves, resting, rw (resting, found, enters, leaves))
        ]
      ]
    ]
  ]

  -- What `persist_from_processing` needs: a row, its transition into PROCESSING and the transition
  -- out of it, and a state that may rest.
  pub record CanPersist (current : JobRecord) (w : World) : Type 0 where
    pub found : find_row job_id w.jobs ≡ some current
    pub enters : is_legal_transition current.state processing ≡ true
    pub leaves : is_legal_transition processing s ≡ true
    pub resting : state_mem s transient_states ≡ false

  persist_from_processing_accepts :
      (e : Option String) (r : Option ReviewReason) (current : JobRecord) (w : World)
      → CanPersist current w
      → persist_from_processing job_id s ts r e w
        ≡ (ok (with_state s ts e r current), gate_written e r w)
  unfolding persist_from_processing ◌>>=◌ validate_transition
  persist_from_processing_accepts e r current w c = rw (c.resting, c.found, c.enters, c.leaves)

  -- `persist_from_processing` returns the new record, writes the four columns and clears the marker
  -- exactly where there is a row that may enter PROCESSING, PROCESSING may lead to the state and the
  -- state may rest; otherwise it raises and changes nothing, the marker included.
  pub persist_from_processing_exact :
      (e : Option String) (r : Option ReviewReason) (w : World)
      → ((current : JobRecord) × CanPersist current w
          × (persist_from_processing job_id s ts r e w
              ≡ (ok (with_state s ts e r current), gate_written e r w)))
        ⊎ (((current : JobRecord) → CanPersist current w → ⊥)
            × Refused (persist_from_processing job_id s ts r e w) w)
  persist_from_processing_exact e r w = elim (persist_from_processing_outcome e r w) [
    | inl (x, out) ↦ inr (
      (λ current c.
          let wrote = persist_from_processing_accepts e r current w c in
          cc (ap (λ (p : Result JobRecord × World). p.0) (sym out ∙ wrote))),
      (x, out),
    )
    | inr (current, found, enters, leaves, resting, out) ↦ inl (
      current,
      record { found = found; enters = enters; leaves = leaves; resting = resting },
      out,
    )
  ]
