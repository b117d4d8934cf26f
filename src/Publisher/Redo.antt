-- ===== src/Publisher/Redo.antt =====
-- What `supersede` demands and what it writes (src/lcp/adapters/publisher/signoff.py).
use local_content_processor.Prelude.{
  String, arith, ◌≡◌, refl, ap, ◌∙◌, Bool, true, false, not, ◌&&◌, ◌||◌, Option, none, some,
  Option-cases, Bool-cases, ◌⊎◌, inl, inr,
}
use local_content_processor.Core.Errors.{ok, Result-cases}
use local_content_processor.Core.State.{JobState, blocked, superseded, state_eq, state_mem}
use local_content_processor.Storage.World.{World, JobRecord, Host}
use local_content_processor.Storage.Exec.{pure, ◌>>=◌, ◌>>◌}
use local_content_processor.Storage.Exec.Respects.{IsPreorder, Respects, exec_rules}
use local_content_processor.Storage.Audit.{Event, append}
use local_content_processor.Storage.Audit.Chain.{append_elsewhere}
use local_content_processor.Storage.JobStore.Rows.{find_row, update_row}
use local_content_processor.Storage.JobStore.{get_job, with_state}
use local_content_processor.Storage.JobStore.Table.{set_state_outcome}
use local_content_processor.Publisher.Signoff.{supersedable, require_job}
use local_content_processor.Publisher.Supersession.{supersede, void_signoff, record_supersession}

abbrev SameJobs : World → World → Type 0
SameJobs w w' = w'.jobs ≡ w.jobs

SameJobs-preorder : IsPreorder SameJobs
SameJobs-preorder = record { same = λ w. refl; chain = λ u v w a b. b ∙ a }

append-SameJobs : (host : Host) (e : Event) → Respects SameJobs (append host e)
append-SameJobs host e = record { at = λ w. (append_elsewhere host e w).0 }

ruleset audit_rules = (exec_rules, SameJobs-preorder, append-SameJobs)

confirmed_by : (a b : Bool) → (a && not b) ≡ false → (not a || b) ≡ true
confirmed_by a b h = ground arith

module _ (host : Host) (job_id ts : String) where
  void_signoff-SameJobs :
      (actor : String) (s : JobState) → Respects SameJobs (void_signoff host job_id ts actor s)
  unfolding void_signoff
  void_signoff-SameJobs actor s = search audit_rules depth 9

  record_supersession-SameJobs :
      (new : Option String) (actor : String) (s : JobState)
      → Respects SameJobs (record_supersession host job_id ts new actor s)
  unfolding record_supersession
  record_supersession-SameJobs new actor s = search audit_rules depth 12

module _ (host : Host) (job_id ts : String) where
  closing-SameJobs :
      (new : Option String) (actor : String) (s : JobState)
      → Respects SameJobs (record_supersession host job_id ts new actor s >> pure superseded)
  closing-SameJobs new actor s = search (audit_rules, record_supersession-SameJobs)

module _ (job_id ts : String) (redline : Bool) (w : World) where
  -- The row that is superseded, and the table afterwards.
  pub record Redone (after : World) : Type 0 where
    pub row : JobRecord
    pub is_row : find_row job_id w.jobs ≡ some row
    pub may : state_mem row.state supersedable ≡ true
    pub confirmed : (not (state_eq row.state blocked) || redline) ≡ true
    pub written : after.jobs ≡ update_row job_id (with_state superseded ts none none) w.jobs

module _ (host : Host) (job_id ts : String) (new : Option String) (actor : String) (redline : Bool)
    (w : World) where
  after_voiding :
      (row : JobRecord)
      → find_row job_id w.jobs ≡ some row
      → state_mem row.state supersedable ≡ true
      → (state_eq row.state blocked && not redline) ≡ false
      → (void_signoff host job_id ts actor row.state w).0 ≡ ok tt
      → ((supersede host job_id ts new actor redline w).1.jobs ≡ w.jobs)
        ⊎ Redone job_id ts redline w (supersede host job_id ts new actor redline w).1
  unfolding supersede ◌>>=◌ require_job get_job
  after_voiding row found may sure voided =
      let v : World = (void_signoff host job_id ts actor row.state w).1 in
      let same : v.jobs ≡ w.jobs = (void_signoff-SameJobs host job_id ts actor row.state).at w in
      elim (set_state_outcome job_id superseded ts none none v) [
        | inl (x, out) ↦ inl (rw (found, may, sure, voided, out) same)
        | inr (current, _, allowed, resting, out) ↦ inr (record {
          row = row;
          is_row = found;
          may = may;
          confirmed = confirmed_by _ redline sure;
          written =
              rw (found, may, sure, voided, out)
                ((closing-SameJobs host job_id ts new actor row.state).at (record v {
                  jobs = update_row job_id (with_state superseded ts none none) v.jobs;
                })
                  ∙ ap (update_row job_id (with_state superseded ts none none)) same);
        })
      ]

  -- `supersede` leaves the table as it is, or it sets one row to SUPERSEDED; that row was in a
  -- supersedable state, and if it was BLOCKED the caller has confirmed the redline override.
  pub supersede_outcome :
      ((supersede host job_id ts new actor redline w).1.jobs ≡ w.jobs)
      ⊎ Redone job_id ts redline w (supersede host job_id ts new actor redline w).1
  unfolding supersede ◌>>=◌ require_job get_job
  supersede_outcome = elim (Option-cases (find_row job_id w.jobs)) [
    | inl gone ↦ inl (rw gone)
    | inr (row, found) ↦ elim (Bool-cases (state_mem row.state supersedable)) [
      | inr other ↦ inl (rw (found, other))
      | inl may ↦ elim (Bool-cases (state_eq row.state blocked && not redline)) [
        | inl unsure ↦ inl (rw (found, may, unsure))
        | inr sure ↦ elim (Result-cases (void_signoff host job_id ts actor row.state w).0) [
          | inl (tt, voided) ↦ after_voiding row found may sure voided
          | inr (e, raised) ↦ inl (
              rw (found, may, sure, raised)
                ((void_signoff-SameJobs host job_id ts actor row.state).at w))
        ]
      ]
    ]
  ]
