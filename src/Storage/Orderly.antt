-- ===== src/Storage/Orderly.antt =====
-- What every operation but the deletion owes to the store: jobs move along the transition table, the
-- table stays valid, and an audit log whose last line is ended stays so, only grows and keeps its chain.
use mathlib.Core.List.{append-nil, append_assoc}
use local_content_processor.Prelude.{
  Bool, String, ◌≡◌, refl, sym, ap, ◌∙◌, true, Option, List, [], ◌++◌, arith, inl, inr,
}
use local_content_processor.Core.Errors.{Result, ok}
use local_content_processor.Core.State.{JobState, ReviewReason}
use local_content_processor.Core.Dedup.Cache.{LshCache}
use local_content_processor.Storage.World.{World, JobDir, JobRecord, Host, Line}
use local_content_processor.Storage.Exec.{modify, modify_dir}
use local_content_processor.Storage.Exec.Respects.{
  IsPreorder, Respects, Respects-modify, Respects-modify_dir, exec_rules, Respects-bind-refuse_if,
}
use local_content_processor.Storage.Audit.{Event, append, verify_chain}
use local_content_processor.Storage.Audit.Chain.{
  append_elsewhere, append_keeps_chain, append_grows, append_ends,
}
use local_content_processor.Storage.JobStore.Lifecycle.{
  Follows, Follows-preorder, Follows-same_jobs, set_state-Follows, persist_crawl_result-Follows,
  persist_from_processing-Follows, insert_row-Follows,
}
use local_content_processor.Storage.JobStore.Invariant.{
  Rests, KeepsValid, KeepsValid-preorder, KeepsValid-same_jobs, set_state-KeepsValid,
  persist_crawl_result-KeepsValid, persist_from_processing-KeepsValid, insert_row-KeepsValid,
}
use local_content_processor.Storage.JobStore.Table.{
  set_state_outcome, persist_crawl_result_outcome, persist_from_processing_outcome,
}
use local_content_processor.Storage.JobStore.{
  insert_row, create_job, ensure_job_dir, set_state, persist_crawl_result, persist_from_processing,
  mark_processing, clear_processing, bump_interrupt_count, clear_interrupt_count, get_job,
}

-- Later lines stand behind the earlier ones.
pub record Grows (earlier later : List Line) : Type 0 where
  pub more : List Line
  pub joined : later ≡ earlier ++ more

pub record Orderly (host : Host) (w w' : World) : Type 0 where
  pub follows : Follows w w'
  pub keeps_valid : KeepsValid w w'
  pub stays_ended : w.audit_ended ≡ true → w'.audit_ended ≡ true
  pub keeps_chain :
      w.audit_ended ≡ true
      → verify_chain host w.audit ≡ ok true
      → verify_chain host w'.audit ≡ ok true
  pub grows : w.audit_ended ≡ true → Grows w.audit w'.audit

-- The audit log of a store.
abbrev log_of : World → List Line × Bool
log_of w = (w.audit, w.audit_ended)

module _ (host : Host) where
  same_audit :
      {w w' : World} → Follows w w' → KeepsValid w w' → log_of w' ≡ log_of w → Orderly host w w'
  same_audit {w} {w'} f v e = record {
    follows = f;
    keeps_valid = v;
    stays_ended = λ t. ap (λ l. l.1) e ∙ t;
    keeps_chain = λ t h. ap (λ l. verify_chain host l.0) e ∙ h;
    grows = λ t. record { more = []; joined = ap (λ l. l.0) e ∙ sym (append-nil w.audit) };
  }

  pub Orderly-preorder : IsPreorder (Orderly host)
  Orderly-preorder = record {
    same = λ w. same_audit (Follows-preorder.same w) (KeepsValid-preorder.same w) refl;
    chain = λ u v w a b. record {
      follows = Follows-preorder.chain u v w a.follows b.follows;
      keeps_valid = KeepsValid-preorder.chain u v w a.keeps_valid b.keeps_valid;
      stays_ended = λ t. b.stays_ended (a.stays_ended t);
      keeps_chain = λ t h. b.keeps_chain (a.stays_ended t) (a.keeps_chain t h);
      grows = λ t.
          let g = a.grows t in
          let k = b.grows (a.stays_ended t) in
          record {
            more = g.more ++ k.more;
            joined = k.joined ∙ ap (λ l. l ++ k.more) g.joined ∙ append_assoc u.audit g.more k.more;
          };
    };
  }

  pub append-Orderly : (e : Event) → Respects (Orderly host) (append host e)
  append-Orderly e = record {
    at = λ w. record {
      follows = Follows-same_jobs (append_elsewhere host e w).0;
      keeps_valid = KeepsValid-same_jobs (append_elsewhere host e w).0;
      keeps_chain = append_keeps_chain host e w;
      stays_ended = append_ends host e w;
      grows = λ t.
          let (more, joined) = append_grows host e w t in record { more = more; joined = joined };
    };
  }

  pub set_state-Orderly :
      (job_id : String) (s : JobState) (ts : String) (e : Option String) (r : Option ReviewReason)
      → Respects (Orderly host) (set_state job_id s ts e r)
  set_state-Orderly job_id s ts e r = record {
    at = λ w.
        same_audit ((set_state-Follows job_id s ts e r).at w)
          ((set_state-KeepsValid job_id s ts e r).at w)
          (elim (set_state_outcome job_id s ts e r w) [
            | inl (x, out) ↦ ap (λ (p : Result JobRecord × World). log_of p.1) out
            | inr (current, found, allowed, resting, out) ↦
                ap (λ (p : Result JobRecord × World). log_of p.1) out
          ]);
  }

  pub persist_crawl_result-Orderly :
      (job_id : String) (s : JobState) (ts : String) (html text : Option String)
      → Respects (Orderly host) (persist_crawl_result job_id s ts html text)
  persist_crawl_result-Orderly job_id s ts html text = record {
    at = λ w.
        same_audit ((persist_crawl_result-Follows job_id s ts html text).at w)
          ((persist_crawl_result-KeepsValid job_id s ts html text).at w)
          (elim (persist_crawl_result_outcome job_id s ts html text w) [
            | inl (x, out) ↦ ap (λ (p : Result JobRecord × World). log_of p.1) out
            | inr (current, found, allowed, resting, out) ↦
                ap (λ (p : Result JobRecord × World). log_of p.1) out
          ]);
  }

  pub persist_from_processing-Orderly :
      (job_id : String) (s : JobState) (ts : String) (r : Option ReviewReason) (e : Option String)
      → Respects (Orderly host) (persist_from_processing job_id s ts r e)
  persist_from_processing-Orderly job_id s ts r e = record {
    at = λ w.
        same_audit ((persist_from_processing-Follows job_id s ts r e).at w)
          ((persist_from_processing-KeepsValid job_id s ts r e).at w)
          (elim (persist_from_processing_outcome job_id s ts e r w) [
            | inl (x, out) ↦ ap (λ (p : Result JobRecord × World). log_of p.1) out
            | inr (current, found, enters, leaves, resting, out) ↦
                ap (λ (p : Result JobRecord × World). log_of p.1) out
          ]);
  }

  pub modify_dir-Orderly :
      (job_id : String) (f : JobDir → JobDir) → Respects (Orderly host) (modify_dir job_id f)
  modify_dir-Orderly job_id f =
      Respects-modify_dir job_id f
        (λ w. same_audit (Follows-same_jobs refl) (KeepsValid-same_jobs refl) refl)

  -- The cache of the process is no part of the store.
  pub keep_cache-Orderly :
      (c : LshCache) → Respects (Orderly host) (modify (λ w. record w { lsh_cache = c }))
  keep_cache-Orderly c =
      Respects-modify _ (λ w. same_audit (Follows-same_jobs refl) (KeepsValid-same_jobs refl) refl)

  pub insert_row-Orderly :
      (row : JobRecord) → Rests row.state → Respects (Orderly host) (insert_row row)
  insert_row-Orderly row rests = record {
    at = λ w.
        same_audit ((insert_row-Follows row).at w) ((insert_row-KeepsValid row rests).at w)
          (unfold insert_row in ground arith);
  }

pub ruleset orderly_rules = (
  exec_rules, Orderly-preorder, append-Orderly, set_state-Orderly, persist_crawl_result-Orderly,
  persist_from_processing-Orderly, modify_dir-Orderly,
)

module _ (host : Host) where
  pub get_job-Orderly : (job_id : String) → Respects (Orderly host) (get_job job_id)
  unfolding get_job
  get_job-Orderly job_id = search orderly_rules

  pub create_job-Orderly :
      (job_id ts : String) (s : JobState) → Respects (Orderly host) (create_job job_id ts s)
  unfolding create_job ensure_job_dir
  create_job-Orderly job_id ts s =
      Respects-bind-refuse_if (Orderly-preorder host) _ _ _
        (λ rests. search (orderly_rules, insert_row-Orderly, rests) depth 9)

  pub mark_processing-Orderly :
      (job_id : String) → Respects (Orderly host) (mark_processing host job_id)
  unfolding mark_processing
  mark_processing-Orderly job_id = search orderly_rules

  pub clear_processing-Orderly :
      (job_id : String) → Respects (Orderly host) (clear_processing job_id)
  unfolding clear_processing
  clear_processing-Orderly job_id = search orderly_rules

  pub bump_interrupt_count-Orderly :
      (job_id : String) → Respects (Orderly host) (bump_interrupt_count job_id)
  unfolding bump_interrupt_count
  bump_interrupt_count-Orderly job_id = search orderly_rules depth 9

  pub clear_interrupt_count-Orderly :
      (job_id : String) → Respects (Orderly host) (clear_interrupt_count job_id)
  unfolding clear_interrupt_count
  clear_interrupt_count-Orderly job_id = search orderly_rules

pub ruleset store_rules = (
  orderly_rules, get_job-Orderly, create_job-Orderly, mark_processing-Orderly,
  clear_processing-Orderly, bump_interrupt_count-Orderly, clear_interrupt_count-Orderly,
)
