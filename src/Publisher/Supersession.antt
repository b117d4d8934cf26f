-- ===== src/Publisher/Supersession.antt =====
-- `supersede` of src/lcp/adapters/publisher/signoff.py: redo, and recovery of a blocked job.
use local_content_processor.Prelude.{
  String, Bool, not, ◌&&◌, Option, none, some, List, [], ◌∷◌, lookup, if◌then◌else◌,
}
use local_content_processor.Core.Errors.{not_supersedable, redline_unconfirmed}
use local_content_processor.Core.State.{JobState, blocked, superseded, value, state_eq, state_mem}
use local_content_processor.Storage.Json.{
  Json, str, arr, obj, Items, nil, cons, get_member, Obj, opt_str,
}
use local_content_processor.Storage.World.{Host}
use local_content_processor.Storage.Exec.{Exec, pure, gets, refuse_if, ◌>>=◌, ◌>>◌}
use local_content_processor.Storage.Audit.{append, iter_events, is_str}
use local_content_processor.Storage.JobStore.{set_state}
use local_content_processor.Publisher.Signoff.{
  supersedable, never_signed_off, signoff_event, require_job,
}

-- `d.get(key)` of a nested dictionary, and the texts of a list.
abbrev only_texts : Items → Items
only_texts nil = nil
only_texts (cons (str s) rest) = cons (str s) (only_texts rest)
only_texts (cons v rest) = only_texts rest

-- `line.get("extra", {}).get("flag_categories")`
abbrev flag_categories : Option Json → Option Json
flag_categories (some (obj m)) = get_member "flag_categories" m
flag_categories _ = none

abbrev codes_or : Option Json → Items → Items
codes_or (some (arr is)) old = only_texts is
codes_or _ old = old

abbrev is_gate_of : String → Obj → Bool
is_gate_of job_id line =
    is_str (lookup "job_id" line) job_id && is_str (lookup "event" line) "RISK_GATE"

-- The loop of `_blocking_reason_codes`: the last gate wins.
unfoldable pub reason_codes_from : String → Items → List Obj → Items
reason_codes_from job_id found [] = found
reason_codes_from job_id found (line ∷ rest) =
    reason_codes_from job_id
      (if is_gate_of job_id line
        then codes_or (flag_categories (lookup "extra" line)) found
        else found)
      rest

unfoldable pub blocking_reason_codes : String → List Obj → Items
unfolding reason_codes_from
blocking_reason_codes job_id events = reason_codes_from job_id nil events

-- The sign-off is voided only where there was one.
unfoldable pub void_signoff : Host → String → String → String → JobState → Exec (Unit {0})
void_signoff host job_id ts actor state = if state_mem state never_signed_off then pure tt else (do
  append host (
      signoff_event ts "SIGNOFF_INVALIDATED" job_id actor none
        (("superseded_from_state", str (value state)) ∷ []))
  pure tt)

-- The event that closes the supersession: its type tells a redline override from an abandon.
unfoldable pub record_supersession :
    Host → String → String → Option String → String → JobState → Exec (Unit {0})
unfolding blocking_reason_codes
record_supersession host job_id ts new_job_id actor state =
    if state_eq state blocked
    then (do
      events ← gets (λ w. iter_events w.audit)
      append host (
          signoff_event ts "REDLINE_OVERRIDE" job_id actor none (
            ("superseded_from_state", str (value state))
            ∷ ("blocking_reasons", arr (blocking_reason_codes job_id events))
            ∷ ("new_job_id", opt_str new_job_id)
            ∷ []))
      pure tt)
    else (do
      append host (
          signoff_event ts "SUPERSEDED" job_id actor none (("new_job_id", opt_str new_job_id) ∷ []))
      pure tt)

unfoldable pub supersede : Host → String → String → Option String → String → Bool → Exec JobState
unfolding require_job void_signoff record_supersession
supersede host job_id ts new_job_id actor redline_override = do
  current ← require_job job_id
  refuse_if (not (state_mem current.state supersedable)) not_supersedable
  refuse_if (state_eq current.state blocked && not redline_override) redline_unconfirmed
  void_signoff host job_id ts actor current.state
  set_state job_id superseded ts none none
  record_supersession host job_id ts new_job_id actor current.state
  pure superseded
