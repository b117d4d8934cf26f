-- ===== src/Publisher/Approval.antt =====
-- What `approve` demands and what it writes (src/lcp/adapters/publisher/signoff.py).
use local_content_processor.Prelude.{
  ℕ, String, arith, ◌≡◌, true, false, Option, none, some, Option-cases, Bool-cases, ◌⊎◌, inl, inr,
  str_eq, str_eq_iff,
}
use local_content_processor.Core.Errors.{
  Result, ok, input_validation, no_freeze, missing_frozen_hash, draft_not_found, body_mismatch,
  title_mismatch, cover_mismatch,
}
use local_content_processor.Core.State.{JobState, review_pending, approved, is_legal_transition}
use local_content_processor.Core.Draft.{Draft}
use local_content_processor.Storage.World.{World, JobRecord, Freeze, Host}
use local_content_processor.Storage.Exec.{◌>>=◌, after}
use local_content_processor.Storage.Audit.{Event, append, tail, line_of, add_line}
use local_content_processor.Storage.Audit.Outcome.{append-outcome}
use local_content_processor.Storage.JobStore.Rows.{find_row, update_row}
use local_content_processor.Storage.JobStore.{with_state}
use local_content_processor.Storage.JobStore.Table.{Refused, set_state_outcome}
use local_content_processor.Publisher.ReviewPacket.{
  freeze_of, compute_body_sha256, compute_title_sha256, compute_review_cover_sha256,
}
use local_content_processor.Publisher.Signoff.{
  SignoffRecord, approve, approve_event, freeze_hashes, given_or_saved, cover_differs,
}

pub only_from_review : (s : JobState) → is_legal_transition s approved ≡ true → s ≡ review_pending
unfolding is_legal_transition
only_from_review s h = ground arith

-- From the store with the new state: the call returns, and the event is written to the log under the
-- next number and linked to the last line, on a line of its own where the last line is ended; or the
-- call raises, and nothing more is written.
abbrev pub SignedOff : Host → Event → World → Result SignoffRecord × World → Type 0
SignedOff host event v out =
    ((rec : SignoffRecord) × (seq : ℕ) × (prev_hash : String) × (tail v.audit ≡ ok (seq, prev_hash))
      × (out ≡ (
        ok rec,
        record v {
          audit = add_line v.audit_ended v.audit (line_of host seq prev_hash event);
          audit_ended = true;
        },
      )))
    ⊎ Refused out v

signed_off :
    (host : Host) (event : Event) (rec : SignoffRecord) (v : World)
    → SignedOff host event v
        (after (append host event v).0 (λ a u. (ok rec, u)) (append host event v).1)
signed_off host event rec v = elim (append-outcome host event v) [
  | inl (x, out) ↦ inr (x, rw out)
  | inr (seq, prev_hash, last, out) ↦ inl (rec, seq, prev_hash, last, rw out)
]

module _ (host : Host) (job_id reviewer ts : String) (draft : Option Draft) (w : World) where
  -- The draft, the freeze and the row that an approval rests on.
  pub record Bound : Type 0 where
    pub freeze : Freeze
    pub checked : Draft
    pub row : JobRecord
    pub is_frozen : freeze_of (w.dirs job_id).review_manifest ≡ some freeze
    pub is_draft : given_or_saved draft (w.dirs job_id) ≡ some checked
    pub body_sha : String
    pub title_sha : String
    pub is_body : freeze.body_sha256 ≡ some body_sha
    pub same_body : compute_body_sha256 host checked ≡ body_sha
    pub is_title : freeze.title_sha256 ≡ some title_sha
    pub same_title : compute_title_sha256 host checked ≡ title_sha
    pub same_cover :
        cover_differs freeze.cover_sha256 (compute_review_cover_sha256 host job_id w) ≡ false
    pub is_row : find_row job_id w.jobs ≡ some row
    pub in_review : row.state ≡ review_pending
    pub written :
        SignedOff host
          (approve_event host ts job_id reviewer body_sha title_sha freeze.cover_sha256)
          (record w { jobs = update_row job_id (with_state approved ts none none) w.jobs })
          (approve host job_id reviewer ts draft w)

  after_checks :
      (f : Freeze) (d : Draft) (b t : String)
      → freeze_of (w.dirs job_id).review_manifest ≡ some f
      → f.body_sha256 ≡ some b
      → f.title_sha256 ≡ some t
      → given_or_saved draft (w.dirs job_id) ≡ some d
      → str_eq (compute_body_sha256 host d) b ≡ true
      → str_eq (compute_title_sha256 host d) t ≡ true
      → cover_differs f.cover_sha256 (compute_review_cover_sha256 host job_id w) ≡ false
      → Refused (approve host job_id reviewer ts draft w) w ⊎ Bound
  unfolding approve ◌>>=◌ freeze_hashes compute_body_sha256 compute_title_sha256
      compute_review_cover_sha256
  after_checks f d b t frozen body title given bound_body bound_title cover =
      elim (set_state_outcome job_id approved ts none none w) [
        | inl (x, out) ↦
            inl (x, rw (frozen, body, title, given, bound_body, bound_title, cover, out))
        | inr (row, found, allowed, resting, out) ↦ inr (record {
          freeze = f;
          checked = d;
          row = row;
          is_frozen = frozen;
          is_draft = given;
          body_sha = b;
          title_sha = t;
          is_body = body;
          same_body = (str_eq_iff _ _).0 bound_body;
          is_title = title;
          same_title = (str_eq_iff _ _).0 bound_title;
          same_cover = cover;
          is_row = found;
          in_review = only_from_review row.state allowed;
          written =
              rw (frozen, body, title, given, bound_body, bound_title, cover, out)
                (signed_off host _ _ _);
        })
      ]

  -- An approval either raises and changes nothing, or there are a frozen packet whose body and title
  -- hashes, and whose cover hash if a cover was frozen, are those of the draft and the cover now on
  -- disk, and a row in REVIEW_PENDING. Then that row is set to APPROVED, and either the call returns
  -- and the sign-off event with those hashes is written to the log, on a line of its own where the
  -- last line is ended, or writing that event raises: then the call raises, the row stays APPROVED
  -- and the log is as it was.
  pub approve_outcome : Refused (approve host job_id reviewer ts draft w) w ⊎ Bound
  unfolding approve ◌>>=◌ freeze_hashes compute_body_sha256 compute_title_sha256
      compute_review_cover_sha256
  approve_outcome = elim (Option-cases (freeze_of (w.dirs job_id).review_manifest)) [
    | inl none_frozen ↦ inl (input_validation no_freeze, rw none_frozen)
    | inr (f, frozen) ↦ elim (Option-cases f.body_sha256) [
      | inl no_body ↦ inl (input_validation missing_frozen_hash, rw (frozen, no_body))
      | inr (b, body) ↦ elim (Option-cases f.title_sha256) [
        | inl no_title ↦ inl (input_validation missing_frozen_hash, rw (frozen, body, no_title))
        | inr (t, title) ↦ elim (Option-cases (given_or_saved draft (w.dirs job_id))) [
          | inl no_draft ↦
              inl (input_validation draft_not_found, rw (frozen, body, title, no_draft))
          | inr (d, given) ↦ elim (Bool-cases (str_eq (compute_body_sha256 host d) b)) [
            | inr other ↦
                inl (input_validation body_mismatch, rw (frozen, body, title, given, other))
            | inl bound_body ↦ elim (Bool-cases (str_eq (compute_title_sha256 host d) t)) [
              | inr other ↦ inl (
                input_validation title_mismatch,
                rw (frozen, body, title, given, bound_body, other),
              )
              | inl bound_title ↦
                  elim (Bool-cases
                    (cover_differs f.cover_sha256 (compute_review_cover_sha256 host job_id w))) [
                      | inl differs ↦ inl (
                        input_validation cover_mismatch,
                        rw (frozen, body, title, given, bound_body, bound_title, differs),
                      )
                      | inr cover ↦
                          after_checks f d b t frozen body title given bound_body bound_title cover
                    ]
            ]
          ]
        ]
      ]
    ]
  ]
