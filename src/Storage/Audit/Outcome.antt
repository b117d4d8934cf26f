-- ===== src/Storage/Audit/Outcome.antt =====
-- What one call of `append` of audit_log.py does.
use local_content_processor.Prelude.{
  ℕ, String, ◌≡◌, refl, ◌⊎◌, inl, inr, any, keys, str_mem, subst, Bool-cases, true,
}
use local_content_processor.Core.Errors.{
  Error, Result, ok, err, input_validation, dependency, pii_field, bad_artifact_hash,
}
use local_content_processor.Storage.World.{World, Host}
use local_content_processor.Storage.Json.{Obj}
use local_content_processor.Storage.Audit.{
  Event, append, tail, line_of, write_line, prohibited_keys, bad_artifact, add_line,
}

abbrev pub Written : Host → Event → World → Result Obj × World → Type 0
Written host e w out =
    ((x : Error) × (out ≡ (err x, w)))
    ⊎ ((seq : ℕ) × (prev_hash : String) × (tail w.audit ≡ ok (seq, prev_hash))
        × (out ≡ (
          ok (line_of host seq prev_hash e),
          record w {
            audit = add_line w.audit_ended w.audit (line_of host seq prev_hash e);
            audit_ended = true;
          },
        )))

write_line-Written :
    (host : Host) (e : Event) (w : World) (r : Result (ℕ × String))
    → tail w.audit ≡ r
    → Written host e w (write_line host e r w)
write_line-Written host e w (err x) h = inl (x, refl)
write_line-Written host e w (ok (seq, prev_hash)) h = inr (seq, prev_hash, h, refl)

-- `append` raises and writes nothing, or it writes one line, under the next number and linked to the
-- last line.
pub append-outcome : (host : Host) (e : Event) (w : World) → Written host e w (append host e w)
unfolding append
append-outcome host e w = elim (Bool-cases (any (λ k. str_mem k prohibited_keys) (keys e.extra))) [
  | inl private ↦ inl (input_validation pii_field, rw private)
  | inr plain ↦ elim (Bool-cases (bad_artifact e.artifact_sha256)) [
    | inl bad ↦ inl (input_validation bad_artifact_hash, rw (plain, bad))
    | inr good ↦ elim (Bool-cases host.has_fcntl) [
      | inl locks ↦
          subst (Written host e w) (rw (plain, good, locks))
            (write_line-Written host e w (tail w.audit) refl)
      | inr no_lock ↦ inl (dependency, rw (plain, good, no_lock))
    ]
  ]
]
