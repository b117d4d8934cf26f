-- ===== src/Storage/Audit/Chain/Unended.antt =====
-- `append` of audit_log.py on a log whose last line lacks its newline.
use local_content_processor.Prelude.{◌≡◌, refl, ap, ◌∙◌, true, false, List, [], ◌∷◌, length}
use local_content_processor.Core.Errors.{ok, err, uncaught}
use local_content_processor.Storage.Json.{Obj}
use local_content_processor.Storage.World.{World, Host, Line, object, torn}
use local_content_processor.Storage.Audit.{
  genesis_hash, Event, append, joined_last, line_of, read_lines, verdict, verify_chain, write_line,
  add_line,
}
use local_content_processor.Storage.Audit.Chain.{
  Accepts, append-accepted, tail-decoded, verify_chain-objects, end_hash,
}

-- Two objects on one line are no JSON.
read_lines-joined_last :
    (line : Line) (lines : List Line) (o : Obj)
    → read_lines (joined_last (line ∷ lines) o) ≡ err uncaught
unfolding read_lines
read_lines-joined_last line [] o = refl
read_lines-joined_last torn (next ∷ lines) o = refl
read_lines-joined_last (object p) (next ∷ lines) o = rw (read_lines-joined_last next lines o)

-- On a log of one line or more that verifies and whose last line lacks its newline, an event that
-- `append` accepts is joined to that line: the call returns, and the log no longer verifies but
-- raises.
pub append_unended_breaks :
    (host : Host) (e : Event) (line : Line) (lines : List Line) (w : World)
    → w.audit ≡ line ∷ lines
    → w.audit_ended ≡ false
    → verify_chain host w.audit ≡ ok true
    → Accepts host e
    → ((rec : Obj) × ((append host e w).0 ≡ ok rec))
      × (verify_chain host (append host e w).1.audit ≡ err uncaught)
unfolding verify_chain
append_unended_breaks host e line lines w some_line unended v a =
    let (os, r, l) = verify_chain-objects host w.audit v in
    let link = tail-decoded host w.audit os r l in
    let wrote = append-accepted host e w a ∙ ap (λ k. write_line host e k w) link in
    let rec = line_of host (length os) (end_hash host genesis_hash os) e in
    (
      (rec, ap (λ out. out.0) wrote),
      ap (λ out. verdict host (read_lines out.1.audit)) wrote
          ∙ ap (λ b. verdict host (read_lines (add_line b w.audit rec))) unended
          ∙ ap (λ ls. verdict host (read_lines (joined_last ls rec))) some_line
          ∙ ap (verdict host) (read_lines-joined_last line lines rec),
    )
