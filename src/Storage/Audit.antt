-- ===== src/Storage/Audit.antt =====
-- src/lcp/adapters/storage/audit_log.py: the append-only log with its hash chain.
pub mod Chain
pub mod Outcome
use local_content_processor.Prelude.{
  ℕ, zero, suc, ◌+◌, String, Bool, true, false, not, ◌&&◌, ◌||◌, Option, none, some, List, [], ◌∷◌,
  ◌++◌, any, leb, ◌==◌, str_eq, str_mem, lookup, without, keys, is_empty, if◌then◌else◌,
}
use local_content_processor.Prelude.Texts.{Text, codes}
use local_content_processor.Core.Errors.{
  Result, ok, err, input_validation, dependency, uncaught, pii_field, bad_artifact_hash,
}
use local_content_processor.Storage.Json.{Json, str, num, obj, Obj, members}
use local_content_processor.Storage.World.{World, Host, Line, object, torn}
use local_content_processor.Storage.Exec.{Exec}

abbrev pub genesis_hash : String
genesis_hash = "0000000000000000000000000000000000000000000000000000000000000000"

-- `_PROHIBITED_KEYS`
abbrev pub prohibited_keys : List String
prohibited_keys =
    "title" ∷ "body" ∷ "text" ∷ "source_url" ∷ "url" ∷ "author" ∷ "domain" ∷ "review_message"
    ∷ "name" ∷ "email" ∷ "phone" ∷ []

abbrev is_hex_digit : ℕ → Bool
is_hex_digit c = (leb b'0' c && leb c b'9') || (leb b'a' c && leb c b'f')

-- `^[0-9a-f]{n}$`, where `$` also matches before a newline that ends the text.
unfoldable pub hex_run : ℕ → Text → Bool
hex_run zero [] = true
hex_run zero (c ∷ []) = c == 10
hex_run zero (c ∷ d ∷ rest) = false
hex_run (suc n) [] = false
hex_run (suc n) (c ∷ rest) = is_hex_digit c && hex_run n rest

-- `_SHA256_RE.match`
unfoldable pub is_sha256 : String → Bool
is_sha256 s = hex_run 64 (codes s)

-- `_line_hash`
unfoldable pub line_hash : Host → String → Obj → String
line_hash host prev_hash payload = host.sha256 (codes prev_hash ++ host.canonical payload)

-- `payload.get(key) == n` and `payload.get(key) == s`
abbrev pub is_num : Option Json → ℕ → Bool
is_num (some (num m)) n = m == n
is_num _ n = false

abbrev pub is_str : Option Json → String → Bool
is_str (some (str t)) s = str_eq t s
is_str _ s = false

-- `rec["seq"] + 1, rec["hash"]`; a number and a text, which `append` writes, or the call raises.
abbrev pub next_link : Option Json → Option Json → Result (ℕ × String)
next_link (some (num seq)) (some (str hash)) = ok (seq + 1, hash)
next_link _ _ = err uncaught

-- `_tail`: the next sequence number and the hash to link to, from the last line alone.
unfoldable pub tail : List Line → Result (ℕ × String)
tail [] = ok (0, genesis_hash)
tail (torn ∷ []) = err uncaught
tail (object rec ∷ []) = next_link (lookup "seq" rec) (lookup "hash" rec)
tail (line ∷ next ∷ rest) = tail (next ∷ rest)

-- An event, as a caller hands it to `append`.
pub record Event : Type 0 where
  pub ts : String
  pub stage : String
  pub event : String
  pub job_id : String
  pub actor : String
  pub artifact_sha256 : Option String
  pub extra : Obj

abbrev opt_field : String → Option String → Obj → Obj
opt_field k none rest = rest
opt_field k (some s) rest = (k, str s) ∷ rest

-- The payload that is hashed.
unfoldable pub payload_of : ℕ → String → Event → Obj
payload_of seq prev_hash e =
    ("seq", num seq)
    ∷ ("ts", str e.ts)
    ∷ ("stage", str e.stage)
    ∷ ("event", str e.event)
    ∷ ("job_id", str e.job_id)
    ∷ ("actor", str e.actor)
    ∷ ("prev_hash", str prev_hash)
    ∷ opt_field "artifact_sha256" e.artifact_sha256
        (if is_empty e.extra then [] else ("extra", obj (members e.extra)) ∷ [])

-- The line that is written: the payload and its hash.
unfoldable pub line_of : Host → ℕ → String → Event → Obj
unfolding payload_of
line_of host seq prev_hash e =
    payload_of seq prev_hash e
    ++ ("hash", str (line_hash host prev_hash (payload_of seq prev_hash e))) ∷ []

abbrev bad_artifact : Option String → Bool
bad_artifact none = false
bad_artifact (some s) = not (is_sha256 s)

-- The lines after the write. Behind a last line without its newline, two objects are on one line.
abbrev pub joined_last : List Line → Obj → List Line
joined_last [] o = object o ∷ []
joined_last (line ∷ []) o = torn ∷ []
joined_last (line ∷ next ∷ rest) o = line ∷ joined_last (next ∷ rest) o

abbrev pub add_line : Bool → List Line → Obj → List Line
add_line true lines o = lines ++ object o ∷ []
add_line false lines o = joined_last lines o

-- The part of `append` under the lock.
abbrev pub write_line : Host → Event → Result (ℕ × String) → Exec Obj
write_line host e (err x) w = (err x, w)
write_line host e (ok (seq, prev_hash)) w = (
  ok (line_of host seq prev_hash e),
  record w {
    audit = add_line w.audit_ended w.audit (line_of host seq prev_hash e);
    audit_ended = true;
  },
)

unfoldable pub append : Host → Event → Exec Obj
append host e w =
    if any (λ k. str_mem k prohibited_keys) (keys e.extra)
    then (err (input_validation pii_field), w)
    else if bad_artifact e.artifact_sha256
    then (err (input_validation bad_artifact_hash), w)
    else if not host.has_fcntl
    then (err dependency, w)
    else write_line host e (tail w.audit) w

-- `iter_events`: the lines that decode, in the order of the file.
unfoldable pub iter_events : List Line → List Obj
iter_events [] = []
iter_events (object o ∷ rest) = o ∷ iter_events rest
iter_events (torn ∷ rest) = iter_events rest

-- `_read_lines`: a line that is no JSON raises.
unfoldable pub read_lines : List Line → Result (List Obj)
read_lines [] = ok []
read_lines (torn ∷ rest) = err uncaught
read_lines (object o ∷ rest) = elim (read_lines rest) [ ok os ↦ ok (o ∷ os) | err e ↦ err e ]

-- `{k: v for k, v in line.items() if k != "hash"}`
abbrev pub payload : Obj → Obj
payload line = without "hash" line

-- The three tests on one line; a missing hash fails the last one.
unfoldable pub is_linked : Host → ℕ → String → Obj → Bool
is_linked host expected_seq prev_hash line =
    is_num (lookup "seq" (payload line)) expected_seq
    && is_str (lookup "prev_hash" (payload line)) prev_hash
    && is_str (lookup "hash" line) (line_hash host prev_hash (payload line))

-- The loop of `verify_chain`; the stored hash that it goes on with is the one it has just checked.
unfoldable pub verify_from : Host → ℕ → String → List Obj → Bool
verify_from host expected_seq prev_hash [] = true
verify_from host expected_seq prev_hash (line ∷ rest) =
    is_linked host expected_seq prev_hash line
    && verify_from host (expected_seq + 1) (line_hash host prev_hash (payload line)) rest

abbrev pub verdict : Host → Result (List Obj) → Result Bool
verdict host (ok lines) = ok (verify_from host 0 genesis_hash lines)
verdict host (err e) = err e

unfoldable pub verify_chain : Host → List Line → Result Bool
unfolding read_lines verify_from is_linked
verify_chain host lines = verdict host (read_lines lines)
