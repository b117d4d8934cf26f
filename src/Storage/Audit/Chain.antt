-- ===== src/Storage/Audit/Chain.antt =====
-- `append` and `verify_chain` of audit_log.py fit together.
pub mod Unended
pub mod Tampering
use native.Mathlib.Nat.{zero-add}
use mathlib.Core.List.{append-nil}
use local_content_processor.Prelude.{
  ℕ, ◌+◌, String, ◌≡◌, refl, sym, ap, ◌∙◌, true, false, Option, none, some, List, [], ◌∷◌, ◌++◌,
  if◌then◌else◌, length, arith, lookup, str_eq, str_eq_refl, str_eq_iff, ◌⊎◌, inl, inr, and-eq-true,
  any, keys, str_mem, is_empty,
}
use local_content_processor.Core.Errors.{Result, ok, err, Result-cases}
use local_content_processor.Storage.Json.{Json, num, str, obj, members, Obj}
use local_content_processor.Storage.World.{World, Host, Line, object, torn}
use local_content_processor.Storage.Audit.{
  genesis_hash, line_hash, tail, next_link, Event, payload_of, line_of, write_line, append,
  read_lines, payload, is_linked, verify_from, verdict, verify_chain, opt_field, prohibited_keys,
  bad_artifact, is_num, is_str, add_line,
}

-- The number and the hash that a chain from a link ends in.
unfoldable pub end_seq : ℕ → List Obj → ℕ
end_seq n [] = n
end_seq n (o ∷ os) = end_seq (n + 1) os

unfoldable pub end_hash : Host → String → List Obj → String
end_hash host h [] = h
end_hash host h (o ∷ os) = end_hash host (line_hash host h (payload o)) os

pub end_seq-length : (n : ℕ) (os : List Obj) → end_seq n os ≡ n + length os
unfolding end_seq
end_seq-length n [] = omega arith
end_seq-length n (o ∷ os) = omega (arith, end_seq-length (n + 1) os)

verify_from-append :
    (host : Host) (n : ℕ) (h : String) (os : List Obj) (o : Obj)
    → verify_from host n h os ≡ true
    → is_linked host (end_seq n os) (end_hash host h os) o ≡ true
    → verify_from host n h (os ++ o ∷ []) ≡ true
unfolding verify_from end_seq end_hash
verify_from-append host n h [] o v l = ground arith
verify_from-append host n h (x ∷ os) o v l =
    ground (arith, verify_from-append host (n + 1) (line_hash host h (payload x)) os o)

-- The optional fields of a payload.
abbrev optional_fields : Option String → Obj → Obj
optional_fields a x =
    opt_field "artifact_sha256" a (if is_empty x then [] else ("extra", obj (members x)) ∷ [])

without-optional_fields :
    (a : Option String) (x : Obj) (v : Json)
    → payload (optional_fields a x ++ ("hash", v) ∷ []) ≡ optional_fields a x
without-optional_fields none [] v = refl
without-optional_fields none (y ∷ x) v = refl
without-optional_fields (some a) [] v = refl
without-optional_fields (some a) (y ∷ x) v = refl

lookup-optional_fields :
    (a : Option String) (x : Obj) (v : Json)
    → lookup "hash" (optional_fields a x ++ ("hash", v) ∷ []) ≡ some v
lookup-optional_fields none [] v = refl
lookup-optional_fields none (y ∷ x) v = refl
lookup-optional_fields (some a) [] v = refl
lookup-optional_fields (some a) (y ∷ x) v = refl

payload-line_of :
    (host : Host) (n : ℕ) (h : String) (e : Event) → payload (line_of host n h e) ≡ payload_of n h e
unfolding line_of
payload-line_of host n h e = rw (without-optional_fields e.artifact_sha256 e.extra)

-- The line that `append` writes passes the tests of `verify_chain` at its place.
is_linked-line_of :
    (host : Host) (n : ℕ) (h : String) (e : Event) → is_linked host n h (line_of host n h e) ≡ true
unfolding is_linked
is_linked-line_of host n h e = rw (payload-line_of host n h e) (
    unfold line_of in
    rw (lookup-optional_fields e.artifact_sha256 e.extra)
      (ground (arith, str_eq_refl h, str_eq_refl (line_hash host h (payload_of n h e)))))

-- `tail` of a log whose lines decode, from the link that stands before the first of them.
tail_from : ℕ → String → List Obj → Result (ℕ × String)
tail_from n h [] = ok (n, h)
tail_from n h (o ∷ []) = next_link (lookup "seq" o) (lookup "hash" o)
tail_from n h (o ∷ p ∷ os) = tail_from n h (p ∷ os)

tail-read_lines :
    (lines : List Line) (os : List Obj)
    → read_lines lines ≡ ok os
    → tail lines ≡ tail_from 0 genesis_hash os
unfolding read_lines tail tail_from
tail-read_lines [] os r = ground arith
tail-read_lines (torn ∷ lines) os r = cc
tail-read_lines (object o ∷ []) os r = ground arith
tail-read_lines (object o ∷ torn ∷ lines) os r = ground arith
tail-read_lines (object o ∷ object p ∷ lines) os r = elim (Result-cases (read_lines lines)) [
  | inl (qs, e) ↦ ground (arith, tail-read_lines (object p ∷ lines) (p ∷ qs))
  | inr (x, e) ↦ ground arith
]

lookup-payload :
    (k : String) (o : Obj) → str_eq "hash" k ≡ false → lookup k (payload o) ≡ lookup k o
lookup-payload k [] h = refl
lookup-payload k ((j, v) ∷ o) h =
    ground (arith, str_eq_iff j "hash", str_eq_iff "hash" k, str_eq_iff j k, lookup-payload k o h)

pub is_str-eq : (j : Option Json) (s : String) → is_str j s ≡ true → j ≡ some (str s)
is_str-eq (some (str t)) s h = ground (arith, str_eq_iff t s)
is_str-eq _ s h = cc

pub is_num-eq : (j : Option Json) (n : ℕ) → is_num j n ≡ true → j ≡ some (num n)
is_num-eq (some (num m)) n h = ground arith
is_num-eq _ n h = cc

next_link-is_linked :
    (host : Host) (n : ℕ) (h : String) (o : Obj)
    → is_linked host n h o ≡ true
    → next_link (lookup "seq" o) (lookup "hash" o) ≡ ok (n + 1, line_hash host h (payload o))
unfolding is_linked
next_link-is_linked host n h o l = ground (
  arith,
  lookup-payload "seq" o refl,
  is_num-eq (lookup "seq" (payload o)) n,
  is_str-eq (lookup "hash" o) (line_hash host h (payload o)),
)

tail_from-cons :
    (n m : ℕ) (g h : String) (o : Obj) (os : List Obj)
    → tail_from n g (o ∷ os) ≡ tail_from m h (o ∷ os)
unfolding tail_from
tail_from-cons n m g h o [] = refl
tail_from-cons n m g h o (p ∷ os) = tail_from-cons n m g h p os

-- Where the chain is sound, the last line gives the link that comes after it.
tail_from-end :
    (host : Host) (n : ℕ) (h : String) (os : List Obj)
    → verify_from host n h os ≡ true
    → tail_from n h os ≡ ok (end_seq n os, end_hash host h os)
unfolding tail_from verify_from end_seq end_hash
tail_from-end host n h [] v = refl
tail_from-end host n h (o ∷ []) v = next_link-is_linked host n h o (and-eq-true _ _ v).0
tail_from-end host n h (o ∷ p ∷ os) v =
    tail_from-cons n (n + 1) h (line_hash host h (payload o)) p os
    ∙ tail_from-end host (n + 1) (line_hash host h (payload o)) (p ∷ os) (and-eq-true _ _ v).1

read_lines-append :
    (lines : List Line) (os : List Obj) (o : Obj)
    → read_lines lines ≡ ok os
    → read_lines (lines ++ object o ∷ []) ≡ ok (os ++ o ∷ [])
unfolding read_lines
read_lines-append [] os o r = ground arith
read_lines-append (torn ∷ lines) os o r = cc
read_lines-append (object p ∷ lines) os o r = elim (Result-cases (read_lines lines)) [
  | inl (qs, e) ↦ ground (arith, read_lines-append lines qs o)
  | inr (x, e) ↦ ground arith
]

-- A log that verifies decodes, and its objects are linked.
pub verify_chain-objects :
    (host : Host) (lines : List Line)
    → verify_chain host lines ≡ ok true
    → (os : List Obj) × (read_lines lines ≡ ok os) × (verify_from host 0 genesis_hash os ≡ true)
unfolding verify_chain
verify_chain-objects host lines v = elim (Result-cases (read_lines lines)) [
  | inl (os, r) ↦ (os, r, ground arith)
  | inr (x, r) ↦ ground arith
]

abbrev due : Host → Event → Result (List Obj) → Obj
due host e (ok os) = line_of host (length os) (end_hash host genesis_hash os) e
due host e (err x) = []

-- The line that is due after a log that verifies.
pub next_line : Host → World → Event → Obj
next_line host w e = due host e (read_lines w.audit)

-- Whether `append` takes the event: no prohibited key, no artifact hash or a well-formed one, and a
-- host with `fcntl`.
abbrev pub Accepts : Host → Event → Type 0
Accepts host e =
    (any (λ k. str_mem k prohibited_keys) (keys e.extra) ≡ false)
    × (bad_artifact e.artifact_sha256 ≡ false)
    × (host.has_fcntl ≡ true)

append-cases : (host : Host) (e : Event) (w : World) → ((append host e w).1 ≡ w) ⊎ Accepts host e
unfolding append
append-cases host e w = ground arith

append-accepted :
    (host : Host) (e : Event) (w : World)
    → Accepts host e
    → append host e w ≡ write_line host e (tail w.audit) w
unfolding append
append-accepted host e w a = simp (a.0, a.1, a.2)

next_line-decoded :
    (host : Host) (e : Event) (w : World) (os : List Obj)
    → read_lines w.audit ≡ ok os
    → next_line host w e ≡ line_of host (length os) (end_hash host genesis_hash os) e
unfolding next_line
next_line-decoded host e w os r = ap (due host e) r

tail-decoded :
    (host : Host) (lines : List Line) (os : List Obj)
    → read_lines lines ≡ ok os
    → verify_from host 0 genesis_hash os ≡ true
    → tail lines ≡ ok (length os, end_hash host genesis_hash os)
tail-decoded host lines os r l =
    tail-read_lines lines os r
    ∙ tail_from-end host 0 genesis_hash os l
    ∙ ap (λ n. ok (n, end_hash host genesis_hash os)) (omega (arith, end_seq-length 0 os))

write_line-link :
    (host : Host) (e : Event) (w : World) {n : ℕ} {h : String} {line : Obj}
    → tail w.audit ≡ ok (n, h)
    → line ≡ line_of host n h e
    → w.audit_ended ≡ true
    → Accepts host e
    → append host e w
      ≡ (ok line, record w { audit = w.audit ++ object line ∷ []; audit_ended = true })
unfolding append
write_line-link host e w {n} {h} {line} link same t a = simp (a.0, a.1, a.2, link, same, t)

append-decoded :
    (host : Host) (e : Event) (w : World) (os : List Obj)
    → read_lines w.audit ≡ ok os
    → verify_from host 0 genesis_hash os ≡ true
    → w.audit_ended ≡ true
    → Accepts host e
    → append host e w ≡ (
      ok (next_line host w e),
      record w { audit = w.audit ++ object (next_line host w e) ∷ []; audit_ended = true },
    )
append-decoded host e w os r l t a =
    write_line-link host e w (tail-decoded host w.audit os r l) (next_line-decoded host e w os r) t
      a

is_linked-end :
    (host : Host) (e : Event) (os : List Obj)
    → is_linked host
        (end_seq 0 os)
        (end_hash host genesis_hash os)
        (line_of host (length os) (end_hash host genesis_hash os) e)
      ≡ true
is_linked-end host e os =
    rw (end_seq-length 0 os, zero-add) (is_linked-line_of host (length os) _ e)

append_sound :
    (host : Host) (e : Event) (w : World) (os : List Obj)
    → read_lines w.audit ≡ ok os
    → verify_from host 0 genesis_hash os ≡ true
    → verify_chain host (w.audit ++ object (next_line host w e) ∷ []) ≡ ok true
unfolding verify_chain
append_sound host e w os r l = rw (next_line-decoded host e w os r) (
    ap (verdict host) (read_lines-append w.audit os _ r)
    ∙ ap ok (verify_from-append host 0 genesis_hash os _ l (is_linked-end host e os)))

-- On a log that verifies and whose last line is ended, `append` of an event that it accepts writes exactly one line, after the
-- others, numbered by how many there were; it changes nothing else; and the log verifies again.
pub append-verifies :
    (host : Host) (e : Event) (w : World)
    → w.audit_ended ≡ true
    → verify_chain host w.audit ≡ ok true
    → Accepts host e
    → (append host e w ≡ (
      ok (next_line host w e),
      record w { audit = w.audit ++ object (next_line host w e) ∷ []; audit_ended = true },
    ))
      × (verify_chain host (append host e w).1.audit ≡ ok true)
append-verifies host e w t v a =
    let (os, r, l) = verify_chain-objects host w.audit v in
    let wrote = append-decoded host e w os r l t a in
    (wrote, rw wrote (append_sound host e w os r l))

-- Whatever `append` is given, and whether it writes or raises, a log that verifies and whose last line
-- is ended still verifies.
pub append_keeps_chain :
    (host : Host) (e : Event) (w : World)
    → w.audit_ended ≡ true
    → verify_chain host w.audit ≡ ok true
    → verify_chain host (append host e w).1.audit ≡ ok true
append_keeps_chain host e w t v = elim (append-cases host e w) [
  | inl same ↦ rw same v
  | inr a ↦ (append-verifies host e w t v a).1
]

jobs-write_line :
    (host : Host) (e : Event) (link : Result (ℕ × String)) (w : World)
    → ((write_line host e link w).1.jobs ≡ w.jobs) × ((write_line host e link w).1.dirs ≡ w.dirs)
jobs-write_line host e (ok (n, h)) w = (refl, refl)
jobs-write_line host e (err x) w = (refl, refl)

-- `append` touches neither the table nor the folders.
pub append_elsewhere :
    (host : Host) (e : Event) (w : World)
    → ((append host e w).1.jobs ≡ w.jobs) × ((append host e w).1.dirs ≡ w.dirs)
unfolding append
append_elsewhere host e w = ground (arith, jobs-write_line host e (tail w.audit) w)

ended-write_line :
    (host : Host) (e : Event) (link : Result (ℕ × String)) (w : World)
    → w.audit_ended ≡ true
    → (write_line host e link w).1.audit_ended ≡ true
ended-write_line host e (ok (n, h)) w t = refl
ended-write_line host e (err x) w t = t

-- `append` leaves the last line ended.
pub append_ends :
    (host : Host) (e : Event) (w : World)
    → w.audit_ended ≡ true
    → (append host e w).1.audit_ended ≡ true
append_ends host e w t = elim (append-cases host e w) [
  | inl kept ↦ ap (λ (v : World). v.audit_ended) kept ∙ t
  | inr a ↦
      ap (λ (out : Result Obj × World). out.1.audit_ended) (append-accepted host e w a)
      ∙ ended-write_line host e (tail w.audit) w t
]

grows-write_line :
    (host : Host) (e : Event) (link : Result (ℕ × String)) (w : World)
    → w.audit_ended ≡ true
    → (more : List Line) × ((write_line host e link w).1.audit ≡ w.audit ++ more)
grows-write_line host e (ok (n, h)) w t =
    (object (line_of host n h e) ∷ [], ap (λ b. add_line b w.audit (line_of host n h e)) t)
grows-write_line host e (err x) w t = ([], sym (append-nil w.audit))

-- Whatever it is given, `append` leaves the lines that are there, where the last one is ended.
pub append_grows :
    (host : Host) (e : Event) (w : World)
    → w.audit_ended ≡ true
    → (more : List Line) × ((append host e w).1.audit ≡ w.audit ++ more)
append_grows host e w t = elim (append-cases host e w) [
  | inl kept ↦ ([], ap (λ (v : World). v.audit) kept ∙ sym (append-nil w.audit))
  | inr a ↦
      let (more, joined) = grows-write_line host e (tail w.audit) w t in
      (more, ap (λ (out : Result Obj × World). out.1.audit) (append-accepted host e w a) ∙ joined)
]
