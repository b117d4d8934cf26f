-- ===== src/Storage/Exec.antt =====
-- Methods that read and write the store and may raise: what was written before a raise stays
-- written.
pub mod Respects
use local_content_processor.Prelude.{
  String, Bool, true, false, Option, none, some, ◌≡◌, refl, sym, ap, ◌∙◌, inl, inr,
}
use local_content_processor.Core.Errors.{
  Error, Result, ok, err, Reason, input_validation, Result-cases,
}
use local_content_processor.Storage.World.{World, JobDir, set_dir}

abbrev pub Exec : Type 0 → Type 0
Exec A = World → Result A × World

module _ {A : Type 0} where
  unfoldable pub pure : A → Exec A
  pure a w = (ok a, w)

  unfoldable pub raise : Error → Exec A
  raise e w = (err e, w)

  unfoldable pub lift : Result A → Exec A
  lift r w = (r, w)

  unfoldable pub gets : (World → A) → Exec A
  gets f w = (ok (f w), w)

  -- The value of an option, or a refusal.
  unfoldable pub some_or : Reason → Option A → Exec A
  some_or r none w = (err (input_validation r), w)
  some_or r (some a) w = (ok a, w)

-- `raise InputValidationError(…)`
abbrev pub refuse : {A : Type 0} → Reason → Exec A
refuse r = raise (input_validation r)

unfoldable pub modify : (World → World) → Exec (Unit {0})
modify f w = (ok tt, f w)

-- A write in the folder of one job.
unfoldable pub modify_dir : String → (JobDir → JobDir) → Exec (Unit {0})
modify_dir job_id f w = (ok tt, set_dir job_id (f (w.dirs job_id)) w)

-- `if test: raise InputValidationError(…)`
unfoldable pub refuse_if : Bool → Reason → Exec (Unit {0})
refuse_if true r w = (err (input_validation r), w)
refuse_if false r w = (ok tt, w)

module _ {A B : Type 0} where
  abbrev pub after : Result A → (A → Exec B) → Exec B
  after (ok a) f w = f a w
  after (err e) f w = (err e, w)

  infixl 5 ◌>>=◌ ◌>>◌
  -- Opening this opens the actions above too.
  unfoldable pub ◌>>=◌ : Exec A → (A → Exec B) → Exec B
  unfolding pure raise lift gets some_or modify modify_dir refuse_if
  ◌>>=◌ m f w = after (m w).0 f (m w).1

  abbrev pub ◌>>◌ : Exec A → Exec B → Exec B
  m >> n = m >>= λ _. n

  -- A last `pure` leaves what was written.
  pub after-ok : (r : Result A) (b : B) (w : World) → (after r (λ a v. (ok b, v)) w).1 ≡ w
  after-ok (ok a) b w = refl
  after-ok (err e) b w = refl

  -- Where a sequence returns, its last part returned.
  pub bind_returns :
      (m : Exec A) (f : A → Exec B) (b : B) (w : World)
      → ((m >>= f) w).0 ≡ ok b
      → (a : A) × (v : World) × ((f a v).0 ≡ ok b) × ((m w).0 ≡ ok a)
  unfolding ◌>>=◌
  bind_returns m f b w h = elim (Result-cases (m w).0) [
    | inl (a, e) ↦ (a, (m w).1, sym (ap (λ r. (after r f (m w).1).0) e) ∙ h, e)
    | inr (x, e) ↦ cc (h, e)
  ]

  -- The same, with the store it ends in.
  pub bind_run :
      (m : Exec A) (f : A → Exec B) (b : B) (w : World)
      → ((m >>= f) w).0 ≡ ok b
      → (a : A) × ((m w).0 ≡ ok a) × ((m >>= f) w ≡ f a (m w).1)
  unfolding ◌>>=◌
  bind_run m f b w h = elim (Result-cases (m w).0) [
    | inl (a, e) ↦ (a, e, ap (λ r. after r f (m w).1) e)
    | inr (x, e) ↦ cc (h, e)
  ]

module _ {A : Type 0} where
  -- `try: … except`: the outcome, raised or not, as a value.
  unfoldable pub attempt : Exec A → Exec (Result A)
  attempt m w = (ok (m w).0, (m w).1)
