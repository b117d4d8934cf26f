-- ===== src/Storage/Exec/Respects.antt =====
-- What an action does to the store as a whole, one rule for each way to build an action.
use local_content_processor.Prelude.{
  String, ◌≡◌, refl, Bool, true, false, Option, none, some, if◌then◌else◌,
}
use local_content_processor.Core.Errors.{Error, Result, ok, err, Reason}
use local_content_processor.Storage.World.{World, JobDir, set_dir}
use local_content_processor.Storage.Exec.{
  Exec, pure, raise, lift, gets, some_or, modify, modify_dir, refuse_if, attempt, ◌>>=◌,
}

-- A relation between the store before and after, which does not see where one action ends and the
-- next begins.
pub record IsPreorder (R : World → World → Type 0) : Type 0 where
  pub same : (w : World) → R w w
  pub chain : (u v w : World) → R u v → R v w → R u w

-- `m` leads from a store to a related one, whether it returns or raises.
pub record Respects {A : Type 0} (R : World → World → Type 0) (m : Exec A) : Type 0 where
  pub at : (w : World) → R w (m w).1

module _ {A : Type 0} {R : World → World → Type 0} (o : IsPreorder R) where
  pub Respects-pure : (a : A) → Respects R (pure a)
  unfolding pure
  Respects-pure a = record { at = λ w. o.same w }

  pub Respects-raise : (e : Error) → Respects R (raise {A = A} e)
  unfolding raise
  Respects-raise e = record { at = λ w. o.same w }

  pub Respects-lift : (r : Result A) → Respects R (lift r)
  unfolding lift
  Respects-lift r = record { at = λ w. o.same w }

  pub Respects-gets : (f : World → A) → Respects R (gets f)
  unfolding gets
  Respects-gets f = record { at = λ w. o.same w }

  pub Respects-some_or : (r : Reason) (a : Option A) → Respects R (some_or r a)
  unfolding some_or
  Respects-some_or r none = record { at = λ w. o.same w }
  Respects-some_or r (some a) = record { at = λ w. o.same w }

module _ {R : World → World → Type 0} (o : IsPreorder R) where
  pub Respects-refuse_if : (b : Bool) (r : Reason) → Respects R (refuse_if b r)
  unfolding refuse_if
  Respects-refuse_if true r = record { at = λ w. o.same w }
  Respects-refuse_if false r = record { at = λ w. o.same w }

module _ {R : World → World → Type 0} where
  pub Respects-modify : (f : World → World) → ((w : World) → R w (f w)) → Respects R (modify f)
  unfolding modify
  Respects-modify f h = record { at = h }

  pub Respects-modify_dir :
      (job_id : String) (f : JobDir → JobDir)
      → ((w : World) → R w (set_dir job_id (f (w.dirs job_id)) w))
      → Respects R (modify_dir job_id f)
  unfolding modify_dir
  Respects-modify_dir job_id f h = record { at = h }

module _ {A : Type 0} {R : World → World → Type 0} where
  pub Respects-if :
      (b : Bool) (m n : Exec A)
      → (b ≡ true → Respects R m)
      → (b ≡ false → Respects R n)
      → Respects R (if b then m else n)
  Respects-if true m n p q = p refl
  Respects-if false m n p q = q refl

module _ {A B : Type 0} {R : World → World → Type 0} (o : IsPreorder R) where
  after_respects :
      (r : Result A) (f : A → Exec B) (u v : World)
      → R u v
      → ((a : A) → r ≡ ok a → Respects R (f a))
      → R u ((lift r >>= f) v).1
  unfolding ◌>>=◌
  after_respects (ok a) f u v h g = o.chain u v _ h ((g a refl).at v)
  after_respects (err e) f u v h g = h

  pub Respects-bind :
      (m : Exec A) (f : A → Exec B)
      → Respects R m
      → ((a : A) → Respects R (f a))
      → Respects R (m >>= f)
  unfolding ◌>>=◌
  Respects-bind m f h g = record {
    at = λ w. after_respects (m w).0 f w (m w).1 (h.at w) (λ a _. g a);
  }

  -- The rest of the block may use where the value comes from.
  pub Respects-bind-some_or :
      (r : Reason) (x : Option A) (f : A → Exec B)
      → ((a : A) → x ≡ some a → Respects R (f a))
      → Respects R (some_or r x >>= f)
  unfolding ◌>>=◌
  Respects-bind-some_or r none f g = record { at = λ w. o.same w }
  Respects-bind-some_or r (some a) f g = record { at = λ w. (g a refl).at w }

  -- The rest of the block may use that `r` did not raise.
  pub Respects-bind-lift :
      (r : Result A) (f : A → Exec B)
      → ((a : A) → r ≡ ok a → Respects R (f a))
      → Respects R (lift r >>= f)
  Respects-bind-lift r f g = record { at = λ w. after_respects r f w w (o.same w) g }

module _ {A : Type 0} {R : World → World → Type 0} where
  pub Respects-attempt : (m : Exec A) → Respects R m → Respects R (attempt m)
  unfolding attempt
  Respects-attempt m h = record { at = h.at }

module _ {B : Type 0} {R : World → World → Type 0} (o : IsPreorder R) where
  -- The rest of the block may use that the test failed.
  pub Respects-bind-refuse_if :
      (b : Bool) (r : Reason) (f : Unit {0} → Exec B)
      → (b ≡ false → Respects R (f tt))
      → Respects R (refuse_if b r >>= f)
  unfolding ◌>>=◌
  Respects-bind-refuse_if true r f g = record { at = λ w. o.same w }
  Respects-bind-refuse_if false r f g = record { at = λ w. (g refl).at w }

pub ruleset exec_rules = (
  Respects-pure, Respects-raise, Respects-lift, Respects-gets, Respects-some_or, Respects-refuse_if,
  Respects-if, Respects-bind, Respects-attempt,
)
