-- ===== src/Common/Steps.antt =====
-- Following an action step by step.
use mathlib.Core.Path.{◌≡◌, refl, ap}
use mathlib.Core.Logic.{◌≢◌}
use matrisea.Common.Bytes.{Str}
use matrisea.Common.Effect.{
  Result, ok, err, panic, Action, Error, wrapped, continue, ◌>>=◌, wrap, wrap_result,
}

module _ {ℓ} {S A B : Type ℓ} where
  -- What follows a call that has returned a value runs on that value.
  pub bind-eq :
      (m : Action S A) (f : A → Action S B) (s t : S) (a : A)
      → m s ≡ (ok a, t)
      → (m >>= f) s ≡ f a t
  unfolding ◌>>=◌
  bind-eq m f s t a h = rw h

  -- What follows a call that has returned an error does not run.
  pub bind-eq_err :
      (m : Action S A) (f : A → Action S B) (s t : S) (e : Error)
      → m s ≡ (err e, t)
      → (m >>= f) s ≡ (err e, t)
  unfolding ◌>>=◌
  bind-eq_err m f s t e h = rw h

  -- What follows depends on a call's outcome alone.
  pub bind-same :
      (m n : Action S A) (f : A → Action S B) (s : S) → m s ≡ n s → (m >>= f) s ≡ (n >>= f) s
  unfolding ◌>>=◌
  bind-same m n f s h = ap (λ (o : Result A × S). continue o.0 f o.1) h

  continue-inv :
      (r : Result A) (f : A → Action S B) (t : S) (b : B)
      → (continue r f t).0 ≡ ok b
      → (a : A) × (r ≡ ok a) × (continue r f t ≡ f a t)
  continue-inv (ok a) f t b h = (a, refl, refl)
  continue-inv (err e) f t b h = absurd (cc)
  continue-inv panic f t b h = absurd (cc)

  -- A sequence that succeeds began with a call that succeeded.
  pub bind-inv :
      (m : Action S A) (f : A → Action S B) (s : S) (b : B)
      → ((m >>= f) s).0 ≡ ok b
      → (a : A) × ((m s).0 ≡ ok a) × ((m >>= f) s ≡ f a (m s).1)
  unfolding ◌>>=◌
  bind-inv m f s b h = continue-inv (m s).0 f (m s).1 b h

  -- And what followed the call has succeeded on its value.
  pub bind-inv_next :
      (m : Action S A) (f : A → Action S B) (s : S) (b : B)
      → ((m >>= f) s).0 ≡ ok b
      → (a : A) × ((m s).0 ≡ ok a) × ((f a (m s).1).0 ≡ ok b)
  bind-inv_next m f s b h = let (a, done, e) = bind-inv m f s b h in (a, done, rw e at h)

  continue-ne_panic :
      (r : Result A) (f : A → Action S B) (t : S)
      → r ≢ panic
      → ((a : A) (u : S) → (f a u).0 ≢ panic)
      → (continue r f t).0 ≢ panic
  continue-ne_panic (ok a) f t h k = k a t
  continue-ne_panic (err e) f t h k = λ p. cc
  continue-ne_panic panic f t h k = absurd (h refl)

  -- A sequence of calls that do not panic does not panic.
  pub bind-ne_panic :
      (m : Action S A) (f : A → Action S B) (s : S)
      → (m s).0 ≢ panic
      → ((a : A) (u : S) → (f a u).0 ≢ panic)
      → ((m >>= f) s).0 ≢ panic
  unfolding ◌>>=◌
  bind-ne_panic m f s h k = continue-ne_panic (m s).0 f (m s).1 h k

pub wrap_result-ne_panic {ℓ} :
    {A : Type ℓ} (msg : Str) (r : Result A) → r ≢ panic → wrap_result msg r ≢ panic
wrap_result-ne_panic msg (ok a) h = λ p. cc
wrap_result-ne_panic msg (err e) h = λ p. cc
wrap_result-ne_panic msg panic h = absurd (h refl)

wrap_result-inv {ℓ} :
    {A : Type ℓ} (msg : Str) (r : Result A) (a : A) → wrap_result msg r ≡ ok a → r ≡ ok a
wrap_result-inv msg (ok b) a h = h
wrap_result-inv msg (err e) a h = absurd (cc)
wrap_result-inv msg panic a h = absurd (cc)

module _ {ℓ} {S A : Type ℓ} where
  pub wrap-eq :
      (msg : Str) (m : Action S A) (s t : S) (a : A) → m s ≡ (ok a, t) → wrap msg m s ≡ (ok a, t)
  wrap-eq msg m s t a h = rw h

  pub wrap-eq_err :
      (msg : Str) (m : Action S A) (s t : S) (e : Error)
      → m s ≡ (err e, t)
      → wrap msg m s ≡ (err (wrapped msg e), t)
  wrap-eq_err msg m s t e h = rw h

  pub wrap-inv :
      (msg : Str) (m : Action S A) (s : S) (a : A) → (wrap msg m s).0 ≡ ok a → (m s).0 ≡ ok a
  wrap-inv msg m s a h = wrap_result-inv msg (m s).0 a h
