-- ===== src/Common/Effect.antt =====
-- Go's results: a value, an error, or a panic; and actions that pass a state on.
use matrisea.Common.Bytes.{Str}

-- A Go `error`, kept as the way it was built; described is built the same way.
pub data Error : Type 0 where
  message : Str → Error
  -- `errors.Wrap(e, m)`, and `fmt.Errorf("m: %w", e)`
  wrapped : Str → Error → Error
  -- the two faults of `strconv`, with the function and the input that its text names
  invalid_syntax out_of_range : Str → Str → Error

pub data Result {ℓ} (A : Type ℓ) : Type ℓ where
  ok : A → Result A
  err : Error → Result A
  panic : Result A

-- What was written before a failure stays written, so the state comes back with every result.
abbrev pub Action {ℓ} : Type ℓ → Type ℓ → Type ℓ
Action S A = S → Result A × S

module _ {ℓ} {S A B : Type ℓ} where
  -- The rest of a function after a call: it runs on the call's value.
  abbrev pub continue : Result A → (A → Action S B) → Action S B
  continue (ok a) f s = f a s
  continue (err e) f s = (err e, s)
  continue panic f s = (panic, s)

  infixl 10 ◌>>=◌ ◌>>◌
  unfoldable pub ◌>>=◌ : Action S A → (A → Action S B) → Action S B
  ◌>>=◌ m f s = let (r, s') = m s in continue r f s'

  abbrev pub ◌>>◌ : Action S A → Action S B → Action S B
  m >> n = m >>= λ _. n

module _ {ℓ} {S A : Type ℓ} where
  abbrev pub pure : A → Action S A
  pure a s = (ok a, s)

  abbrev pub fail : Error → Action S A
  fail e s = (err e, s)

  abbrev pub crash : Action S A
  crash s = (panic, s)

  -- A computation that needs no state.
  abbrev pub lift : Result A → Action S A
  lift r s = (r, s)

-- `errors.Wrap` of a call that returns an error: a nil error stays nil.
abbrev pub wrap_result {ℓ} : {A : Type ℓ} → Str → Result A → Result A
wrap_result msg (ok a) = ok a
wrap_result msg (err e) = err (wrapped msg e)
wrap_result msg panic = panic

module _ {ℓ} {S A : Type ℓ} where
  abbrev pub wrap : Str → Action S A → Action S A
  wrap msg m s = let (r, s') = m s in (wrap_result msg r, s')

  abbrev pub handle : Result A → (Error → Action S A) → Action S A
  handle (ok a) h s = (ok a, s)
  handle (err e) h s = h e s
  handle panic h s = (panic, s)

  -- `if err != nil { … }` with a body that does not return the error as it is.
  unfoldable pub catch : Action S A → (Error → Action S A) → Action S A
  catch m h s = let (r, s') = m s in handle r h s'

  -- The result of a call as a value, where the code goes on whatever it is.
  abbrev pub attempt : Action S A → Action S (Result A)
  attempt m s = let (r, s') = m s in (ok r, s')
