-- ===== src/Common/Keeps.antt =====
-- Actions that keep what a view shows of the state, by a rule for each way to build one.
use mathlib.Core.Path.{◌≡◌, refl, ◌∙◌}
use mathlib.Core.Bool.{Bool, true, false}
use matrisea.Common.Bytes.{Str}
use matrisea.Common.Tests.{if◌then◌else◌}
use matrisea.Common.Effect.{
  Result, ok, err, panic, Action, Error, continue, ◌>>=◌, pure, fail, lift, wrap, attempt, catch,
  handle,
}

pub record Keeps {ℓ} {S A V : Type ℓ} (view : S → V) (m : Action S A) : Type ℓ where
  pub same : (s : S) → view (m s).1 ≡ view s

-- An action that leaves the whole state as it was.
abbrev pub ReadsOnly {ℓ} : {S A : Type ℓ} → Action S A → Type ℓ
ReadsOnly m = Keeps (λ s. s) m

module _ {ℓ} {S A V : Type ℓ} (view : S → V) where
  pub Keeps-lift : (r : Result A) → Keeps view (lift r)
  Keeps-lift r = record { same = λ s. refl }

  pub Keeps-pure : (a : A) → Keeps view (pure a)
  Keeps-pure a = record { same = λ s. refl }

  pub Keeps-fail : (e : Error) → Keeps {A = A} view (fail e)
  Keeps-fail e = record { same = λ s. refl }

  pub Keeps-wrap : (msg : Str) (m : Action S A) → Keeps view m → Keeps view (wrap msg m)
  Keeps-wrap msg m h = record { same = h.same }

  pub Keeps-if :
      (b : Bool) (m n : Action S A) → Keeps view m → Keeps view n → Keeps view (if b then m else n)
  Keeps-if true m n hm hn = hm
  Keeps-if false m n hm hn = hn

  pub Keeps-attempt : (m : Action S A) → Keeps view m → Keeps view (attempt m)
  Keeps-attempt m h = record { same = h.same }

  Keeps-handle :
      (r : Result A) (h : Error → Action S A)
      → ((e : Error) → Keeps view (h e))
      → (s : S) → view (handle r h s).1 ≡ view s
  Keeps-handle (ok a) h k s = refl
  Keeps-handle (err e) h k s = (k e).same s
  Keeps-handle panic h k s = refl

  pub Keeps-catch :
      (m : Action S A) (h : Error → Action S A)
      → Keeps view m
      → ((e : Error) → Keeps view (h e))
      → Keeps view (catch m h)
  unfolding catch
  Keeps-catch m h km kh = record { same = λ s. Keeps-handle (m s).0 h kh (m s).1 ∙ km.same s }

module _ {ℓ} {S A B V : Type ℓ} (view : S → V) where
  Keeps-continue :
      (r : Result A) (f : A → Action S B) → ((a : A) → Keeps view (f a)) → Keeps view (continue r f)
  Keeps-continue (ok a) f h = h a
  Keeps-continue (err e) f h = record { same = λ s. refl }
  Keeps-continue panic f h = record { same = λ s. refl }

  pub Keeps-bind :
      (m : Action S A) (f : A → Action S B)
      → Keeps view m
      → ((a : A) → Keeps view (f a))
      → Keeps view (m >>= f)
  unfolding ◌>>=◌
  Keeps-bind m f hm hf = record {
    same = λ s. (Keeps-continue (m s).0 f hf).same (m s).1 ∙ hm.same s;
  }

  -- What follows a call may leave a view as the call has left it.
  pub Keeps-after :
      (m : Action S A) (f : A → Action S B)
      → ((a : A) → Keeps view (f a))
      → (s : S) → view ((m >>= f) s).1 ≡ view (m s).1
  unfolding ◌>>=◌
  Keeps-after m f hf s = (Keeps-continue (m s).0 f hf).same (m s).1

pub ruleset keeps = (
  Keeps-lift, Keeps-pure, Keeps-fail, Keeps-wrap, Keeps-if, Keeps-bind, Keeps-attempt, Keeps-catch,
)
