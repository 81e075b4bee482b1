-- ===== src/Common/Preserves.antt =====
-- Actions that preserve an invariant of the state, by a rule for each way to build one.
use mathlib.Core.Path.{◌≡◌, refl}
use mathlib.Core.Bool.{Bool, true, false}
use matrisea.Common.Bytes.{Str}
use matrisea.Common.Tests.{if◌then◌else◌}
use matrisea.Common.Effect.{
  Result, ok, err, panic, Action, Error, continue, ◌>>=◌, pure, lift, wrap, attempt, catch, handle,
}

pub record Preserves {S A : Type 0} (I : S → Type 0) (m : Action S A) : Type 0 where
  pub after : (s : S) → I s → I (m s).1

module _ {S A : Type 0} (I : S → Type 0) where
  pub Preserves-lift : (r : Result A) → Preserves I (lift r)
  Preserves-lift r = record { after = λ s i. i }

  pub Preserves-pure : (a : A) → Preserves I (pure a)
  Preserves-pure a = record { after = λ s i. i }

  pub Preserves-wrap : (msg : Str) (m : Action S A) → Preserves I m → Preserves I (wrap msg m)
  Preserves-wrap msg m h = record { after = h.after }

  pub Preserves-attempt : (m : Action S A) → Preserves I m → Preserves I (attempt m)
  Preserves-attempt m h = record { after = h.after }

  pub Preserves-if :
      (b : Bool) (m n : Action S A)
      → Preserves I m
      → Preserves I n
      → Preserves I (if b then m else n)
  Preserves-if true m n hm hn = hm
  Preserves-if false m n hm hn = hn

  after_handle :
      (r : Result A) (h : Error → Action S A)
      → ((e : Error) → Preserves I (h e))
      → (s : S) → I s
      → I (handle r h s).1
  after_handle (ok a) h k s i = i
  after_handle (err e) h k s i = (k e).after s i
  after_handle panic h k s i = i

  pub Preserves-catch :
      (m : Action S A) (h : Error → Action S A)
      → Preserves I m
      → ((e : Error) → Preserves I (h e))
      → Preserves I (catch m h)
  unfolding catch
  Preserves-catch m h km kh = record {
    after = λ s i. after_handle (m s).0 h kh (m s).1 (km.after s i);
  }

module _ {S A B : Type 0} (I : S → Type 0) where
  -- What follows a call needs the invariant alone.
  after_continue :
      (r : Result A) (f : A → Action S B)
      → ((a : A) → Preserves I (f a))
      → (s : S) → I s
      → I (continue r f s).1
  after_continue (ok a) f h s i = (h a).after s i
  after_continue (err e) f h s i = i
  after_continue panic f h s i = i

  pub Preserves-bind :
      (m : Action S A) (f : A → Action S B)
      → Preserves I m
      → ((a : A) → Preserves I (f a))
      → Preserves I (m >>= f)
  unfolding ◌>>=◌
  Preserves-bind m f hm hf = record {
    after = λ s i. after_continue (m s).0 f hf (m s).1 (hm.after s i);
  }

module _ {S A B C : Type 0} (I : S → Type 0) where
  two_after :
      (r : Result A) (n : A → Action S B) (g : A → B → Action S C) (s : S)
      → ((a : A) → r ≡ ok a → I (n a s).1)
      → I s
      → ((a : A) (b : B) → Preserves I (g a b))
      → I (continue r (λ a. n a >>= g a) s).1
  unfolding ◌>>=◌
  two_after (ok a) n g s h i k = after_continue I (n a s).0 (g a) (k a) (n a s).1 (h a refl)
  two_after (err e) n g s h i k = i
  two_after panic n g s h i k = i

  -- Two calls, where the second one works on what the first has returned.
  pub Preserves-two :
      (m : Action S A) (n : A → Action S B) (g : A → B → Action S C)
      → Preserves I m
      → ((s : S) (a : A) → I s → (m s).0 ≡ ok a → I (n a (m s).1).1)
      → ((a : A) (b : B) → Preserves I (g a b))
      → Preserves I (m >>= λ a. n a >>= g a)
  Preserves-two m n g hm hn hg = record {
    after =
        λ s i. unfold ◌>>=◌ in two_after (m s).0 n g (m s).1 (λ a e. hn s a i e) (hm.after s i) hg;
  }

pub ruleset preserves = (
  Preserves-lift, Preserves-pure, Preserves-wrap, Preserves-attempt, Preserves-if, Preserves-catch,
  Preserves-bind,
)
