-- ===== src/Vmm/Find/First.antt =====
-- What a lookup by a name finds, in terms of the names alone.
use matrisea.Common.{
  Str, Bool-cases, true, false, ◌≡◌, inl, inr, refl, sym, ap, ◌∙◌, Option, none, some, List, [],
  ◌∷◌, ◌++◌, arith,
}
use matrisea.Common.Among.{Among}
use matrisea.Go.Strings.{has_prefix, contains}
use matrisea.Go.Strings.Prefix.{has_prefix-append, contains-append}
use matrisea.Docker.{Container}
use matrisea.Vmm.Host.{Vmm}
use matrisea.Vmm.Find.{name_prefix, is_target, has_target, find_id}

has_prefix-inv : (s p : Str) → has_prefix s p ≡ true → (r : Str) × (s ≡ p ++ r)
unfolding has_prefix
has_prefix-inv s [] h = (s, refl)
has_prefix-inv [] (c ∷ p) h = absurd (cc)
has_prefix-inv (a ∷ s) (c ∷ p) h =
    let tail : has_prefix s p ≡ true = ground arith in
    let (r, e) = has_prefix-inv s p tail in let head : a ≡ c = ground arith in (r, ground arith)

contains-inv : (s t : Str) → contains s t ≡ true → (l : Str) × (r : Str) × (s ≡ l ++ (t ++ r))
unfolding contains
contains-inv [] t h = let (r, e) = has_prefix-inv [] t h in ([], r, e)
contains-inv (c ∷ s) t h = elim (Bool-cases (has_prefix (c ∷ s) t)) [
  | inl here ↦ let (r, e) = has_prefix-inv (c ∷ s) t here in ([], r, e)
  | inr later ↦
      let (l, r, e) = contains-inv s t (ground arith) in (c ∷ l, r, ap (λ (x : Str). c ∷ x) e)
]

-- A name of the manager's that holds the target.
pub record IsNamed (v : Vmm) (target name : Str) : Type 0 where
  pub rest : Str
  pub left : Str
  pub right : Str
  pub prefixed : name ≡ name_prefix v ++ rest
  pub holds : name ≡ left ++ (target ++ right)

pub record HasName (v : Vmm) (target : Str) (c : Container) : Type 0 where
  pub name : Str
  pub own : Among name c.names
  pub named : IsNamed v target name

-- What is found: the first container with such a name, or none where none has one.
pub IsFirst : Vmm → Str → List Container → Option Str → Type 0
IsFirst v target cs none = (c : Container) → Among c cs → ¬ HasName v target c
IsFirst v target cs (some id) =
    (before : List Container) × (c : Container) × (after : List Container) × (cs
      ≡ before ++ (c ∷ after))
    × (c.id ≡ id)
    × HasName v target c
    × ((d : Container) → Among d before → ¬ HasName v target d)

module _ (v : Vmm) (target : Str) where
  is_target-IsNamed : (name : Str) → is_target v target name ≡ true → IsNamed v target name
  unfolding is_target
  is_target-IsNamed name h =
      let (rest, p) = has_prefix-inv name (name_prefix v) (ground arith) in
      let (left, right, q) = contains-inv name target (ground arith) in
      record { rest = rest; left = left; right = right; prefixed = p; holds = q }

  IsNamed-is_target : (name : Str) → IsNamed v target name → is_target v target name ≡ true
  unfolding is_target
  IsNamed-is_target name n =
      let p : has_prefix name (name_prefix v) ≡ true =
        ap (λ (s : Str). has_prefix s (name_prefix v)) n.prefixed
        ∙ has_prefix-append (name_prefix v) n.rest in
      let q : contains name target ≡ true =
        ap (λ (s : Str). contains s target) n.holds ∙ contains-append n.left target n.right in
      rw p q

  has_target-inv :
      (names : List Str)
      → has_target v target names ≡ true
      → (n : Str) × Among n names × IsNamed v target n
  unfolding has_target
  has_target-inv [] h = absurd (cc)
  has_target-inv (n ∷ ns) h = elim (Bool-cases (is_target v target n)) [
    | inl own ↦ (n, inl refl, is_target-IsNamed n own)
    | inr other ↦ let (m, among, named) = has_target-inv ns (ground arith) in (m, inr among, named)
  ]

  has_target-Among :
      (names : List Str) (n : Str)
      → Among n names
      → IsNamed v target n
      → has_target v target names ≡ true
  unfolding has_target
  has_target-Among [] n among named = absurd among
  has_target-Among (m ∷ ms) n (inl e) named =
      let own : is_target v target m ≡ true =
        ap (λ (s : Str). is_target v target s) (sym e) ∙ IsNamed-is_target n named in
      rw own refl
  has_target-Among (m ∷ ms) n (inr among) named =
      let later = has_target-Among ms n among named in ground arith

  pub HasName-has_target : (c : Container) → HasName v target c → has_target v target c.names ≡ true
  HasName-has_target c h = has_target-Among c.names h.name h.own h.named

  not_named : (c : Container) → has_target v target c.names ≡ false → ¬ HasName v target c
  not_named c f h = let t = HasName-has_target c h in cc

  found_here : (c : Container) → has_target v target c.names ≡ true → HasName v target c
  found_here c h =
      let (n, own, named) = has_target-inv c.names h in
      record { name = n; own = own; named = named }

  IsFirst-later :
      (c : Container) (cs : List Container) (o : Option Str)
      → ¬ HasName v target c
      → IsFirst v target cs o
      → IsFirst v target (c ∷ cs) o
  unfolding IsFirst
  IsFirst-later c cs none other h =
      λ d m. elim m [ inl e ↦ (λ n. other (rw e at n)) | inr later ↦ h d later ]
  IsFirst-later c cs (some id) other (before, d, after, e, i, named, none_before) = (
    c ∷ before,
    d,
    after,
    ap (λ (l : List Container). c ∷ l) e,
    i,
    named,
    λ b m. elim m [ inl same ↦ (λ n. other (rw same at n)) | inr later ↦ none_before b later ],
  )

  -- getContainerIDByName's search finds the identifier of the first container that has a name which
  -- is the manager's prefix and more, and which holds the target somewhere; it finds none exactly
  -- where no container has such a name.
  pub find_id-IsFirst : (cs : List Container) → IsFirst v target cs (find_id v target cs)
  unfolding find_id IsFirst
  find_id-IsFirst [] = λ c m. absurd m
  find_id-IsFirst (c ∷ cs) = elim (Bool-cases (has_target v target c.names)) [
    | inl here ↦ rw here ([], c, cs, refl, refl, found_here c here, λ d m. absurd m)
    | inr other ↦
        rw other (IsFirst-later c cs (find_id v target cs) (not_named c other) (find_id-IsFirst cs))
  ]

  Among-append :
      (before : List Container) (c : Container) (after : List Container)
      → Among c (before ++ (c ∷ after))
  Among-append [] c after = inl refl
  Among-append (b ∷ before) c after = inr (Among-append before c after)

  first_of_none :
      (ms : List Container) (o : Option Str)
      → IsFirst v target ms o
      → ((c : Container) → Among c ms → ¬ HasName v target c)
      → o ≡ none
  unfolding IsFirst
  first_of_none ms none first h = refl
  first_of_none ms (some id) (before, c, after, e, i, named, none_before) h =
      absurd (h c (rw e (Among-append before c after)) named)

  pub find_id-none :
      (ms : List Container)
      → ((c : Container) → Among c ms → ¬ HasName v target c)
      → find_id v target ms ≡ none
  find_id-none ms h = first_of_none ms (find_id v target ms) (find_id-IsFirst ms) h

  first_of_alone :
      (ms : List Container) (c : Container) (o : Option Str)
      → IsFirst v target ms o
      → Among c ms
      → HasName v target c
      → ((d : Container) → Among d ms → HasName v target d → d ≡ c)
      → o ≡ some c.id
  unfolding IsFirst
  first_of_alone ms c none first m named alone = absurd (first c m named)
  first_of_alone ms c (some id) (before, d, after, e, i, other, none_before) m named alone =
      let same : d ≡ c = alone d (rw e (Among-append before d after)) other in
      ap some (sym i ∙ ap (λ (x : Container). x.id) same)

  -- A container that alone has such a name is the one that is found.
  pub find_id-alone :
      (ms : List Container) (c : Container)
      → Among c ms
      → HasName v target c
      → ((d : Container) → Among d ms → HasName v target d → d ≡ c)
      → find_id v target ms ≡ some c.id
  find_id-alone ms c m named alone =
      first_of_alone ms c (find_id v target ms) (find_id-IsFirst ms) m named alone
