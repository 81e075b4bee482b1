-- ===== src/Vmm/Remove/Lists.antt =====
-- Lists of containers from which one is taken away.
use matrisea.Common.{
  Str, str_eq, str_eq_iff, str_eq_refl, Bool, true, false, ◌≡◌, refl, sym, ◌∙◌, ap, List, [], ◌∷◌,
  Result, ok, err, panic, arith, Bool-cases, inl, inr, if◌then◌else◌,
}
use matrisea.Go.Strings.{has_prefix}
use matrisea.Docker.{Container}
use matrisea.Vmm.Host.{Vmm}
use matrisea.Vmm.Find.{name_prefix, keep_managed, managed}

-- The containers that are left when the one of an identifier is gone.
unfoldable pub without : Str → List Container → List Container
without id [] = []
without id (c ∷ cs) = let rest = without id cs in if str_eq c.id id then rest else c ∷ rest

-- No container of the list has the identifier.
abbrev pub IsFresh : Str → List Container → Type 0
IsFresh id [] = Unit
IsFresh id (c ∷ cs) = (str_eq c.id id ≡ false) × IsFresh id cs

-- No two containers have the same identifier.
abbrev pub AreIdsDistinct : List Container → Type 0
AreIdsDistinct [] = Unit
AreIdsDistinct (c ∷ cs) = IsFresh c.id cs × AreIdsDistinct cs

-- The first name begins with the manager's prefix.
abbrev pub first_prefixed : Vmm → List Str → Bool
first_prefixed v [] = false
first_prefixed v (name ∷ names) = has_prefix name (name_prefix v)

-- The containers that are not the manager's.
unfoldable pub unmanaged : Vmm → List Container → List Container
unmanaged v [] = []
unmanaged v (c ∷ cs) =
    let rest = unmanaged v cs in if first_prefixed v c.names then rest else c ∷ rest

without-IsFresh : (id : Str) (cs : List Container) → IsFresh id cs → without id cs ≡ cs
unfolding without
without-IsFresh id [] h = refl
without-IsFresh id (c ∷ cs) h =
    rw h.0 (ap (λ (l : List Container). c ∷ l) (without-IsFresh id cs h.1))

without_head : (c : Container) (cs : List Container) → IsFresh c.id cs → without c.id (c ∷ cs) ≡ cs
unfolding without
without_head c cs h = rw (str_eq_refl c.id) (without-IsFresh c.id cs h)

without_other :
    (id : Str) (c : Container) (cs : List Container)
    → str_eq c.id id ≡ false
    → without id (c ∷ cs) ≡ c ∷ without id cs
unfolding without
without_other id c cs h = rw h

IsFresh-without :
    (id gone : Str) (cs : List Container) → IsFresh id cs → IsFresh id (without gone cs)
unfolding without
IsFresh-without id gone [] h = tt
IsFresh-without id gone (c ∷ cs) h = elim (Bool-cases (str_eq c.id gone)) [
  | inl this ↦ rw this (IsFresh-without id gone cs h.1)
  | inr other ↦ rw other (h.0, IsFresh-without id gone cs h.1)
]

pub AreIdsDistinct-without :
    (gone : Str) (cs : List Container) → AreIdsDistinct cs → AreIdsDistinct (without gone cs)
unfolding without
AreIdsDistinct-without gone [] h = tt
AreIdsDistinct-without gone (c ∷ cs) h = elim (Bool-cases (str_eq c.id gone)) [
  | inl this ↦ rw this (AreIdsDistinct-without gone cs h.1)
  | inr other ↦ rw other (IsFresh-without c.id gone cs h.0, AreIdsDistinct-without gone cs h.1)
]

module _ (v : Vmm) (c : Container) where
  keep-inv :
      (names : List Str) (r : Result (List Container)) (ms : List Container)
      → keep_managed v c names r ≡ ok ms
      → (rest : List Container) × (r ≡ ok rest)
        × (ms ≡ (if first_prefixed v names then c ∷ rest else rest))
  keep-inv [] r ms h = absurd (cc)
  keep-inv (n ∷ ns) (ok rest) ms h = (rest, refl, ground arith)
  keep-inv (n ∷ ns) (err e) ms h = absurd (cc)
  keep-inv (n ∷ ns) panic ms h = absurd (cc)

  keep_again :
      (names : List Str) (r : Result (List Container)) (ms rest : List Container)
      → keep_managed v c names r ≡ ok ms
      → keep_managed v c names (ok rest) ≡ ok (if first_prefixed v names then c ∷ rest else rest)
  keep_again [] r ms rest h = absurd (cc)
  keep_again (n ∷ ns) r ms rest h = ground arith

pub managed-inv :
    (v : Vmm) (c : Container) (cs ms : List Container)
    → managed v (c ∷ cs) ≡ ok ms
    → (rest : List Container) × (managed v cs ≡ ok rest)
      × (ms ≡ (if first_prefixed v c.names then c ∷ rest else rest))
unfolding managed
managed-inv v c cs ms h = keep-inv v c c.names (managed v cs) ms h

-- The manager's containers, when one is gone.
pub managed-without :
    (v : Vmm) (id : Str) (cs ms : List Container)
    → managed v cs ≡ ok ms
    → managed v (without id cs) ≡ ok (without id ms)
unfolding managed without
managed-without v id [] ms h = let none_kept : [] ≡ ms = cc in rw (← none_kept) refl
managed-without v id (c ∷ cs) ms h =
    let (rest, kept, e) = keep-inv v c c.names (managed v cs) ms h in
    let ih = managed-without v id cs rest kept in
    let again = keep_again v c c.names (managed v cs) ms (without id rest) h in
    elim (Bool-cases (first_prefixed v c.names)) [
      | inl own ↦ elim (Bool-cases (str_eq c.id id)) [
        | inl this ↦ rw this (rw ih (rw e (rw own (rw this refl))))
        | inr other ↦ rw other (rw ih (rw again (rw e (rw own (rw other refl)))))
      ]
      | inr foreign ↦ elim (Bool-cases (str_eq c.id id)) [
        | inl this ↦ rw this (rw ih (rw e (rw foreign refl)))
        | inr other ↦ rw other (rw ih (rw again (rw e (rw foreign refl))))
      ]
    ]

IsFresh-managed :
    (v : Vmm) (id : Str) (cs ms : List Container)
    → managed v cs ≡ ok ms
    → IsFresh id cs
    → IsFresh id ms
IsFresh-managed v id [] ms h f =
    unfold managed in let none_kept : [] ≡ ms = cc in rw (← none_kept) tt
IsFresh-managed v id (c ∷ cs) ms h f =
    let (rest, kept, e) = managed-inv v c cs ms h in
    let ih = IsFresh-managed v id cs rest kept f.1 in
    elim (Bool-cases (first_prefixed v c.names)) [
      | inl own ↦ rw e (rw own (f.0, ih))
      | inr foreign ↦ rw e (rw foreign ih)
    ]

pub AreIdsDistinct-managed :
    (v : Vmm) (cs ms : List Container)
    → managed v cs ≡ ok ms
    → AreIdsDistinct cs
    → AreIdsDistinct ms
AreIdsDistinct-managed v [] ms h d =
    unfold managed in let none_kept : [] ≡ ms = cc in rw (← none_kept) tt
AreIdsDistinct-managed v (c ∷ cs) ms h d =
    let (rest, kept, e) = managed-inv v c cs ms h in
    let ih = AreIdsDistinct-managed v cs rest kept d.1 in
    elim (Bool-cases (first_prefixed v c.names)) [
      | inl own ↦ rw e (rw own (IsFresh-managed v c.id cs rest kept d.0, ih))
      | inr foreign ↦ rw e (rw foreign ih)
    ]

-- Without the manager's first container the others of the manager are left.
pub managed-without_first :
    (v : Vmm) (cs : List Container) (c : Container) (ms : List Container)
    → AreIdsDistinct cs
    → managed v cs ≡ ok (c ∷ ms)
    → managed v (without c.id cs) ≡ ok ms
managed-without_first v cs c ms d h =
    managed-without v c.id cs (c ∷ ms) h
    ∙ ap ok (without_head c ms (AreIdsDistinct-managed v cs (c ∷ ms) h d).0)

pub first-managed :
    (v : Vmm) (cs : List Container) (c : Container) (ms : List Container)
    → managed v cs ≡ ok (c ∷ ms)
    → first_prefixed v c.names ≡ true
first-managed v [] c ms h = unfold managed in absurd (cc)
first-managed v (x ∷ cs) c ms h =
    let (rest, kept, e) = managed-inv v x cs (c ∷ ms) h in
    elim (Bool-cases (first_prefixed v x.names)) [
      | inl own ↦ let same : c ∷ ms ≡ x ∷ rest = rw own at e in let this : c ≡ x = cc in rw this own
      | inr foreign ↦
          let same : c ∷ ms ≡ rest = rw foreign at e in
          first-managed v cs c ms (kept ∙ ap ok (sym same))
    ]

pub unmanaged-without :
    (v : Vmm) (cs : List Container) (c : Container) (ms : List Container)
    → AreIdsDistinct cs
    → managed v cs ≡ ok (c ∷ ms)
    → unmanaged v (without c.id cs) ≡ unmanaged v cs
unfolding unmanaged
unmanaged-without v [] c ms d h = unfold managed in absurd (cc)
unmanaged-without v (x ∷ cs) c ms d h =
    let (rest, kept, e) = managed-inv v x cs (c ∷ ms) h in
    elim (Bool-cases (first_prefixed v x.names)) [
      | inl own ↦
          let same : c ∷ ms ≡ x ∷ rest = rw own at e in
          let this : c ≡ x = cc in rw this (rw (without_head x cs d.0) (rw own refl))
      | inr foreign ↦
          let same : c ∷ ms ≡ rest = rw foreign at e in
          let kept' : managed v cs ≡ ok (c ∷ ms) = kept ∙ ap ok (sym same) in
          let apart : str_eq c.id x.id ≡ false = (IsFresh-managed v x.id cs (c ∷ ms) kept' d.0).0 in
          let apart' : str_eq x.id c.id ≡ false =
            ground (arith, str_eq_iff x.id c.id, str_eq_iff c.id x.id) in
          rw (without_other c.id x cs apart') (
            rw foreign (ap (λ (l : List Container). x ∷ l) (unmanaged-without v cs c ms d.1 kept')))
    ]

pub unmanaged_all : (v : Vmm) (cs : List Container) → managed v cs ≡ ok [] → unmanaged v cs ≡ cs
unfolding unmanaged
unmanaged_all v [] h = refl
unmanaged_all v (x ∷ cs) h =
    let (rest, kept, e) = managed-inv v x cs [] h in
    elim (Bool-cases (first_prefixed v x.names)) [
      | inl own ↦ let same : [] ≡ x ∷ rest = rw own at e in absurd (cc)
      | inr foreign ↦
          let same : [] ≡ rest = rw foreign at e in
          rw foreign
            (ap (λ (l : List Container). x ∷ l) (unmanaged_all v cs (kept ∙ ap ok (sym same))))
    ]
