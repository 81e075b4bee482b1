-- ===== src/Go/Path/Join.antt =====
-- A plain name joined to a folder.
use mathlib.Core.List.{reverse, reverse-cons, append_assoc, append-nil}
use matrisea.Common.{
  ℕ, Str, text, str_eq, str_eq_iff, Bool, true, false, ◌≡◌, refl, sym, ap, ◌∙◌, List, [], ◌∷◌, ◌++◌,
  arith, Bool-cases, inl, inr, ◌==◌,
}
use matrisea.Go.Strings.{split, has_prefix}
use matrisea.Go.Strings.Split.{Lacks, split_single}
use matrisea.Go.Path.{slash, push, resolve, join_slash, or_dot, clean, join}

split-cons : (sep : ℕ) (s : Str) → (w : Str) × (ws : List Str) × (split sep s ≡ w ∷ ws)
unfolding split
split-cons sep [] = ([], [], refl)
split-cons sep (c ∷ s) = elim (Bool-cases (c == sep)) [
  | inl ends ↦ ([], split sep s, rw ends refl)
  | inr more ↦ let (w, ws, e) = split-cons sep s in (c ∷ w, ws, rw more (rw e refl))
]

split-join : (a s : Str) → split b'/' (a ++ (b'/' ∷ s)) ≡ split b'/' a ++ split b'/' s
unfolding split
split-join [] s = refl
split-join (c ∷ a) s = elim (Bool-cases (c == b'/')) [
  | inl ends ↦ rw ends (ap (λ (l : List Str). [] ∷ l) (split-join a s))
  | inr more ↦ let (w, ws, e) = split-cons b'/' a in rw more (rw (split-join a s) (rw e refl))
]

resolve-append :
    (rooted : Bool) (stack xs ys : List Str)
    → resolve rooted stack (xs ++ ys) ≡ resolve rooted (resolve rooted stack xs) ys
unfolding resolve
resolve-append rooted stack [] ys = refl
resolve-append rooted stack (x ∷ xs) ys = resolve-append rooted (push rooted x stack) xs ys

-- A name that is neither empty nor one of the two dots.
pub record IsName (s : Str) : Type 0 where
  pub plain : Lacks b'/' s
  pub some_bytes : str_eq s [] ≡ false
  pub no_dot : str_eq s (text ".") ≡ false
  pub no_dots : str_eq s (text "..") ≡ false

push-name :
    (rooted : Bool) (s : Str) (stack : List Str) → IsName s → push rooted s stack ≡ s ∷ stack
unfolding push
push-name rooted s stack n = ground (arith, n.some_bytes, n.no_dot, n.no_dots)

join_slash-append :
    (x : Str) (xs : List Str) (s : Str)
    → join_slash ((x ∷ xs) ++ (s ∷ [])) ≡ join_slash (x ∷ xs) ++ (slash ++ s)
join_slash-append x [] s = refl
join_slash-append x (y ∷ ys) s =
    ap (λ (t : Str). x ++ (slash ++ t)) (join_slash-append y ys s) ∙ simp (append_assoc)

-- A folder's path in its shortest form, and neither the root nor the current folder.
pub record IsFolder (folder : Str) : Type 0 where
  pub shortest : clean folder ≡ folder
  pub some_path : str_eq folder [] ≡ false
  pub not_root : str_eq folder (text "/") ≡ false
  pub not_here : str_eq folder (text ".") ≡ false

off : (s t : Str) → s ≡ t → ¬ (str_eq s t ≡ false)
off s t e h = let same : str_eq s t ≡ true = (str_eq_iff s t).1 e in cc

longer : (s t : Str) → str_eq s [] ≡ false → str_eq (s ++ t) [] ≡ false
unfolding str_eq
longer [] t h = absurd (cc)
longer (c ∷ s) t h = refl

has_slash-append :
    (s t : Str) → str_eq s [] ≡ false → has_prefix (s ++ t) slash ≡ has_prefix s slash
unfolding str_eq has_prefix text
has_slash-append [] t h = absurd (cc)
has_slash-append (c ∷ s) t h = refl

or_dot-join :
    (rooted : Bool) (l : List Str) (file folder : Str)
    → or_dot rooted (join_slash l) ≡ folder
    → str_eq folder (text "/") ≡ false
    → str_eq folder (text ".") ≡ false
    → or_dot rooted (join_slash (l ++ (file ∷ []))) ≡ folder ++ (slash ++ file)
or_dot-join true [] file folder e r d = absurd (off folder (text "/") (sym e ∙ append-nil slash) r)
or_dot-join false [] file folder e r d = absurd (off folder (text ".") (sym (unfold str_eq in e)) d)
or_dot-join true (x ∷ xs) file folder e r d =
    ap (λ (t : Str). slash ++ t) (join_slash-append x xs file) ∙ rw (← e) (simp (append_assoc))
or_dot-join false (x ∷ xs) file folder e r d = elim (Bool-cases (str_eq (join_slash (x ∷ xs)) [])) [
  | inl empty ↦ absurd (off folder (text ".") (sym (rw empty at e)) d)
  | inr full ↦
      let path : join_slash (x ∷ xs) ≡ folder = rw full at e in
      rw (join_slash-append x xs file) (
        rw (longer (join_slash (x ∷ xs)) (slash ++ file) full)
          (ap (λ (t : Str). t ++ (slash ++ file)) path))
]

split-child :
    (folder file : Str)
    → IsName file
    → split b'/' (folder ++ (slash ++ file)) ≡ split b'/' folder ++ (file ∷ [])
unfolding text
split-child folder file n =
    split-join folder file
    ∙ ap (λ (l : List Str). split b'/' folder ++ l) (split_single b'/' file n.plain)

resolve-child :
    (rooted : Bool) (cs : List Str) (file : Str)
    → IsName file
    → resolve rooted [] (cs ++ (file ∷ [])) ≡ file ∷ resolve rooted [] cs
resolve-child rooted cs file n =
    resolve-append rooted [] cs (file ∷ [])
    ∙ unfold resolve in push-name rooted file (resolve rooted [] cs) n

clean-child :
    (folder file : Str)
    → IsFolder folder
    → IsName file
    → clean (folder ++ (slash ++ file)) ≡ folder ++ (slash ++ file)
clean-child folder file f n =
    let rooted = has_prefix folder slash in
    let stack = resolve rooted [] (split b'/' folder) in
    let shortest : or_dot rooted (join_slash (reverse stack)) ≡ folder =
      unfold clean in f.shortest in
    unfold clean in
    rw (has_slash-append folder (slash ++ file) f.some_path) (
      rw (split-child folder file n) (
        rw (resolve-child rooted (split b'/' folder) file n) (
          rw (reverse-cons file stack)
            (or_dot-join rooted (reverse stack) file folder shortest f.not_root f.not_here))))

-- The path of a name in a folder.
pub join-name :
    (folder file : Str)
    → IsFolder folder
    → IsName file
    → join (folder ∷ file ∷ []) ≡ folder ++ (slash ++ file)
unfolding join
join-name folder file f n = rw f.some_path (rw n.some_bytes (clean-child folder file f n))

child-ne_byte :
    (c : ℕ) (folder file : Str)
    → str_eq folder [] ≡ false
    → str_eq (folder ++ (slash ++ file)) (c ∷ []) ≡ false
unfolding str_eq text
child-ne_byte c [] file h = absurd (cc)
child-ne_byte c (a ∷ []) file h = ground arith
child-ne_byte c (a ∷ b ∷ folder) file h = ground arith

-- And it is a folder's path again.
pub IsFolder-child :
    (folder file : Str) → IsFolder folder → IsName file → IsFolder (folder ++ (slash ++ file))
IsFolder-child folder file f n = record {
  shortest = clean-child folder file f n;
  some_path = longer folder (slash ++ file) f.some_path;
  not_root = unfold text in child-ne_byte b'/' folder file f.some_path;
  not_here = unfold text in child-ne_byte b'.' folder file f.some_path;
}
