-- ===== src/Go/Path.antt =====
-- Package `path`, and `path/filepath` on Unix.
pub mod Join
use mathlib.Core.List.{reverse}
use matrisea.Common.{Str, text, str_eq, Bool, ◌||◌, List, [], ◌∷◌, ◌++◌, if◌then◌else◌, ◌==◌}
use matrisea.Go.Strings.{split, has_prefix}

abbrev pub slash : Str
slash = text "/"

-- One component, onto those that are left (the last one first). Above the root there is nothing.
abbrev pub up : Bool → Str → List Str → List Str
up rooted c [] = if rooted then [] else c ∷ []
up rooted c (d ∷ stack) = if str_eq d (text "..") then c ∷ d ∷ stack else stack

unfoldable pub push : Bool → Str → List Str → List Str
push rooted c stack =
    if str_eq c [] || str_eq c (text ".")
    then stack
    else if str_eq c (text "..")
    then up rooted c stack
    else c ∷ stack

unfoldable pub resolve : Bool → List Str → List Str → List Str
unfolding push
resolve rooted stack [] = stack
resolve rooted stack (c ∷ cs) = resolve rooted (push rooted c stack) cs

-- `strings.Join(cs, "/")`.
abbrev pub join_slash : List Str → Str
join_slash [] = []
join_slash (c ∷ []) = c
join_slash (c ∷ d ∷ cs) = c ++ (slash ++ join_slash (d ∷ cs))

abbrev pub or_dot : Bool → Str → Str
or_dot rooted s = if rooted then slash ++ s else if str_eq s [] then text "." else s

unfoldable pub clean : Str → Str
unfolding resolve split has_prefix
clean p =
    let rooted = has_prefix p slash in
    or_dot rooted (join_slash (reverse (resolve rooted [] (split b'/' p))))

abbrev pub non_empty : List Str → List Str
non_empty [] = []
non_empty (c ∷ cs) = if str_eq c [] then non_empty cs else c ∷ non_empty cs

abbrev pub join_cleaned : List Str → Str
join_cleaned [] = []
join_cleaned (c ∷ cs) = clean (join_slash (c ∷ cs))

-- `path.Join(cs...)`.
unfoldable pub join : List Str → Str
unfolding clean
join cs = join_cleaned (non_empty cs)

-- The part of a reversed path before its first slash, and the rest from the slash on.
abbrev before_slash : Str → Str
before_slash [] = []
before_slash (c ∷ s) = let rest = before_slash s in if c == b'/' then [] else c ∷ rest

abbrev from_slash : Str → Str
from_slash [] = []
from_slash (c ∷ s) = if c == b'/' then c ∷ s else from_slash s

-- `filepath.Split`: the folder with its last slash, and the file.
unfoldable pub split_folder : Str → Str
split_folder p = reverse (from_slash (reverse p))

unfoldable pub split_file : Str → Str
split_file p = reverse (before_slash (reverse p))

-- The reversed extension: the loop stops at a slash, and at the last dot.
abbrev ext_reversed : Str → Str → Str
ext_reversed seen [] = []
ext_reversed seen (c ∷ s) =
    let rest = ext_reversed (c ∷ seen) s in
    if c == b'/' then [] else if c == b'.' then c ∷ seen else rest

-- `filepath.Ext`: from the last dot of the last component on, and empty if there is none.
unfoldable pub ext : Str → Str
ext p = ext_reversed [] (reverse p)

abbrev drop_slashes : Str → Str
drop_slashes [] = []
drop_slashes (c ∷ s) = if c == b'/' then drop_slashes s else c ∷ s

abbrev base_reversed : Str → Str
base_reversed [] = slash
base_reversed (c ∷ s) = reverse (before_slash (c ∷ s))

-- `filepath.Base`: the last component, without the slashes behind it.
unfoldable pub base : Str → Str
base p = if str_eq p [] then text "." else base_reversed (drop_slashes (reverse p))
