-- ===== src/Go/Scanner.antt =====
-- Package `bufio`: the lines that a `Scanner` gives, with its default limit.
use mathlib.Core.List.{reverse}
use matrisea.Common.{Str, List, [], ◌∷◌, length, leb, ◌==◌, if◌then◌else◌}
use matrisea.Go.Strings.{split}

-- One carriage return at the end of a line is dropped.
abbrev drop_return : Str → Str
drop_return [] = []
drop_return (c ∷ s) = if c == 13 then s else c ∷ s

abbrev trim_return : Str → Str
trim_return s = reverse (drop_return (reverse s))

-- An empty last line is no line, and a line that does not fit the buffer ends the scan.
unfoldable pub scanned : List Str → List Str
scanned [] = []
scanned ([] ∷ []) = []
scanned (l ∷ ls) =
    let rest = trim_return l ∷ scanned ls in if leb 65536 (length l) then [] else rest

unfoldable pub scan_lines : Str → List Str
unfolding scanned split
scan_lines s = scanned (split 10 s)
