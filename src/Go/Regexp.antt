-- ===== src/Go/Regexp.antt =====
-- Package `regexp`: the two patterns of the source. All bytes that they accept are ASCII, and `$`
-- is the end of the text.
pub mod Language
use matrisea.Common.{
  ℕ, Str, text, str_eq, Bool, true, false, ◌||◌, ◌&&◌, List, [], ◌∷◌, leb, ◌==◌, if◌then◌else◌,
}

-- `[a-zA-z0-9-_]`, with the range `A-z` that the source writes.
unfoldable pub in_class : ℕ → Bool
in_class c =
    (leb b'a' c && leb c b'z')
    || (leb b'A' c && leb c b'z')
    || (leb b'0' c && leb c b'9')
    || c == b'-'
    || c == b'_'

-- Zero or more bytes of the class, then `suffix` up to the end of the text.
unfoldable pub class_star : Str → Str → Bool
unfolding in_class
class_star suffix [] = str_eq [] suffix
class_star suffix (c ∷ s) = str_eq (c ∷ s) suffix || (in_class c && class_star suffix s)

unfoldable pub class_plus : Str → Str → Bool
unfolding class_star
class_plus suffix [] = false
class_plus suffix (c ∷ s) = in_class c && class_star suffix s

-- `^[a-zA-z0-9-_]+$`
unfoldable pub is_device_name : Str → Bool
unfolding class_plus
is_device_name s = class_plus [] s

-- `^[a-zA-z0-9-_]+\.zip$`
unfoldable pub is_zip_name : Str → Bool
unfolding class_plus
is_zip_name s = class_plus (text ".zip") s
