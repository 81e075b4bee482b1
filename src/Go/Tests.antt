-- ===== src/Go/Tests.antt =====
-- The patterns at concrete names.
use matrisea.Common.{text, str_eq, true, ◌≡◌, refl}
use matrisea.Go.Regexp.{is_zip_name}

is_zip_name-backtick : is_zip_name (text "a`id`.zip") ≡ true
unfolding is_zip_name text str_eq
is_zip_name-backtick = refl
