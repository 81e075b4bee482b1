-- ===== src/Api/Env.antt =====
-- api/api.go: the variable `CFPrefix`, and the environment that the server starts in.
use matrisea.Common.{Str, text, length, ◌==◌, if◌then◌else◌}

-- `CFPrefix`, which the handlers put before a device's name. It is a name of its own beside the
-- manager's field.
abbrev pub cf_prefix : Str
cf_prefix = text "matrisea-cvd-"

-- `getenv`, on the value of the variable.
unfoldable pub getenv : Str → Str → Str
getenv value fallback = if length value == 0 then fallback else value
