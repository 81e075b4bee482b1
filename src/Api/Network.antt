-- ===== src/Api/Network.antt =====
-- api/api.go, `getConnectionIPs`: the addresses under which the host can be reached.
pub mod Lan
use matrisea.Common.{
  Str, text, Bool, true, false, ◌&&◌, ◌||◌, not, List, [], ◌∷◌, ◌++◌, Result, ok, err, panic, Error,
  if◌then◌else◌,
}
use matrisea.Go.Strings.{has_prefix, split}
use matrisea.Api.Handlers.{Body, ips_body, reason_body, Response, bad_request}

-- What package `net` gives for an address of an interface (`ParseCIDR`, `To4`, `IsPrivate`).
pub record Address : Type 0 where
  pub ip : Str
  pub is_v4 : Bool
  pub is_private : Bool

-- An interface with its addresses, each of them parsed.
pub record NetInterface : Type 0 where
  pub name : Str
  pub addrs : Result (List (Result Address))

abbrev pub non_lan_prefixes : List Str
non_lan_prefixes =
    text "lo" ∷ text "virbr" ∷ text "docker" ∷ text "veth" ∷ text "cvd" ∷ text "tailscale" ∷ []

unfoldable pub has_any_prefix : Str → List Str → Bool
has_any_prefix name [] = false
has_any_prefix name (p ∷ ps) = has_prefix name p || has_any_prefix name ps

-- The loop over the addresses of one interface, onto the addresses so far.
unfoldable pub add_addresses : List Str → List (Result Address) → Result (List Str)
add_addresses lan_ips [] = ok lan_ips
add_addresses lan_ips (ok a ∷ addrs) =
    add_addresses (if a.is_v4 && a.is_private then lan_ips ++ (a.ip ∷ []) else lan_ips) addrs
add_addresses lan_ips (err e ∷ addrs) = err e
add_addresses lan_ips (panic ∷ addrs) = panic

abbrev pub add_interface : List Str → Result (List (Result Address)) → Result (List Str)
add_interface lan_ips (ok addrs) = add_addresses lan_ips addrs
add_interface lan_ips (err e) = err e
add_interface lan_ips panic = panic

-- The loop over the interfaces: the first error ends it.
unfoldable pub collect_lan_ips : List Str → List NetInterface → Result (List Str)
collect_lan_ips lan_ips [] = ok lan_ips
collect_lan_ips lan_ips (i ∷ iters) =
    let here = add_interface lan_ips i.addrs in
    if has_any_prefix i.name non_lan_prefixes
    then collect_lan_ips lan_ips iters
    else elim here [ ok ips ↦ collect_lan_ips ips iters | err e ↦ err e | panic ↦ panic ]

abbrev lan_ips_of : Result (List NetInterface) → Result (List Str)
lan_ips_of (ok iters) = collect_lan_ips [] iters
lan_ips_of (err e) = err e
lan_ips_of panic = panic

abbrev pub addresses : List Str → Str → Response
addresses lan_ips tailscale = record { status = 200; body = ips_body lan_ips tailscale }

abbrev first_line : List Str → Result Str
first_line [] = panic
first_line (l ∷ ls) = ok l

abbrev with_first : List Str → Result Str → Result Response
with_first lan_ips (ok ip) = ok (addresses lan_ips ip)
with_first lan_ips (err e) = err e
with_first lan_ips panic = panic

-- `strings.Split(string(output), "\n")[0]` of `tailscale ip`.
abbrev with_tailscale : List Str → Result Str → Result Response
with_tailscale lan_ips (ok output) = with_first lan_ips (first_line (split 10 output))
with_tailscale lan_ips (err e) = ok (bad_request (reason_body e))
with_tailscale lan_ips panic = panic

abbrev pub answer_ips : Bool → Result Str → Result (List Str) → Result Response
answer_ips installed output (ok lan_ips) =
    if installed then with_tailscale lan_ips output else ok (addresses lan_ips [])
answer_ips installed output (err e) = ok (bad_request (reason_body e))
answer_ips installed output panic = panic

-- `getConnectionIPs`, on what `net.Interfaces`, `which tailscale` and `tailscale ip` give.
unfoldable pub get_connection_ips : Result (List NetInterface) → Bool → Result Str → Result Response
get_connection_ips iters installed output = answer_ips installed output (lan_ips_of iters)
