-- ===== src/Api/Network/Lan.antt =====
-- Which addresses are given to clients.
use mathlib.Core.Path.{subst}
use matrisea.Common.{
  Str, Bool, true, false, ◌&&◌, ◌≡◌, refl, ap, ◌⊎◌, inl, inr, List, [], ◌∷◌, ◌++◌, Result, ok, err,
  panic, arith, Bool-cases,
}
use matrisea.Go.Strings.{split}
use matrisea.Api.Network.{
  Address, NetInterface, non_lan_prefixes, has_any_prefix, add_addresses, add_interface,
  collect_lan_ips, lan_ips_of, addresses, with_first, first_line, answer_ips, get_connection_ips,
}

abbrev pub InList : Str → List Str → Type 0
InList x [] = ⊥
InList x (y ∷ ys) = (x ≡ y) ⊎ InList x ys

-- A private IPv4 address among those of an interface.
abbrev pub IsPrivateOf : Str → List (Result Address) → Type 0
IsPrivateOf ip [] = ⊥
IsPrivateOf ip (ok a ∷ addrs) =
    ((ip ≡ a.ip) × (a.is_v4 ≡ true) × (a.is_private ≡ true)) ⊎ IsPrivateOf ip addrs
IsPrivateOf ip (err e ∷ addrs) = IsPrivateOf ip addrs
IsPrivateOf ip (panic ∷ addrs) = IsPrivateOf ip addrs

-- A private IPv4 address of an interface that is not one of the excluded kinds.
abbrev pub IsLanOf : Str → List NetInterface → Type 0
IsLanOf ip [] = ⊥
IsLanOf ip (i ∷ iters) =
    ((addrs : List (Result Address)) × (i.addrs ≡ ok addrs)
      × (has_any_prefix i.name non_lan_prefixes ≡ false)
      × IsPrivateOf ip addrs)
    ⊎ IsLanOf ip iters

InList-append : (x y : Str) (ys : List Str) → InList x (ys ++ (y ∷ [])) → InList x ys ⊎ (x ≡ y)
InList-append x y [] (inl e) = inr e
InList-append x y [] (inr h) = absurd h
InList-append x y (z ∷ ys) (inl e) = inl (inl e)
InList-append x y (z ∷ ys) (inr h) = elim (InList-append x y ys h) [
  | inl there ↦ inl (inr there)
  | inr e ↦ inr e
]

add_addresses-InList :
    (ip : Str) (ips : List Str) (addrs : List (Result Address)) (out : List Str)
    → add_addresses ips addrs ≡ ok out
    → InList ip out
    → InList ip ips ⊎ IsPrivateOf ip addrs
unfolding add_addresses
add_addresses-InList ip ips [] out h there = inl (subst (InList ip) (ground arith) there)
add_addresses-InList ip ips (ok a ∷ addrs) out h there =
    elim (Bool-cases (a.is_v4 && a.is_private)) [
      | inl lan ↦
          elim (add_addresses-InList ip (ips ++ (a.ip ∷ [])) addrs out (rw lan at h) there) [
            | inl before ↦ elim (InList-append ip a.ip ips before) [
              | inl old ↦ inl old
              | inr this ↦ inr (inl (this, ground arith, ground arith))
            ]
            | inr later ↦ inr (inr later)
          ]
      | inr other ↦ elim (add_addresses-InList ip ips addrs out (rw other at h) there) [
        | inl old ↦ inl old
        | inr later ↦ inr (inr later)
      ]
    ]
add_addresses-InList ip ips (err e ∷ addrs) out h there = absurd (cc)
add_addresses-InList ip ips (panic ∷ addrs) out h there = absurd (cc)

-- The addresses of one interface that is taken, and those of the interfaces behind it.
behind_interface :
    (ip : Str) (ips : List Str) (i : NetInterface) (iters : List NetInterface) (out : List Str)
    (addrs : Result (List (Result Address)))
    → i.addrs ≡ addrs
    → has_any_prefix i.name non_lan_prefixes ≡ false
    → (here : Result (List Str)) → add_interface ips addrs ≡ here
    → (elim here [ ok more ↦ collect_lan_ips more iters | err e ↦ err e | panic ↦ panic ]) ≡ ok out
    → InList ip out
    → ((more : List Str) → collect_lan_ips more iters ≡ ok out → InList ip more ⊎ IsLanOf ip iters)
    → InList ip ips ⊎ IsLanOf ip (i ∷ iters)
behind_interface ip ips i iters out (ok addrs) at taken (ok more) e h there ih = elim (ih more h) [
  | inl before ↦ elim (add_addresses-InList ip ips addrs more e before) [
    | inl old ↦ inl old
    | inr this ↦ inr (inl (addrs, at, taken, this))
  ]
  | inr later ↦ inr (inr later)
]
behind_interface ip ips i iters out (err x) at taken (ok more) e h there ih = absurd (cc)
behind_interface ip ips i iters out panic at taken (ok more) e h there ih = absurd (cc)
behind_interface ip ips i iters out addrs at taken (err x) e h there ih = absurd (cc)
behind_interface ip ips i iters out addrs at taken panic e h there ih = absurd (cc)

collect_lan_ips-InList :
    (ip : Str) (ips : List Str) (iters : List NetInterface) (out : List Str)
    → collect_lan_ips ips iters ≡ ok out
    → InList ip out
    → InList ip ips ⊎ IsLanOf ip iters
unfolding collect_lan_ips
collect_lan_ips-InList ip ips [] out h there = inl (subst (InList ip) (ground arith) there)
collect_lan_ips-InList ip ips (i ∷ iters) out h there =
    let ih = λ (more : List Str) (k : collect_lan_ips more iters ≡ ok out).
      collect_lan_ips-InList ip more iters out k there in
    elim (Bool-cases (has_any_prefix i.name non_lan_prefixes)) [
      | inl left_out ↦ elim (ih ips (rw left_out at h)) [
        | inl old ↦ inl old
        | inr later ↦ inr (inr later)
      ]
      | inr taken ↦
          behind_interface ip ips i iters out i.addrs refl taken (add_interface ips i.addrs) refl
            (rw taken at h) there ih
    ]

with_first-answered :
    (found ips : List Str) (r : Result Str) (tailscale : Str)
    → with_first found r ≡ ok (addresses ips tailscale)
    → found ≡ ips
with_first-answered found ips (ok ip) tailscale h = ground arith
with_first-answered found ips (err e) tailscale h = absurd (cc)
with_first-answered found ips panic tailscale h = absurd (cc)

answered :
    (installed : Bool) (output : Result Str) (r : Result (List Str)) (ips : List Str)
    (tailscale : Str)
    → answer_ips installed output r ≡ ok (addresses ips tailscale)
    → r ≡ ok ips
answered true (ok output) (ok found) ips tailscale h =
    ap ok (with_first-answered found ips (first_line (split 10 output)) tailscale h)
answered true (err e) (ok found) ips tailscale h = absurd (cc)
answered true panic (ok found) ips tailscale h = absurd (cc)
answered false output (ok found) ips tailscale h = ground arith
answered installed output (err e) ips tailscale h = absurd (cc)
answered installed output panic ips tailscale h = absurd (cc)

listed_of :
    (iters : Result (List NetInterface)) (ips : List Str)
    → lan_ips_of iters ≡ ok ips
    → (is : List NetInterface) × (iters ≡ ok is) × (collect_lan_ips [] is ≡ ok ips)
listed_of (ok is) ips h = (is, refl, h)
listed_of (err e) ips h = absurd (cc)
listed_of panic ips h = absurd (cc)

-- Each local address in a successful answer of getConnectionIPs is a private IPv4 address of an
-- interface whose name begins with none of the excluded prefixes.
pub get_connection_ips-IsLanOf :
    (iters : Result (List NetInterface)) (installed : Bool) (output : Result Str) (ips : List Str)
    (tailscale : Str)
    → get_connection_ips iters installed output ≡ ok (addresses ips tailscale)
    → (ip : Str) → InList ip ips
    → (is : List NetInterface) × (iters ≡ ok is) × IsLanOf ip is
unfolding get_connection_ips
get_connection_ips-IsLanOf iters installed output ips tailscale h ip there =
    let (is, e, found) =
      listed_of iters ips (answered installed output (lan_ips_of iters) ips tailscale h) in
    (
      is,
      e,
      elim (collect_lan_ips-InList ip [] is ips found there) [
        | inl impossible ↦ absurd impossible
        | inr lan ↦ lan
      ],
    )
