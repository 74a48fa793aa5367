-- ===== src/Network/Groups.antt =====
-- What the groups of the network map hold.
use mathlib.Core.List.{Perm, perm_middle}
use mathlib.Core.List.Perm as Permutation
use dtsys.Prelude.{
  ◌≡◌, refl, sym, ap, ◌∙◌, subst, true, ◌&&◌, List, [], ◌∷◌, ◌++◌, append-nil, append_assoc, arith,
  All, All-append, if_elim, &&-eq-true,
}
use dtsys.Prelude.Text.{text_eq, text_eq→path}
use dtsys.Network.{
  MapDevice, StatusFilter, visible_devices, Subnet, unknown, subnet, subnet_of, same_subnet,
  SubnetGroup, add_device, add_devices, subnet_groups,
}

-- The devices of all groups.
abbrev pub members_of : List SubnetGroup → List MapDevice
members_of [] = []
members_of (g ∷ gs) = g.members ++ members_of gs

abbrev pub IsKeyed : SubnetGroup → Type 0
IsKeyed g = All (λ (d : MapDevice). subnet_of d.ip_address ≡ g.key) g.members

same_subnet→path : (k l : Subnet) → same_subnet k l ≡ true → k ≡ l
same_subnet→path unknown unknown h = refl
same_subnet→path unknown (subnet x y z) h = absurd (ground arith)
same_subnet→path (subnet a b c) unknown h = absurd (ground arith)
same_subnet→path (subnet a b c) (subnet x y z) h =
    let (e, rest) = &&-eq-true (text_eq a x) (text_eq b y && text_eq c z) h in
    let (f, g) = &&-eq-true (text_eq b y) (text_eq c z) rest in
    ap (λ k. subnet k b c) (text_eq→path a x e)
    ∙ (ap (λ k. subnet x k c) (text_eq→path b y f) ∙ ap (λ k. subnet x y k) (text_eq→path c z g))

add_device-Perm :
    (d : MapDevice) (gs : List SubnetGroup)
    → Perm (members_of (add_device d gs)) (d ∷ members_of gs)
unfolding add_device
add_device-Perm d [] = Permutation.refl (d ∷ [])
add_device-Perm d (g ∷ gs) =
    if_elim (λ x. Perm (members_of x) (d ∷ (g.members ++ members_of gs)))
      (same_subnet g.key (subnet_of d.ip_address))
      (λ t.
        subst (λ x. Perm x (d ∷ (g.members ++ members_of gs)))
          (sym (append_assoc g.members (d ∷ []) (members_of gs)))
          (perm_middle g.members (members_of gs)))
      (λ f.
        Permutation.trans (Permutation.append_left g.members (add_device-Perm d gs))
          (perm_middle g.members (members_of gs)))

add_device-IsKeyed :
    (d : MapDevice) (gs : List SubnetGroup) → All IsKeyed gs → All IsKeyed (add_device d gs)
unfolding add_device
add_device-IsKeyed d [] h = ((refl, tt), tt)
add_device-IsKeyed d (g ∷ gs) h =
    if_elim (λ x. All IsKeyed x) (same_subnet g.key (subnet_of d.ip_address))
      (λ t.
        let same = sym (same_subnet→path g.key (subnet_of d.ip_address) t) in
        (All-append _ g.members (d ∷ []) h.0 (same, tt), h.1))
      (λ f. (h.0, add_device-IsKeyed d gs h.1))

add_devices-Perm :
    (ds : List MapDevice) (gs : List SubnetGroup)
    → Perm (members_of (add_devices ds gs)) (ds ++ members_of gs)
unfolding add_devices
add_devices-Perm [] gs = Permutation.refl (members_of gs)
add_devices-Perm (d ∷ ds) gs = Permutation.trans (add_devices-Perm ds (add_device d gs)) (
    Permutation.trans (Permutation.append_left ds (add_device-Perm d gs))
      (perm_middle ds (members_of gs)))

add_devices-IsKeyed :
    (ds : List MapDevice) (gs : List SubnetGroup) → All IsKeyed gs → All IsKeyed (add_devices ds gs)
unfolding add_devices
add_devices-IsKeyed [] gs h = h
add_devices-IsKeyed (d ∷ ds) gs h =
    add_devices-IsKeyed ds (add_device d gs) (add_device-IsKeyed d gs h)

-- The groups of the map split up the visible devices: none is lost, none stands in two groups, and
-- each stands in the group of its subnet.
pub subnet_groups_lem :
    (status : StatusFilter) (devices : List MapDevice)
    → Perm (members_of (subnet_groups status devices)) (visible_devices status devices)
      × All IsKeyed (subnet_groups status devices)
unfolding subnet_groups
subnet_groups_lem status devices =
    let ds = visible_devices status devices in
    (
      subst (Perm (members_of (add_devices ds []))) (append-nil ds) (add_devices-Perm ds []),
      add_devices-IsKeyed ds [] tt,
    )
