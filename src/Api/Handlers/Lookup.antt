-- ===== src/Api/Handlers/Lookup.antt =====
-- Which VM a request for one by its name gets.
use matrisea.Common.{
  Str, str_eq, str_eq_iff, false, ◌≡◌, refl, ◌⊎◌, inl, inr, none, some, List, [], ◌∷◌, ok, arith,
  Bool-cases,
}
use matrisea.Vmm.Host.{Vmm, Host, World}
use matrisea.Vmm.List.{VmItem, vm_list}
use matrisea.Api.Handlers.{vm_body, find_vm, vm_response, get_vm}

abbrev pub Listed : VmItem → List VmItem → Type 0
Listed vm [] = ⊥
Listed vm (x ∷ xs) = (vm ≡ x) ⊎ Listed vm xs

-- No VM of the list has the name.
abbrev pub IsUnknown : Str → List VmItem → Type 0
IsUnknown name [] = Unit
IsUnknown name (x ∷ xs) = (str_eq x.name name ≡ false) × IsUnknown name xs

find_vm-cases :
    (name : Str) (vms : List VmItem)
    → ((vm : VmItem) × (find_vm name vms ≡ some vm) × Listed vm vms × (vm.name ≡ name))
      ⊎ ((find_vm name vms ≡ none) × IsUnknown name vms)
unfolding find_vm
find_vm-cases name [] = inr (refl, tt)
find_vm-cases name (x ∷ xs) = elim (Bool-cases (str_eq x.name name)) [
  | inl this ↦ inl (x, rw this refl, inl refl, ground (arith, str_eq_iff x.name name))
  | inr other ↦ elim (find_vm-cases name xs) [
    | inl (vm, found, there, named) ↦ inl (vm, rw other found, inr there, named)
    | inr (missing, unknown) ↦ inr (rw other missing, (other, unknown))
  ]
]

module _ (H : Host) (v : Vmm) (name : Str) (w : World H) where
  -- When VMList gives a list, getVM answers with status 200 and a VM of the list that has exactly
  -- the name, or with status 500 and no VM of the list has the name.
  pub get_vm-Listed :
      (vms : List VmItem)
      → (vm_list H v w).0 ≡ ok vms
      → ((vm : VmItem) × ((get_vm H v name w).0 ≡ ok (record { status = 200; body = vm_body vm }))
          × Listed vm vms
          × (vm.name ≡ name))
        ⊎ (((get_vm H v name w).0 ≡ ok (vm_response none)) × IsUnknown name vms)
  unfolding get_vm
  get_vm-Listed vms h = elim (find_vm-cases name vms) [
    | inl (vm, found, there, named) ↦ inl (vm, rw h (rw found refl), there, named)
    | inr (missing, unknown) ↦ inr (rw h (rw missing refl), unknown)
  ]
