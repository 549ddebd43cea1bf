-- ===== src/If.antt =====
-- router/sr_if.c: the interface list. A C string is the list of its characters, none of them 0.
use cscd58_nat.Base.{
  ℕ, zero, suc, List, [], ◌∷◌, Option, none, some, Bool, true, false, ◌==◌, ◌&&◌, if◌then◌else◌,
  take, Buffer,
}
use cscd58_nat.Proto.{iface_namelen}

-- `!strncmp(a, b, n)`
unfoldable pub strncmp_eq : ℕ → List ℕ → List ℕ → Bool
strncmp_eq zero a b = true
strncmp_eq (suc n) [] [] = true
strncmp_eq (suc n) [] (y ∷ b) = false
strncmp_eq (suc n) (x ∷ a) [] = false
strncmp_eq (suc n) (x ∷ a) (y ∷ b) = x == y && strncmp_eq n a b

-- struct sr_if. `addr` is six bytes and `ip` is in network byte order; `speed` is never used.
pub record SrIf : Type 0 where
  pub name : List ℕ
  pub addr : Buffer
  pub ip : ℕ

unfoldable pub sr_get_interface : List SrIf → List ℕ → Option SrIf
unfolding strncmp_eq
sr_get_interface [] name = none
sr_get_interface (i ∷ is) name =
    if strncmp_eq iface_namelen i.name name then some i else sr_get_interface is name

-- The new node goes to the end. `memory` is what `malloc` returned: the address and ip stay as
-- they are there.
unfoldable pub sr_add_interface : List SrIf → SrIf → List ℕ → List SrIf
sr_add_interface [] memory name = record memory { name = take iface_namelen name } ∷ []
sr_add_interface (i ∷ is) memory name = i ∷ sr_add_interface is memory name

-- A change of the last interface; the assertion fails on the empty list.
unfoldable pub update_last : (SrIf → SrIf) → List SrIf → Option (List SrIf)
update_last change [] = none
update_last change (i ∷ []) = some (change i ∷ [])
update_last change (i ∷ j ∷ is) = elim (update_last change (j ∷ is)) [
  | none ↦ none
  | some rest ↦ some (i ∷ rest)
]

unfoldable pub sr_set_ether_addr : List SrIf → Buffer → Option (List SrIf)
unfolding update_last
sr_set_ether_addr if_list addr = update_last (λ i. record i { addr = take 6 addr }) if_list

unfoldable pub sr_set_ether_ip : List SrIf → ℕ → Option (List SrIf)
unfolding update_last
sr_set_ether_ip if_list ip_nbo = update_last (λ i. record i { ip = ip_nbo }) if_list
