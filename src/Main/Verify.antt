-- ===== src/Main/Verify.antt =====
-- `sr_verify_routing_table` of router/sr_main.c: are all the interfaces of the routing table there?
use cscd58_nat.Base.{
  ℕ, ◌+◌, ◌≤◌, ◌≡◌, ◌≢◌, ◌↔◌, inl, inr, refl, sym, List, [], ◌∷◌, Option, some, Bool, true, false,
  if◌then◌else◌, arith, Bool-cases,
}
use mathlib.Core.Path.{subst}
use cscd58_nat.Proto.{iface_namelen}
use cscd58_nat.If.{SrIf, strncmp_eq, sr_get_interface}
use cscd58_nat.Rt.{RtEntry, sr_rt_lookup}
use cscd58_nat.Rt.Lpm.{In, AllRoutes, LongestMatch, sr_rt_lookup-LongestMatch}
use cscd58_nat.Instance.{Sr}

-- `while(if_walker)`: was the loop left by the `break`?
unfoldable pub interface_exists : List SrIf → List ℕ → Bool
interface_exists [] interface = false
interface_exists (if_walker ∷ is) interface =
    if strncmp_eq iface_namelen if_walker.name interface
    then true
    else interface_exists is interface

-- `while(rt_walker)`, with `ret` as it stands.
unfoldable pub verify_loop : List SrIf → ℕ → List RtEntry → ℕ
unfolding interface_exists
verify_loop if_list ret [] = ret
verify_loop if_list ret (rt_walker ∷ rs) =
    verify_loop if_list (if interface_exists if_list rt_walker.interface then ret else ret + 1) rs

unfoldable pub verify_lists : List SrIf → List RtEntry → ℕ
unfolding verify_loop
verify_lists [] rs = 999
verify_lists (i ∷ is) [] = 999
verify_lists (i ∷ is) (r ∷ rs) = verify_loop (i ∷ is) 0 (r ∷ rs)

unfoldable pub sr_verify_routing_table : Sr → ℕ
unfolding verify_lists
sr_verify_routing_table sr = verify_lists sr.if_list sr.routing_table

-- The route leads to an interface of the router.
abbrev pub Known : List SrIf → RtEntry → Type 0
Known if_list r = (i : SrIf) × (sr_get_interface if_list r.interface ≡ some i)

interface_exists-Known :
    (is : List SrIf) (r : RtEntry) → (interface_exists is r.interface ≡ true) ↔ Known is r
unfolding interface_exists sr_get_interface
interface_exists-Known [] r = ((λ e. absurd (cc e)), (λ k. absurd (cc (k.1))))
interface_exists-Known (i ∷ is) r =
    elim (Bool-cases (strncmp_eq iface_namelen i.name r.interface)) [
      | inl t ↦ rw t ((λ e. (i, refl)), (λ k. refl))
      | inr f ↦ rw f (interface_exists-Known is r)
    ]

verify_loop-ge : (is : List SrIf) (ret : ℕ) (rs : List RtEntry) → ret ≤ verify_loop is ret rs
unfolding verify_loop
verify_loop-ge is ret [] = omega arith
verify_loop-ge is ret (r ∷ rs) = elim (Bool-cases (interface_exists is r.interface)) [
  | inl t ↦ rw t (verify_loop-ge is ret rs)
  | inr f ↦ rw f (omega (arith, verify_loop-ge is (ret + 1) rs))
]

verify_loop-AllRoutes :
    (is : List SrIf) (rs : List RtEntry) → (verify_loop is 0 rs ≡ 0) ↔ AllRoutes (Known is) rs
unfolding verify_loop
verify_loop-AllRoutes is [] = ((λ e. tt), (λ k. refl))
verify_loop-AllRoutes is (r ∷ rs) =
    let known = interface_exists-Known is r in
    let rest = verify_loop-AllRoutes is rs in
    elim (Bool-cases (interface_exists is r.interface)) [
      | inl t ↦ rw t ((λ e. (known.0 t, rest.0 e)), (λ k. rest.1 k.1))
      | inr f ↦ rw f (
        (λ e. absurd (omega (arith, verify_loop-ge is 1 rs))),
        (λ k. absurd (cc (known.1 k.0, f))),
      )
    ]

-- The verification returns 0 exactly when there are interfaces and routes, and each route names an
-- interface of the router.
pub sr_verify_routing_table_iff :
    (sr : Sr)
    → (sr_verify_routing_table sr ≡ 0) ↔ (
        (sr.if_list ≢ []) × (sr.routing_table ≢ []) × AllRoutes (Known sr.if_list) sr.routing_table)
unfolding sr_verify_routing_table
sr_verify_routing_table_iff sr = by_tables sr.if_list sr.routing_table
  where
    by_tables :
        (is : List SrIf) (rs : List RtEntry)
        → (verify_lists is rs ≡ 0) ↔ ((is ≢ []) × (rs ≢ []) × AllRoutes (Known is) rs)
    by_tables [] rs = ((λ e. absurd (omega arith)), (λ k. absurd (k.0 refl)))
    by_tables (i ∷ is) [] = ((λ e. absurd (omega arith)), (λ k. absurd (k.1 refl)))
    by_tables (i ∷ is) (r ∷ rs) =
        let all = verify_loop-AllRoutes (i ∷ is) (r ∷ rs) in
        ((λ e. ((λ n. absurd (cc n)), (λ n. absurd (cc n)), all.0 e)), (λ k. all.1 k.2))

AllRoutes-In :
    (P : RtEntry → Type 0) (e : RtEntry) (rs : List RtEntry) → In e rs → AllRoutes P rs → P e
AllRoutes-In P e [] m all = elim m [ ]
AllRoutes-In P e (r ∷ rs) (inl same) all = subst P (sym same) all.0
AllRoutes-In P e (r ∷ rs) (inr later) all = AllRoutes-In P e rs later all.1

-- After a verification that returned 0, the lookup does not fail its assertion, and a route that it
-- finds leads to an interface of the router.
pub sr_verify_routing_table-lookup :
    (sr : Sr) (ip : ℕ)
    → sr_verify_routing_table sr ≡ 0
    → (o : Option RtEntry) × (sr_rt_lookup sr.routing_table ip ≡ some o)
      × ((e : RtEntry) → o ≡ some e → Known sr.if_list e)
sr_verify_routing_table-lookup sr ip ok =
    let (some_if, some_rt, all) = (sr_verify_routing_table_iff sr).0 ok in
    found sr.routing_table some_rt all
  where
    found :
        (rs : List RtEntry)
        → rs ≢ []
        → AllRoutes (Known sr.if_list) rs
        → (o : Option RtEntry) × (sr_rt_lookup rs ip ≡ some o)
          × ((e : RtEntry) → o ≡ some e → Known sr.if_list e)
    found [] ne all = absurd (ne refl)
    found (r ∷ rs) ne all =
        let (o, e, longest) = sr_rt_lookup-LongestMatch r rs ip in
        (
          o,
          e,
          λ x same. AllRoutes-In _ x (r ∷ rs) (subst (LongestMatch ip (r ∷ rs)) same longest).0 all,
        )
