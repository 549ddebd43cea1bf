-- ===== src/Rt/Lpm.antt =====
-- `sr_rt_lookup` against longest-prefix matching.
use cscd58_nat.Base.{
  ℕ, ◌≤◌, ◌<◌, ◌≡◌, ◌⊎◌, inl, inr, refl, sym, List, [], ◌∷◌, Option, none, some, true, false, ltb,
  ◌&&◌, arith, ntohl, Bool-cases,
}
use mathlib.Core.Path.{subst}
use cscd58_nat.Rt.{RtEntry, prefix_matches, lookup_loop, sr_rt_lookup}

abbrev pub In : RtEntry → List RtEntry → Type 0
In e [] = ⊥
In e (r ∷ rs) = (e ≡ r) ⊎ In e rs

abbrev pub AllRoutes : (RtEntry → Type 0) → List RtEntry → Type 0
AllRoutes P [] = Unit {0}
AllRoutes P (r ∷ rs) = P r × AllRoutes P rs

-- Every entry that matches has a mask of at most `bound`.
abbrev pub NoLonger : ℕ → ℕ → List RtEntry → Type 0
NoLonger ip bound = AllRoutes (λ r. prefix_matches ip r ≡ true → ntohl r.mask ≤ bound)

-- What the rest of the loop makes of the best entry so far.
abbrev Best : ℕ → Option RtEntry → ℕ → List RtEntry → Option RtEntry → Type 0
Best ip lpm longest rs none = (lpm ≡ none) × NoLonger ip longest rs
Best ip lpm longest rs (some e) =
    ((lpm ≡ some e) × NoLonger ip longest rs)
    ⊎ (In e rs
        × (prefix_matches ip e ≡ true)
        × (longest < ntohl e.mask)
        × NoLonger ip (ntohl e.mask) rs)

taken :
    (ip : ℕ) (lpm : Option RtEntry) (longest : ℕ) (r : RtEntry) (rs : List RtEntry)
    → (prefix_matches ip r && ltb longest (ntohl r.mask)) ≡ true
    → (o : Option RtEntry) → Best ip (some r) (ntohl r.mask) rs o
    → Best ip lpm longest (r ∷ rs) o
taken ip lpm longest r rs t none b = absurd (cc (b.0))
taken ip lpm longest r rs t (some e) (inl b) =
    let same : r ≡ e = ground arith in
    inr (
      inl (sym same),
      ground arith,
      ground arith,
      (λ m. ground arith, subst (λ x. NoLonger ip (ntohl x.mask) rs) same b.1),
    )
taken ip lpm longest r rs t (some e) (inr b) =
    inr (inr b.0, b.1, ground arith, (λ m. ground arith, b.3))

passed :
    (ip : ℕ) (lpm : Option RtEntry) (longest : ℕ) (r : RtEntry) (rs : List RtEntry)
    → (prefix_matches ip r && ltb longest (ntohl r.mask)) ≡ false
    → (o : Option RtEntry) → Best ip lpm longest rs o
    → Best ip lpm longest (r ∷ rs) o
passed ip lpm longest r rs t none b = (b.0, (λ m. ground arith, b.1))
passed ip lpm longest r rs t (some e) (inl b) = inl (b.0, (λ m. ground arith, b.1))
passed ip lpm longest r rs t (some e) (inr b) = inr (inr b.0, b.1, b.2, (λ m. ground arith, b.3))

lookup_loop-Best :
    (ip : ℕ) (lpm : Option RtEntry) (longest : ℕ) (rs : List RtEntry)
    → Best ip lpm longest rs (lookup_loop ip lpm longest rs)
unfolding lookup_loop
lookup_loop-Best ip none longest [] = (refl, tt)
lookup_loop-Best ip (some e) longest [] = inl (refl, tt)
lookup_loop-Best ip lpm longest (r ∷ rs) =
    elim (Bool-cases (prefix_matches ip r && ltb longest (ntohl r.mask))) [
      | inl t ↦
          rw (t, lookup_loop)
            (taken ip lpm longest r rs t _ (lookup_loop-Best ip (some r) (ntohl r.mask) rs))
      | inr f ↦
          rw (f, lookup_loop) (passed ip lpm longest r rs f _ (lookup_loop-Best ip lpm longest rs))
    ]

-- The longest match: an entry of the table that matches, whose mask is not 0 and at least that of
-- every entry that matches; or none, where every matching entry has the mask 0.
abbrev pub LongestMatch : ℕ → List RtEntry → Option RtEntry → Type 0
LongestMatch ip rs none = NoLonger ip 0 rs
LongestMatch ip rs (some e) =
    In e rs × (prefix_matches ip e ≡ true) × (0 < ntohl e.mask) × NoLonger ip (ntohl e.mask) rs

Best-LongestMatch :
    (ip : ℕ) (rs : List RtEntry) (o : Option RtEntry) → Best ip none 0 rs o → LongestMatch ip rs o
Best-LongestMatch ip rs none b = b.1
Best-LongestMatch ip rs (some e) (inl b) = absurd (cc (b.0))
Best-LongestMatch ip rs (some e) (inr b) = b

-- On a table that is not empty the lookup succeeds with a longest match. A route with the mask 0 (a
-- default route) is never the result.
pub sr_rt_lookup-LongestMatch :
    (r : RtEntry) (rs : List RtEntry) (ip : ℕ)
    → (o : Option RtEntry) × (sr_rt_lookup (r ∷ rs) ip ≡ some o) × LongestMatch ip (r ∷ rs) o
unfolding sr_rt_lookup
sr_rt_lookup-LongestMatch r rs ip = (
  lookup_loop ip none 0 (r ∷ rs),
  refl,
  Best-LongestMatch ip (r ∷ rs) _ (lookup_loop-Best ip none 0 (r ∷ rs)),
)
