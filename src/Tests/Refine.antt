-- ===== src/Tests/Refine.antt =====
-- A run of the mapping table against its specification.
use cscd58_nat.Base.{◌≡◌, refl, List, [], ◌∷◌, some}
use cscd58_nat.Nat.Types.{SrNat, icmp}
use cscd58_nat.Nat.Table.Invariant.{IsValid}
use cscd58_nat.Nat.Refine.{Op, insert, expire, apply, run, RoomFor, SpecRun, run_refines}
use cscd58_nat.Nat.View.{view_of}
use cscd58_nat.Tests.Data.{empty_nat, inside}
use cscd58_nat.Tests.Table.{empty-IsValid, empty-HasRoom}

abbrev ops : List Op
ops = insert inside 7 icmp 0 ∷ expire 100 ∷ []

ran : (nat' : SrNat) × (run ops empty_nat ≡ some nat')
unfolding run apply
ran = (_, refl)

ops-RoomFor : RoomFor ops empty_nat
unfolding apply
ops-RoomFor = (empty-HasRoom, (tt, tt))

run_refines_example : IsValid ran.0 × SpecRun empty_nat ops (view_of empty_nat) (view_of ran.0)
run_refines_example = run_refines empty_nat ran.0 ops empty-IsValid ops-RoomFor ran.1
