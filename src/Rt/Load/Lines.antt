-- ===== src/Rt/Load/Lines.antt =====
-- What files make of the routing table.
use cscd58_nat.Base.{
  ℕ, ◌≡◌, refl, sym, ap, ◌∙◌, List, [], ◌∷◌, ◌++◌, Option, some, Bool, true, false, take, map,
}
use mathlib.Core.List.{append_assoc, append-nil}
use cscd58_nat.Proto.{iface_namelen}
use cscd58_nat.Rt.{RtEntry, sr_add_rt_entry}
use cscd58_nat.Rt.Load.{
  Reader, Fields, all_fit, assigned, checked, Row, row_of, loaded, add_row, cleared, load_lines,
  no_fields, sr_load_rt,
}

-- The line has four words, none longer than 31 characters, and the first three are the
-- addresses of the row.
abbrev pub Gives : Reader → List ℕ → Row → Type 0
Gives r line row =
    (dest gw mask : List ℕ) × (r.sscanf line ≡ dest ∷ gw ∷ mask ∷ row.if_name ∷ [])
    × (all_fit (dest ∷ gw ∷ mask ∷ row.if_name ∷ []) ≡ true)
    × (r.inet_aton dest ≡ some row.dest_addr)
    × (r.inet_aton gw ≡ some row.gw_addr)
    × (r.inet_aton mask ≡ some row.mask_addr)

abbrev pub GivesAll : Reader → List (List ℕ) → List Row → Type 0
GivesAll r [] [] = Unit {0}
GivesAll r [] (row ∷ rows) = ⊥
GivesAll r (line ∷ lines) [] = ⊥
GivesAll r (line ∷ lines) (row ∷ rows) = Gives r line row × GivesAll r lines rows

abbrev pub entry_of : Row → RtEntry
entry_of row = record {
  dest = row.dest_addr;
  gw = row.gw_addr;
  mask = row.mask_addr;
  interface = take iface_namelen row.if_name;
}

add_row-append : (table : List RtEntry) (row : Row) → add_row table row ≡ table ++ entry_of row ∷ []
unfolding sr_add_rt_entry
add_row-append [] row = refl
add_row-append (e ∷ table) row = ap (λ t. e ∷ t) (add_row-append table row)

step_line :
    (r : Reader) (f : Fields) (clear : Bool) (table : List RtEntry) (line : List ℕ)
    (lines : List (List ℕ)) (row : Row)
    → all_fit (r.sscanf line) ≡ true
    → row_of r (assigned (r.sscanf line) f) ≡ some (some row)
    → load_lines r f clear table (line ∷ lines)
      ≡ load_lines r (assigned (r.sscanf line) f) true (add_row (cleared clear table) row) lines
unfolding load_lines
step_line r f clear table line lines row fit found = rw (fit, found) refl

checked-some :
    (r : Reader) (s : List ℕ) (a : ℕ) (next : ℕ → Option (Option Row))
    → r.inet_aton s ≡ some a
    → checked r (some s) next ≡ next a
checked-some r s a next e = rw (e, checked) refl

row_of-assigned :
    (r : Reader) (row : Row) (dest gw mask : List ℕ)
    → r.inet_aton dest ≡ some row.dest_addr
    → r.inet_aton gw ≡ some row.gw_addr
    → r.inet_aton mask ≡ some row.mask_addr
    → row_of r
        (record { dest = some dest; gw = some gw; mask = some mask; iface = some row.if_name })
      ≡ some (some row)
unfolding row_of
row_of-assigned r row dest gw mask d g m =
    checked-some r dest row.dest_addr _ d
    ∙ (checked-some r gw row.gw_addr _ g ∙ checked-some r mask row.mask_addr _ m)

-- One good line.
load_lines-Gives :
    (r : Reader) (f : Fields) (clear : Bool) (table : List RtEntry) (line : List ℕ)
    (lines : List (List ℕ)) (row : Row)
    → Gives r line row
    → (f' : Fields) × (load_lines r f clear table (line ∷ lines)
        ≡ load_lines r f' true (add_row (cleared clear table) row) lines)
      × (row_of r f' ≡ some (some row))
load_lines-Gives r f clear table line lines row (dest, gw, mask, s, fit, d, g, m) =
    let fits : all_fit (r.sscanf line) ≡ true = ap all_fit s ∙ fit in
    let found : row_of r (assigned (r.sscanf line) f) ≡ some (some row) =
      ap (λ ws. row_of r (assigned ws f)) s ∙ row_of-assigned r row dest gw mask d g m in
    (assigned (r.sscanf line) f, step_line r f clear table line lines row fits found, found)

load_lines-GivesAll :
    (r : Reader) (f : Fields) (table : List RtEntry) (lines : List (List ℕ)) (rows : List Row)
    → GivesAll r lines rows
    → load_lines r f true table lines ≡ some (loaded (table ++ map entry_of rows))
unfolding load_lines
load_lines-GivesAll r f table [] [] all = ap (λ t. some (loaded t)) (sym (append-nil table))
load_lines-GivesAll r f table [] (row ∷ rows) all = elim all [ ]
load_lines-GivesAll r f table (line ∷ lines) [] all = elim all [ ]
load_lines-GivesAll r f table (line ∷ lines) (row ∷ rows) (good, all) =
    let (f', step, _) = load_lines-Gives r f true table line lines row good in
    step
    ∙ (ap (λ t. load_lines r f' true t lines) (add_row-append table row)
        ∙ (load_lines-GivesAll r f' (table ++ entry_of row ∷ []) lines rows all
            ∙ ap (λ t. some (loaded t))
                (append_assoc table (entry_of row ∷ []) (map entry_of rows))))

-- Where every line of the file has four words of at most 31 characters, the first three of them
-- addresses, and there is at least one line, loading it replaces the table by the entries of the
-- lines, in their order.
pub sr_load_rt-rows :
    (r : Reader) (table : List RtEntry) (line : List ℕ) (lines : List (List ℕ)) (row : Row)
    (rows : List Row)
    → GivesAll r (line ∷ lines) (row ∷ rows)
    → sr_load_rt r table (some (line ∷ lines)) ≡ some (loaded (map entry_of (row ∷ rows)))
unfolding sr_load_rt
sr_load_rt-rows r table line lines row rows (good, all) =
    let (f', step, _) = load_lines-Gives r no_fields false table line lines row good in
    step
    ∙ (ap (λ t. load_lines r f' true t lines) (add_row-append [] row)
        ∙ load_lines-GivesAll r f' (entry_of row ∷ []) lines rows all)
