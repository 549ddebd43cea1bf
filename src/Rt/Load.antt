-- ===== src/Rt/Load.antt =====
-- `sr_load_rt` of router/sr_rt.c: the routing table from a file.
pub mod Lines
use cscd58_nat.Base.{
  ℕ, List, [], ◌∷◌, Option, none, some, Bool, true, false, ◌&&◌, ltb, if◌then◌else◌, length,
  require, ◌>>=◌, ◌>>◌,
}
use cscd58_nat.Rt.{RtEntry, sr_add_rt_entry}

-- What the C library does: `sscanf` takes up to four words off a line, and `inet_aton` reads an
-- address (`none` is the result 0).
pub record Reader : Type 0 where
  pub sscanf : List ℕ → List (List ℕ)
  pub inet_aton : List ℕ → Option ℕ

-- The four arrays. They outlive the line: a word that is missing leaves what was there, `none` before
-- the first one.
pub record Fields : Type 0 where
  pub dest : Option (List ℕ)
  pub gw : Option (List ℕ)
  pub mask : Option (List ℕ)
  pub iface : Option (List ℕ)

-- A word of more than 31 characters is written past its array.
abbrev pub all_fit : List (List ℕ) → Bool
all_fit [] = true
all_fit (w ∷ ws) = ltb (length w) 32 && all_fit ws

abbrev pub assigned : List (List ℕ) → Fields → Fields
assigned [] f = f
assigned (d ∷ []) f = record f { dest = some d }
assigned (d ∷ g ∷ []) f = record f { dest = some d; gw = some g }
assigned (d ∷ g ∷ m ∷ []) f = record f { dest = some d; gw = some g; mask = some m }
assigned (d ∷ g ∷ m ∷ i ∷ _) f = record {
  dest = some d;
  gw = some g;
  mask = some m;
  iface = some i;
}

-- `if(inet_aton(...) == 0) return -1`: the inner `none` is the return.
abbrev pub checked {ℓ} :
    {A : Type ℓ} → Reader → Option (List ℕ) → (ℕ → Option (Option A)) → Option (Option A)
checked r none next = none
checked r (some s) next = elim (r.inet_aton s) [ none ↦ some none | some a ↦ next a ]

-- One line as an entry of the table.
pub record Row : Type 0 where
  pub dest_addr : ℕ
  pub gw_addr : ℕ
  pub mask_addr : ℕ
  pub if_name : List ℕ

unfoldable pub row_of : Reader → Fields → Option (Option Row)
row_of r f = checked r f.dest λ dest_addr. checked r f.gw λ gw_addr. checked r f.mask λ mask_addr.
    f.iface >>= λ iface. some (
      some (record {
        dest_addr = dest_addr;
        gw_addr = gw_addr;
        mask_addr = mask_addr;
        if_name = iface;
      }))

-- The result: 0 or -1, with the table as it then is.
pub data Loaded : Type 0 where
  loaded refused : List RtEntry → Loaded

abbrev pub add_row : List RtEntry → Row → List RtEntry
add_row table row = sr_add_rt_entry table row.dest_addr row.gw_addr row.mask_addr row.if_name

-- The table that a row is added to: the old one is dropped at the first row.
abbrev pub cleared : Bool → List RtEntry → List RtEntry
cleared clear_routing_table table = if clear_routing_table then table else []

-- The loop over the lines as `fgets` returns them.
unfoldable pub load_lines : Reader → Fields → Bool → List RtEntry → List (List ℕ) → Option Loaded
unfolding row_of sr_add_rt_entry
load_lines r f clear_routing_table table [] = some (loaded table)
load_lines r f clear_routing_table table (line ∷ lines) =
    let words = r.sscanf line in
    let f' = assigned words f in
    require (all_fit words)
    >> (row_of r f' >>= λ result. elim result [
      | none ↦ some (refused table)
      | some row ↦ load_lines r f' true (add_row (cleared clear_routing_table table) row) lines
    ])

abbrev pub no_fields : Fields
no_fields = record { dest = none; gw = none; mask = none; iface = none }

-- `file` is none where the file cannot be read.
unfoldable pub sr_load_rt : Reader → List RtEntry → Option (List (List ℕ)) → Option Loaded
unfolding load_lines
sr_load_rt r table none = some (refused table)
sr_load_rt r table (some lines) = load_lines r no_fields false table lines
