-- ===== src/Vns/HwInfo/Entries.antt =====
-- The hardware information that the server packs (VNSInterface and VNSHardwareInfo of
-- src/pox_module/cs144/VNSProtocol.py), and how the router takes it up entry by entry.
use cscd58_nat.Base.{
  ℕ, zero, suc, ◌+◌, ◌-◌, ◌^◌, ◌≤◌, ◌<◌, ◌≡◌, ◌≢◌, refl, ap, ◌∙◌, List, [], ◌∷◌, ◌++◌, some, Buffer,
  load16, load32, take, drop, replicate, length, ntohl, ntohl-lt, ntohl-ntohl, ntohs, arith, ◌>>=◌,
  length-append, length-take, take_all, take-append_le, take-append_ge, drop-append_ge,
}
use mathlib.Core.List.{append_assoc}
use cscd58_nat.Build.{bytes32}
use cscd58_nat.If.{SrIf, sr_add_interface, update_last, sr_set_ether_addr, sr_set_ether_ip}
use cscd58_nat.Vns.Message.{
  hwinterface, hwspeed, hwsubnet, hwether, hwethip, hwmask, vnshwinfo, c_string,
}
use cscd58_nat.Vns.HwInfo.{handle_entry, handle_entries}

-- `struct.pack('32s', s)`: cut or filled up with zeros.
abbrev pub pad : ℕ → List ℕ → Buffer
pad n s = take n (s ++ replicate n 0)

abbrev pub pack_entry : ℕ → List ℕ → Buffer
pack_entry key value = bytes32 (ntohl key) ++ pad 32 value

-- VNSInterface.pack; `ip` and `mask` as the four bytes are in memory.
abbrev pub pack_interface : SrIf × ℕ → Buffer
pack_interface (i, mask) =
    pack_entry hwinterface i.name
    ++ (pack_entry hwspeed []
        ++ (pack_entry hwether i.addr
            ++ (pack_entry hwethip (bytes32 i.ip)
                ++ (pack_entry hwsubnet [] ++ pack_entry hwmask (bytes32 mask)))))

-- VNSHardwareInfo.pack
abbrev pub pack_interfaces : List (SrIf × ℕ) → Buffer
pack_interfaces [] = []
pack_interfaces (i ∷ is) = pack_interface i ++ pack_interfaces is

-- The message as it is after it has been read: the length in network byte order and the type in
-- host byte order.
abbrev pub hwinfo_message : List (SrIf × ℕ) → Buffer
hwinfo_message is =
    bytes32 (ntohl (8 + length (pack_interfaces is))) ++ (bytes32 vnshwinfo ++ pack_interfaces is)

abbrev pub interfaces : List (SrIf × ℕ) → List SrIf
interfaces [] = []
interfaces (i ∷ is) = i.0 ∷ interfaces is

abbrev pub NoZero : List ℕ → Type 0
NoZero [] = Unit {0}
NoZero (x ∷ xs) = (x ≢ 0) × NoZero xs

-- A name of at most 32 characters, an address of six bytes and an ip of 32 bits.
abbrev pub Packable : List (SrIf × ℕ) → Type 0
Packable [] = Unit {0}
Packable (i ∷ is) =
    (NoZero i.0.name × (length i.0.name ≤ 32) × (length i.0.addr ≡ 6) × (i.0.ip < 2 ^ 32))
    × Packable is

length-replicate : (n x : ℕ) → length (replicate n x) ≡ n
length-replicate zero x = refl
length-replicate (suc n) x = ap suc (length-replicate n x)

pub length-pad : (n : ℕ) (s : List ℕ) → length (pad n s) ≡ n
length-pad n s =
    length-take n (s ++ replicate n 0)
      (omega (arith, length-append s (replicate n 0), length-replicate n 0))

-- A string that fits is read back.
c_string-zeros :
    (n m : ℕ) (s : List ℕ)
    → NoZero s
    → length s ≤ n
    → n ≤ length s + m
    → c_string n (take n (s ++ replicate m 0)) ≡ some s
unfolding c_string
c_string-zeros zero m [] z h k = refl
c_string-zeros (suc n) zero [] z h k = absurd (omega arith)
c_string-zeros (suc n) (suc m) [] z h k = refl
c_string-zeros zero m (x ∷ s) z h k = absurd (omega arith)
c_string-zeros (suc n) m (x ∷ s) z h k =
    ground (arith, c_string-zeros n m s z.1 (omega arith) (omega arith))

update_last-append :
    (change : SrIf → SrIf) (is : List SrIf) (i : SrIf)
    → update_last change (is ++ i ∷ []) ≡ some (is ++ change i ∷ [])
unfolding update_last
update_last-append change [] i = refl
update_last-append change (j ∷ []) i = refl
update_last-append change (j ∷ k ∷ is) i = rw (update_last-append change (k ∷ is) i) refl

sr_add_interface-append :
    (is : List SrIf) (memory : SrIf) (name : List ℕ)
    → length name ≤ 32
    → sr_add_interface is memory name ≡ is ++ record memory { name = name } ∷ []
unfolding sr_add_interface
sr_add_interface-append [] memory name h =
    ap (λ n. record memory { name = n } ∷ []) (take_all 32 name h)
sr_add_interface-append (i ∷ is) memory name h =
    ap (λ l. i ∷ l) (sr_add_interface-append is memory name h)

-- One entry in front of the others.
handle_entries-entry :
    (memory : List SrIf → SrIf) (n key : ℕ) (value rest : List ℕ) (is : List SrIf)
    → handle_entries memory (suc n) (pack_entry key value ++ rest) is ≡ (
        handle_entry (memory is) (pack_entry key value) is >>= λ changed.
        handle_entries memory n rest changed)
unfolding handle_entries
handle_entries-entry memory n key value rest is =
    let l : length (pad 32 value) ≡ 32 = length-pad 32 value in
    let zero_left : 36 - length (pack_entry key value) ≡ 0 = omega arith in
    let t : take 36 (pack_entry key value ++ rest) ≡ pack_entry key value =
      take-append_le 36 (pack_entry key value) rest (omega arith)
      ∙ take_all 36 (pack_entry key value) (omega arith) in
    let d : drop 36 (pack_entry key value ++ rest) ≡ rest =
      drop-append_ge 36 (pack_entry key value) rest (omega arith)
      ∙ ap (λ k. drop k rest) zero_left in
    rw (t, d) refl

-- The entry with the name adds an interface at the end, and those with the addresses change it.
handle_entry-name :
    (memory : SrIf) (is : List SrIf) (name : List ℕ)
    → NoZero name
    → length name ≤ 32
    → handle_entry memory (pack_entry hwinterface name) is
      ≡ some (is ++ record memory { name = name } ∷ [])
unfolding handle_entry load32 load16 ntohl ntohs
handle_entry-name memory is name z h =
    rw (c_string-zeros 32 32 name z h (omega arith), sr_add_interface-append is memory name h) refl

handle_entry-ether :
    (memory : SrIf) (is : List SrIf) (i : SrIf) (mac : List ℕ)
    → length mac ≡ 6
    → handle_entry memory (pack_entry hwether mac) (is ++ i ∷ [])
      ≡ some (is ++ record i { addr = mac } ∷ [])
unfolding handle_entry load32 load16 ntohl ntohs sr_set_ether_addr
handle_entry-ether memory is i mac h =
    let m : take 6 (pad 32 mac) ≡ mac =
      rw (take-append_ge 32 mac (replicate 32 0) (omega arith))
        (take-append_le 6 mac _ (omega arith) ∙ take_all 6 mac (omega arith)) in
    rw (update_last-append (λ j. record j { addr = take 6 (pad 32 mac) }) is i, m) refl

pub load32-bytes32 : (ip : ℕ) (rest : Buffer) → ip < 2 ^ 32 → load32 (bytes32 ip ++ rest) 0 ≡ ip
unfolding load32 load16
load32-bytes32 ip rest h = omega arith

handle_entry-ip :
    (memory : SrIf) (is : List SrIf) (i : SrIf) (ip : ℕ)
    → ip < 2 ^ 32
    → handle_entry memory (pack_entry hwethip (bytes32 ip)) (is ++ i ∷ [])
      ≡ some (is ++ record i { ip = ip } ∷ [])
unfolding handle_entry sr_set_ether_ip load32 load16 ntohl ntohs
handle_entry-ip memory is i ip h =
    rw
      (
        update_last-append (λ j. record j { ip = load32 (pad 32 (bytes32 ip)) 0 }) is i,
        load32-bytes32 ip (replicate 28 0) h,
      )
      refl

handle_entry-other :
    (memory : SrIf) (is : List SrIf) (key : ℕ) (value : List ℕ)
    → key < 2 ^ 32
    → key ≢ hwinterface
    → key ≢ hwether
    → key ≢ hwethip
    → handle_entry memory (pack_entry key value) is ≡ some is
unfolding handle_entry
handle_entry-other memory is key value small a b c =
    rw (load32-bytes32 (ntohl key) (pad 32 value) (ntohl-lt key), ntohl-ntohl key small)
      (ground arith)

-- An entry that goes well, in front of the others.
after_entry :
    (memory : List SrIf → SrIf) (n key : ℕ) (value rest : List ℕ) (is changed : List SrIf)
    → handle_entry (memory is) (pack_entry key value) is ≡ some changed
    → handle_entries memory (suc n) (pack_entry key value ++ rest) is
      ≡ handle_entries memory n rest changed
after_entry memory n key value rest is changed e =
    handle_entries-entry memory n key value rest is
    ∙ ap (λ o. o >>= λ c. handle_entries memory n rest c) e

pub append_six :
    (a b c d e f rest : List ℕ)
    → (a ++ (b ++ (c ++ (d ++ (e ++ f))))) ++ rest ≡ a ++ (b ++ (c ++ (d ++ (e ++ (f ++ rest)))))
append_six a b c d e f rest =
    rw (append_assoc a, append_assoc b, append_assoc c, append_assoc d, append_assoc e) refl

-- The six entries of one interface.
pub handle_entries-interface :
    (memory : List SrIf → SrIf) (n mask : ℕ) (i : SrIf) (rest : Buffer) (is : List SrIf)
    → NoZero i.name
    → length i.name ≤ 32
    → length i.addr ≡ 6
    → i.ip < 2 ^ 32
    → handle_entries memory
        (suc (suc (suc (suc (suc (suc n))))))
        (pack_interface (i, mask) ++ rest)
        is
      ≡ handle_entries memory n rest (is ++ i ∷ [])
handle_entries-interface memory n mask i rest is z name addr ip =
    let i₁ : SrIf = record (memory is) { name = i.name } in
    let i₂ : SrIf = record i₁ { addr = i.addr } in
    let e₁ = pack_entry hwinterface i.name in
    let e₂ = pack_entry hwspeed [] in
    let e₃ = pack_entry hwether i.addr in
    let e₄ = pack_entry hwethip (bytes32 i.ip) in
    let e₅ = pack_entry hwsubnet [] in
    let e₆ = pack_entry hwmask (bytes32 mask) in
    let r₅ = e₆ ++ rest in
    let r₄ = e₅ ++ r₅ in
    let r₃ = e₄ ++ r₄ in
    let r₂ = e₃ ++ r₃ in
    let added = is ++ i ∷ [] in
    ap (λ b. handle_entries memory (suc (suc (suc (suc (suc (suc n)))))) b is)
      (append_six e₁ e₂ e₃ e₄ e₅ e₆ rest)
    ∙ (after_entry memory (suc (suc (suc (suc (suc n))))) hwinterface i.name (e₂ ++ r₂) is
          (is ++ i₁ ∷ []) (handle_entry-name (memory is) is i.name z name)
        ∙ (after_entry memory (suc (suc (suc (suc n)))) hwspeed [] r₂ (is ++ i₁ ∷ [])
              (is ++ i₁ ∷ [])
              (handle_entry-other _ _ hwspeed [] (omega arith) (omega arith) (omega arith)
                (omega arith))
            ∙ (after_entry memory (suc (suc (suc n))) hwether i.addr r₃ (is ++ i₁ ∷ [])
                  (is ++ i₂ ∷ []) (handle_entry-ether _ is i₁ i.addr addr)
                ∙ (after_entry memory (suc (suc n)) hwethip (bytes32 i.ip) r₄ (is ++ i₂ ∷ []) added
                      (handle_entry-ip _ is i₂ i.ip ip)
                    ∙ (after_entry memory (suc n) hwsubnet [] r₅ added added (
                          handle_entry-other _ _ hwsubnet [] (omega arith) (omega arith)
                            (omega arith) (omega arith))
                        ∙ after_entry memory n hwmask (bytes32 mask) rest added added (
                            handle_entry-other _ _ hwmask (bytes32 mask) (omega arith) (omega arith)
                              (omega arith) (omega arith)))))))
