-- ===== src/Vns/Message.antt =====
-- router/vnscommand.h: the kinds of message and the layout of each. A message is the list of its
-- bytes, and a field of several bytes is in network byte order until `ntohl`.
use cscd58_nat.Base.{
  ℕ, zero, suc, List, [], ◌∷◌, Option, none, some, ◌==◌, if◌then◌else◌, Buffer, load32, take,
  length, replicate, ◌++◌,
}

-- VNSOPEN, VNSCLOSE, VNSPACKET, VNSBANNER, VNSHWINFO
abbrev pub vnsopen : ℕ
vnsopen = 1

abbrev pub vnsclose : ℕ
vnsclose = 2

abbrev pub vnspacket : ℕ
vnspacket = 4

abbrev pub vnsbanner : ℕ
vnsbanner = 8

abbrev pub vnshwinfo : ℕ
vnshwinfo = 16

-- VNS_RTABLE and those after it
abbrev pub vns_rtable : ℕ
vns_rtable = 32

abbrev pub vns_open_template : ℕ
vns_open_template = 64

abbrev pub vns_auth_request : ℕ
vns_auth_request = 128

abbrev pub vns_auth_reply : ℕ
vns_auth_reply = 256

abbrev pub vns_auth_status : ℕ
vns_auth_status = 512

-- IDSIZE
abbrev pub idsize : ℕ
idsize = 32

-- HWINTERFACE, HWSPEED, HWSUBNET, HWETHER, HWETHIP, HWMASK
abbrev pub hwinterface : ℕ
hwinterface = 1

abbrev pub hwspeed : ℕ
hwspeed = 2

abbrev pub hwsubnet : ℕ
hwsubnet = 4

abbrev pub hwether : ℕ
hwether = 32

abbrev pub hwethip : ℕ
hwethip = 64

abbrev pub hwmask : ℕ
hwmask = 128

-- c_base: mLen, mType
abbrev pub base_size : ℕ
base_size = 8

abbrev pub m_len : Buffer → ℕ
m_len p = load32 p 0

abbrev pub m_type : Buffer → ℕ
m_type p = load32 p 4

-- c_packet_header: c_base and mInterfaceName[16]
abbrev pub packet_header_size : ℕ
packet_header_size = 24

-- c_hw_entry: mKey and value[32]
abbrev pub hw_value_size : ℕ
hw_value_size = 32

abbrev pub hw_entry_size : ℕ
hw_entry_size = 36

-- What a function that reads at most `n` characters sees of the string at the head of the buffer. It
-- reads past the end of the buffer where neither a 0 nor the `n`th character comes before.
unfoldable pub c_string : ℕ → Buffer → Option (List ℕ)
c_string zero b = some []
c_string (suc n) [] = none
c_string (suc n) (x ∷ b) =
    let rest = c_string n b in
    if x == 0 then some [] else elim rest [ none ↦ none | some s ↦ some (x ∷ s) ]

-- What `strncpy(d, s, n)` leaves in `d`.
abbrev pub strncpy : ℕ → List ℕ → Buffer
strncpy n s = take n (s ++ replicate n 0)

-- The string in a whole array: `none` where no 0 ends it, so that `strlen` and `strcpy` read on past
-- the array.
abbrev pub string_in : Buffer → Option (List ℕ)
string_in array = c_string (suc (length array)) array
