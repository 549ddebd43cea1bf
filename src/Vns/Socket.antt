-- ===== src/Vns/Socket.antt =====
-- The two loops of `sr_read_from_server_expect` that read from the socket, and the checks between
-- and after them.
pub mod Stream
pub mod Ends
pub mod Extent
use cscd58_nat.Base.{
  ℕ, zero, suc, ◌+◌, ◌-◌, ◌^◌, List, [], ◌∷◌, ◌++◌, Option, none, some, Bool, true, false, ltb, leb,
  ◌==◌, if◌then◌else◌, Buffer, load32, store32, take, drop, length, ntohl,
}
use cscd58_nat.Build.{bytes32}

-- What the socket does next: bytes arrive, a signal breaks the call (EINTR), the call fails, or the
-- server has closed the connection, after which every call returns 0.
pub data Event : Type 0 where
  bytes : List ℕ → Event
  interrupted failed shut : Event

-- How a loop of reads ends: with the bytes, with the result -1 of a call, never (it spins on the
-- result 0), or not yet.
pub data Read : Type 0 where
  got : List ℕ → List Event → Read
  error : List Event → Read
  spins waits : Read

-- `while (bytes_read < n) do { ... } while (errno == EINTR)`: `left` bytes are missing and `sofar`
-- is what has been read. A call asks for the bytes that are missing and takes what there is.
unfoldable pub read_bytes : ℕ → List ℕ → List Event → Read
read_bytes zero sofar es = got sofar es
read_bytes (suc left) sofar [] = waits
read_bytes (suc left) sofar (interrupted ∷ es) = read_bytes (suc left) sofar es
read_bytes (suc left) sofar (failed ∷ es) = error es
read_bytes (suc left) sofar (shut ∷ es) = spins
read_bytes (suc left) sofar (bytes c ∷ es) =
    if ltb left (length c)
    then got (sofar ++ take (suc left) c) (bytes (drop (suc left) c) ∷ es)
    else read_bytes (suc left - length c) (sofar ++ c) es

-- The message in its block of `len` bytes, or why there is none: `broken` is the return of -1, and
-- `fault` an access outside the block.
pub data Received : Type 0 where
  message : Buffer → List Event → Received
  broken : List Event → Received
  fault spinning waiting : Received

-- The largest length accepted.
abbrev pub max_message : ℕ
max_message = 10000

-- The type is turned into host byte order in place.
abbrev pub host_type : Buffer → Buffer
host_type buf = store32 buf 4 (ntohl (load32 buf 4))

abbrev pub with_body : ℕ → Read → Received
with_body len (got body es) =
    if ltb len 8 then fault else message (host_type (bytes32 (ntohl len) ++ body)) es
with_body len (error es) = broken es
with_body len spins = spinning
with_body len waits = waiting

-- `len` is an int: as a uint32_t it is at least 2^31 where it is negative.
abbrev pub with_length : ℕ → List Event → Received
with_length len es =
    if ltb max_message len
    then broken es
    else if ltb len 4
    then fault
    else with_body len (read_bytes (len - 4) [] es)

unfoldable pub read_message : List Event → Received
unfolding read_bytes
read_message es = elim (read_bytes 4 [] es) [
  | got head rest ↦ with_length (ntohl (load32 head 0)) rest
  | error rest ↦ broken rest
  | spins ↦ spinning
  | waits ↦ waiting
]
