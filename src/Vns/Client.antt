-- ===== src/Vns/Client.antt =====
-- The router as a client of the server: the rest of struct sr_instance of router/sr_router.h, what
-- it has written, and what it asks of the operating system.
use cscd58_nat.Base.{ℕ, List, Option, Bool, Buffer}
use cscd58_nat.If.{SrIf}
use cscd58_nat.Instance.{Sr}
use cscd58_nat.Vns.Socket.{Event}

-- A file and what has been written into it.
pub record File : Type 0 where
  pub name : List ℕ
  pub contents : Buffer

-- `user`, `host` and `vm_template` (the field `template`) are arrays of 32, 32 and 30 characters.
-- `messages` are the messages sent to the server other than frames, and `files` the files written,
-- both the latest first.
pub record Client : Type 0 where
  pub sr : Sr
  pub user : Buffer
  pub host : Buffer
  pub vm_template : Buffer
  pub topo_id : ℕ
  pub messages : List Buffer
  pub files : List File

-- What the program asks of the system and of SHA-1 (router/sha1.c):
--   * memory: what `malloc` returns for a new interface, by the interfaces before it;
--   * time: `time(NULL)` when this much is left to be read from the socket;
--   * writable: `fopen` opens the file of this name for writing;
--   * auth_key: no file, or a file without a line, or the 64 characters of the array that `fgets` has
--     read the line into;
--   * sha1: the five words of the digest of the input, if SHA1Result computes them;
--   * sends: `send` takes the whole message;
--   * reaches: the server's host is found and the connection is made.
pub record Os : Type 0 where
  pub memory : List SrIf → SrIf
  pub time : List Event → ℕ
  pub writable : List ℕ → Bool
  pub auth_key : Option (Option Buffer)
  pub sha1 : Buffer → Option (List ℕ)
  pub sends : Buffer → Bool
  pub reaches : Bool
