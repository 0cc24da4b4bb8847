-- ===== src/Raw/System.antt =====
-- What raw/soc.c and raw/tap_linux.c use of the system: descriptors, memory, and the flags of the interface.
-- What a system call returns is an argument.
use protocol_stack.Base.{◌==◌, arith, if◌then◌else◌, ◌≡◌, Option, List, ◌∷◌, [], ℕ}

-- The descriptors that are open, and the objects that are allocated, by their addresses.
pub record Sys : Type 0 where
  pub fds : List ℕ
  pub objects : List ℕ
  pub flags : ℕ

abbrev pub iff_promisc : ℕ
iff_promisc = 0x100

-- `struct soc_dev` or `struct tap_dev` and where it is. The descriptor -1 is `none`.
pub record Handle : Type 0 where
  pub address : ℕ
  pub fd : Option ℕ

unfoldable pub remove : ℕ → List ℕ → List ℕ
remove k [] = []
remove k (x ∷ xs) = let rest = remove k xs in if x == k then xs else (x ∷ rest)

unfoldable pub sys_alloc : ℕ → Sys → Sys
sys_alloc address sys = record sys { objects = address ∷ sys.objects }

unfoldable pub sys_open : ℕ → Sys → Sys
sys_open fd sys = record sys { fds = fd ∷ sys.fds }

unfoldable pub sys_close : ℕ → Sys → Sys
sys_close fd sys = record sys { fds = remove fd sys.fds }

unfoldable pub sys_free : ℕ → Sys → Sys
sys_free address sys = record sys { objects = remove address sys.objects }

-- What an open comes to; `null_write` is the use of a null pointer.
pub data Opened : Type 0 where
  null_write failed : Opened
  opened : Handle → Opened

-- `poll` and `read` as `rx` sees them.
pub data Poll : Type 0 where
  poll_error poll_timeout poll_ready : Poll

pub data Read : Type 0 where
  read_error : Read
  read_bytes : List ℕ → Read

abbrev pub rx_buf_size : ℕ
rx_buf_size = 2048

pub close_socket : (fd : ℕ) (sys : Sys) → sys_close fd (sys_open fd sys) ≡ sys
unfolding sys_close sys_open remove
close_socket fd sys = ground arith
