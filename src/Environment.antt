-- ===== src/Environment.antt =====
-- What the program asks of the machine before it chooses a backend: the release of the kernel and
-- the abilities of io_uring (csrc/loader_io_uring.cpp), the file system of a file
-- (csrc/instant_tensor/io_context.hpp), the variables of the environment
-- (csrc/instant_tensor/common.hpp), and the backends (csrc/instant_tensor/types.hpp, csrc/main.cpp).
-- A string is its bytes, without the null byte at its end.
pub mod Kernel
mod Tests
use Prim.Native.String.{String}
use instant_tensor.Base.{
  ℕ, zero, suc, ◌+◌, ◌-◌, ◌*◌, ◌^◌, min, ◌≡◌, Bool, true, false, ◌&&◌, ◌||◌, ◌==◌, leb, ltb,
  if◌then◌else◌, Option, none, some, List, [], ◌∷◌,
}
use instant_tensor.Base.Int.{ℤ, pos, negsuc, ltb_ℤ, leb_ℤ}
use instant_tensor.Types.{Backend, aio, aio_buffered, uring, uring_buffered, cufile, mmap}

abbrev pub Bytes : Type 0
Bytes = List ℕ

-- strtol of the C library in base 10: the value and what is behind it, or `none` where it finds no
-- number, and leaves `end` at the start.
abbrev pub is_digit : ℕ → Bool
is_digit c = leb 48 c && leb c 57

abbrev pub is_space : ℕ → Bool
is_space c = c == 32 || (leb 9 c && leb c 13)

abbrev pub read_digits : ℕ → Bytes → ℕ × Bytes
read_digits n [] = (n, [])
read_digits n (c ∷ s) =
    let more = read_digits (n * 10 + (c - 48)) s in if is_digit c then more else (n, c ∷ s)

abbrev pub read_number : Bytes → Option (ℕ × Bytes)
read_number [] = none
read_number (c ∷ s) = if is_digit c then some (read_digits 0 (c ∷ s)) else none

abbrev pub skip_spaces : Bytes → Bytes
skip_spaces [] = []
skip_spaces (c ∷ s) = let rest = skip_spaces s in if is_space c then rest else c ∷ s

-- The value is clamped to a long of 64 bits.
abbrev pub to_long : Option (ℕ × Bytes) → Option (ℤ × Bytes)
to_long none = none
to_long (some (n, s)) = some (pos (min n (2 ^ 63 - 1)), s)

abbrev pub to_negative : Option (ℕ × Bytes) → Option (ℤ × Bytes)
to_negative none = none
to_negative (some (zero, s)) = some (pos 0, s)
to_negative (some (suc n, s)) = some (negsuc (min n (2 ^ 63 - 1)), s)

abbrev pub read_signed : Bytes → Option (ℤ × Bytes)
read_signed [] = none
read_signed (c ∷ s) =
    if c == 45
    then to_negative (read_number s)
    else if c == 43
    then to_long (read_number s)
    else to_long (read_number (c ∷ s))

abbrev pub strtol : Bytes → Option (ℤ × Bytes)
strtol s = read_signed (skip_spaces s)

abbrev pub is_recent : ℤ → Option (ℤ × Bytes) → Bool
is_recent major none = false
is_recent major (some (minor, rest)) =
    ltb_ℤ (pos 5) major || ((leb_ℤ major (pos 5) && leb_ℤ (pos 5) major) && leb_ℤ (pos 15) minor)

abbrev pub after_major : Option (ℤ × Bytes) → Bool
after_major none = false
after_major (some (major, [])) = false
after_major (some (major, c ∷ s)) = if c == 46 then is_recent major (strtol s) else false

-- `none` is a failed uname.
unfoldable pub kernel_at_least_5_15 : Option Bytes → Bool
kernel_at_least_5_15 none = false
kernel_at_least_5_15 (some release) = after_major (strtol release)

-- What the kernel answers for a ring of two entries: of io_uring_queue_init_params and
-- io_uring_get_probe_ring, whether they succeed; of the operations, whether they are supported; of
-- /dev/null and the registrations, what they return.
pub record Ring : Type 0 where
  pub queue_init_params : ℤ
  pub probe : Option (Bool × Bool)
  pub open_dev_null : ℤ
  pub register_files : ℤ
  pub register_buffers : ℤ

abbrev pub is_negative : ℤ → Bool
is_negative (pos n) = false
is_negative (negsuc n) = true

abbrev pub is_zero : ℤ → Bool
is_zero (pos n) = n == 0
is_zero (negsuc n) = false

abbrev pub probe_supports_fixed_buffer_read : Ring → Bool
probe_supports_fixed_buffer_read ring = elim ring.probe [
  | none ↦ false
  | some (read, read_fixed) ↦ read && read_fixed
]

abbrev pub supports_fixed_file_registration : Ring → Bool
supports_fixed_file_registration ring =
    if is_negative ring.open_dev_null then false else is_zero ring.register_files

abbrev pub supports_fixed_buffer_registration : Ring → Bool
supports_fixed_buffer_registration ring = is_zero ring.register_buffers

unfoldable pub uring_available : Option Bytes → Ring → Bool
uring_available release ring =
    if kernel_at_least_5_15 release
    then (if is_negative ring.queue_init_params
        then false
        else (probe_supports_fixed_buffer_read ring && supports_fixed_file_registration ring)
          && supports_fixed_buffer_registration ring)
    else false

-- An int as a Backend. Any int is a value of the enum; `none` are those without a name.
abbrev pub backend_of : ℕ → Option Backend
backend_of zero = some aio
backend_of (suc zero) = some aio_buffered
backend_of (suc (suc zero)) = some uring
backend_of (suc (suc (suc zero))) = some uring_buffered
backend_of (suc (suc (suc (suc zero)))) = some cufile
backend_of (suc (suc (suc (suc (suc zero))))) = some mmap
backend_of (suc (suc (suc (suc (suc (suc n)))))) = none

abbrev pub backend_number : Backend → ℕ
backend_number aio = 0
backend_number aio_buffered = 1
backend_number uring = 2
backend_number uring_buffered = 3
backend_number cufile = 4
backend_number mmap = 5

unfoldable pub is_valid_backend : ℕ → Bool
is_valid_backend backend = leb (backend_number aio) backend && leb backend (backend_number mmap)

unfoldable pub backend_to_string : ℕ → String
backend_to_string backend = elim (backend_of backend) [
  | none ↦ "UNKNOWN"
  | some aio ↦ "AIO"
  | some aio_buffered ↦ "AIO_BUFFERED"
  | some uring ↦ "URING"
  | some uring_buffered ↦ "URING_BUFFERED"
  | some cufile ↦ "CUFILE"
  | some mmap ↦ "MMAP"
]

-- `cufile_available` is the answer of the function of that name.
unfoldable pub backend_available : Bool → Option Bytes → Ring → ℕ → Bool
backend_available cufile_available release ring backend =
    if backend == backend_number cufile
    then cufile_available
    else if backend == backend_number uring || backend == backend_number uring_buffered
    then uring_available release ring
    else true

-- `statfs` gives the type of the file system. The numbers are TMPFS_MAGIC and RAMFS_MAGIC.
unfoldable pub file_in_memory : (Bytes → Option ℕ) → Bytes → Bool
file_in_memory statfs filename = elim (statfs filename) [
  | none ↦ false
  | some f_type ↦ f_type == 16914836 || f_type == 2240043254
]

abbrev pub same_bytes : Bytes → Bytes → Bool
same_bytes [] [] = true
same_bytes [] (c ∷ s) = false
same_bytes (b ∷ r) [] = false
same_bytes (b ∷ r) (c ∷ s) = b == c && same_bytes r s

-- get_env(name).value_or("0") == "1"
unfoldable pub env_is_set : Option Bytes → Bool
env_is_set none = same_bytes (48 ∷ []) (49 ∷ [])
env_is_set (some value) = same_bytes value (49 ∷ [])
