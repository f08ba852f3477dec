-- ===== src/Binding.antt =====
-- The CUDA, NCCL and cuFile bindings of csrc/instant_tensor/dl_binding: the search for a library that
-- is loaded, the pointers to its functions, and `init`, which does both once. A string is its bytes.
-- The process is a parameter: its lines of /proc/self/maps, dlopen and dlsym.
pub mod Wrappers
pub mod Find
pub mod Again
mod Tests
use Prim.Native.String.{String}
use instant_tensor.Base.{
  ℕ, zero, suc, ◌≡◌, Bool, true, false, ◌&&◌, ◌||◌, ◌==◌, if◌then◌else◌, Option, none, some, List,
  [], ◌∷◌, ◌++◌, length, get_elem?, Result, ok, err,
}

abbrev pub Bytes : Type 0
Bytes = List ℕ

pub record Linker : Type 0 where
  pub maps : List Bytes
  pub dlopen : Bytes → Option ℕ
  pub dlsym : ℕ → String → Option ℕ

abbrev pub is_prefix : Bytes → Bytes → Bool
is_prefix [] line = true
is_prefix (b ∷ bs) [] = false
is_prefix (b ∷ bs) (c ∷ line) = b == c && is_prefix bs line

-- line.substr(line.find(what)), and `none` for npos.
abbrev pub from_first : Bytes → Bytes → Option Bytes
from_first what [] = if is_prefix what [] then some [] else none
from_first what (c ∷ line) =
    let rest = from_first what line in if is_prefix what (c ∷ line) then some (c ∷ line) else rest

abbrev pub is_blank : ℕ → Bool
is_blank c = c == 32 || c == 9

-- The loop of pop_back: the blanks at the end go.
abbrev pub trimmed : Bytes → Bytes
trimmed [] = []
trimmed (c ∷ line) = elim (trimmed line) [
  | [] ↦ if is_blank c then [] else c ∷ []
  | d ∷ rest ↦ c ∷ d ∷ rest
]

-- "lib" + prefix + ".so"
abbrev pub so_prefix : Bytes → Bytes
so_prefix name = 108 ∷ 105 ∷ 98 ∷ name ++ 46 ∷ 115 ∷ 111 ∷ []

-- The handle that dlopen gives for a path, if it names the library.
abbrev pub dlopen_named : Linker → Bytes → Option Bytes → Option ℕ
dlopen_named linker path none = none
dlopen_named linker path (some found) = linker.dlopen (trimmed path)

abbrev pub dlopen_path : Linker → Bytes → Option Bytes → Option ℕ
dlopen_path linker name none = none
dlopen_path linker name (some path) = dlopen_named linker path (from_first (so_prefix name) path)

-- What the loop does with a line.
unfoldable pub open_line : Linker → Bytes → Bytes → Option ℕ
open_line linker name line = dlopen_path linker name (from_first (47 ∷ []) line)

unfoldable pub find_in : Linker → Bytes → List Bytes → Option ℕ
find_in linker name [] = none
find_in linker name (line ∷ lines) = elim (open_line linker name line) [
  | some handle ↦ some handle
  | none ↦ find_in linker name lines
]

unfoldable pub find_loaded_so : Linker → Bytes → Option ℕ
find_loaded_so linker name = find_in linker name linker.maps

-- resolve, by the names in order; the symbol must not be null.
unfoldable pub resolve : Linker → ℕ → List String → Option ℕ
resolve linker handle [] = none
resolve linker handle (name ∷ names) = elim (linker.dlsym handle name) [
  | some sym ↦ some sym
  | none ↦ resolve linker handle names
]

-- `lib_handle`: null, the mark 0x1 of a library that was not found, or a handle.
pub data LibHandle : Type 0 where
  null not_found : LibHandle
  loaded : ℕ → LibHandle

-- The variables of a binding. `pointers` are the function pointers that are set, in the order of the
-- declarations; the others are null.
pub record Binding : Type 0 where
  pub lib_handle : LibHandle
  pub is_rocm : Bool
  pub pointers : List ℕ

abbrev pub new_binding : Binding
new_binding = record { lib_handle = null; is_rocm = false; pointers = [] }

-- What the three `init` differ in: the two names to look for, and those of the functions.
pub record Library : Type 0 where
  pub first_name : Bytes
  pub second_name : Bytes
  pub functions : List (List String)

pub data BindingError : Type 0 where
  unresolved : List String → BindingError

-- The assignments of the function pointers, in order, up to the first that throws.
unfoldable pub resolve_all :
    Linker → ℕ → List (List String) → List ℕ → Result BindingError Bool × List ℕ
resolve_all linker handle [] pointers = (ok true, pointers)
resolve_all linker handle (names ∷ functions) pointers = elim (resolve linker handle names) [
  | none ↦ (err (unresolved names), pointers)
  | some sym ↦ resolve_all linker handle functions (pointers ++ sym ∷ [])
]

-- The library that is found, and whether it is the second.
unfoldable pub find_library : Linker → Library → Option (ℕ × Bool)
find_library linker library = elim (find_loaded_so linker library.first_name) [
  | some handle ↦ some (handle, false)
  | none ↦ elim (find_loaded_so linker library.second_name) [
    | some handle ↦ some (handle, true)
    | none ↦ none
  ]
]

unfoldable pub bind :
    Linker → Library → Binding → Option (ℕ × Bool) → Result BindingError Bool × Binding
bind linker library b none = (ok false, record b { lib_handle = not_found })
bind linker library b (some (handle, second)) =
    let resolved = resolve_all linker handle library.functions [] in
    (
      resolved.0,
      record b { lib_handle = loaded handle; is_rocm = b.is_rocm || second; pointers = resolved.1 },
    )

unfoldable pub init_by : LibHandle → Linker → Library → Binding → Result BindingError Bool × Binding
init_by null linker library b = bind linker library b (find_library linker library)
init_by not_found linker library b = (ok false, b)
init_by (loaded handle) linker library b = (ok true, b)

unfoldable pub init : Linker → Library → Binding → Result BindingError Bool × Binding
init linker library b = init_by b.lib_handle linker library b

-- cudart, and amdhip64 for ROCm.
abbrev pub cuda_library : Library
cuda_library = record {
  first_name = 99 ∷ 117 ∷ 100 ∷ 97 ∷ 114 ∷ 116 ∷ [];
  second_name = 97 ∷ 109 ∷ 100 ∷ 104 ∷ 105 ∷ 112 ∷ 54 ∷ 52 ∷ [];
  functions =
      ("cudaMalloc" ∷ "hipMalloc" ∷ [])
      ∷ ("cudaFree" ∷ "hipFree" ∷ [])
      ∷ ("cudaSetDevice" ∷ "hipSetDevice" ∷ [])
      ∷ ("cudaStreamCreateWithFlags" ∷ "hipStreamCreateWithFlags" ∷ [])
      ∷ ("cudaStreamDestroy" ∷ "hipStreamDestroy" ∷ [])
      ∷ ("cudaMemcpyAsync" ∷ "hipMemcpyAsync" ∷ [])
      ∷ ("cudaEventCreateWithFlags" ∷ "hipEventCreateWithFlags" ∷ [])
      ∷ ("cudaEventRecord" ∷ "hipEventRecord" ∷ [])
      ∷ ("cudaEventSynchronize" ∷ "hipEventSynchronize" ∷ [])
      ∷ ("cudaStreamWaitEvent" ∷ "hipStreamWaitEvent" ∷ [])
      ∷ ("cudaHostRegister" ∷ "hipHostRegister" ∷ [])
      ∷ ("cudaHostUnregister" ∷ "hipHostUnregister" ∷ [])
      ∷ ("cudaGetErrorString" ∷ "hipGetErrorString" ∷ [])
      ∷ [];
}

-- nccl, and rccl, which has the same names.
abbrev pub nccl_library : Library
nccl_library = record {
  first_name = 110 ∷ 99 ∷ 99 ∷ 108 ∷ [];
  second_name = 114 ∷ 99 ∷ 99 ∷ 108 ∷ [];
  functions =
      ("ncclAllGather" ∷ [])
      ∷ ("ncclCommUserRank" ∷ [])
      ∷ ("ncclCommCount" ∷ [])
      ∷ ("ncclGetErrorString" ∷ [])
      ∷ [];
}

-- cufile, and hipfile.
abbrev pub cufile_library : Library
cufile_library = record {
  first_name = 99 ∷ 117 ∷ 102 ∷ 105 ∷ 108 ∷ 101 ∷ [];
  second_name = 104 ∷ 105 ∷ 112 ∷ 102 ∷ 105 ∷ 108 ∷ 101 ∷ [];
  functions =
      ("cuFileDriverOpen" ∷ "hipFileDriverOpen" ∷ [])
      ∷ ("cuFileDriverClose" ∷ "hipFileDriverClose" ∷ [])
      ∷ ("cuFileHandleRegister" ∷ "hipFileHandleRegister" ∷ [])
      ∷ ("cuFileHandleDeregister" ∷ "hipFileHandleDeregister" ∷ [])
      ∷ ("cuFileBufRegister" ∷ "hipFileBufRegister" ∷ [])
      ∷ ("cuFileBufDeregister" ∷ "hipFileBufDeregister" ∷ [])
      ∷ ("cuFileRead" ∷ "hipFileRead" ∷ [])
      ∷ [];
}

unfoldable pub cuda_init : Linker → Binding → Result BindingError Bool × Binding
cuda_init linker b = init linker cuda_library b

unfoldable pub nccl_init : Linker → Binding → Result BindingError Bool × Binding
nccl_init linker b = init linker nccl_library b

unfoldable pub cufile_init : Linker → Binding → Result BindingError Bool × Binding
cufile_init linker b = init linker cufile_library b
