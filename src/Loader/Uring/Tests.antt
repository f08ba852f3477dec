-- ===== src/Loader/Uring/Tests.antt =====
-- A host buffer of a gibibyte and 100 bytes at address 4096.
use instant_tensor.Base.{ℕ, ◌+◌, ◌*◌, ◌≤◌, ◌<◌, ◌≡◌, ◌⊎◌, some, none, get_elem?, arith}
use instant_tensor.Loader.Uring.{host_buffer_pieces, buffer_index, buffer_index_lem}

buffer_index_example :
    ((i : ℕ) × (from : ℕ) × (count : ℕ) × (buffer_index 4096 1073745910 20 ≡ some i)
      × (get_elem? (host_buffer_pieces 1073741924 4096 1073741924) i ≡ some (from, count))
      × (from ≤ 1073745910)
      × (1073745910 + 20 ≤ from + count))
    ⊎ ((buffer_index 4096 1073745910 20 ≡ none)
        × ((k : ℕ) × (1073745910 < 4096 + k * 1073741824)
            × (4096 + k * 1073741824 < 1073745910 + 20)))
buffer_index_example =
    buffer_index_lem 4096 1073741924 1073745910 20 (omega arith) (omega arith) (omega arith)
      (omega arith)
