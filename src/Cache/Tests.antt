-- ===== src/Cache/Tests.antt =====
-- Two buffers in the cache, and the theorems on them.
use instant_tensor.Base.{ℕ, ◌≡◌, ◌≤◌, List, [], ◌∷◌, ◌++◌, ◌⊎◌}
use instant_tensor.Types.{HostBufferCacheEntry}
use instant_tensor.Cache.{get, no_entry, AllSmaller, get_lem}

abbrev entry_of : ℕ → ℕ → HostBufferCacheEntry
entry_of ptr size = record { ptr = ptr; size = size }

abbrev two_buffers : List HostBufferCacheEntry
two_buffers = entry_of 1 10 ∷ entry_of 2 20 ∷ []

get_example :
    ((front : List HostBufferCacheEntry) × (back : List HostBufferCacheEntry)
      × (entry : HostBufferCacheEntry) × (two_buffers ≡ front ++ entry ∷ back)
      × (get two_buffers 15 ≡ (entry, front ++ back))
      × (15 ≤ entry.size)
      × AllSmaller 15 front)
    ⊎ ((get two_buffers 15 ≡ (no_entry, two_buffers)) × AllSmaller 15 two_buffers)
get_example = get_lem two_buffers 15
