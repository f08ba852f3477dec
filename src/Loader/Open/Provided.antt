-- ===== src/Loader/Open/Provided.antt =====
-- The host buffer that init_buffer of csrc/loader_common.cpp takes from the cache or allocates
-- (host_buffer_entry_of of Loader/Open).
use instant_tensor.Base.{
  ℕ, ◌≡◌, ◌≢◌, ◌≤◌, ◌⊎◌, inl, inr, refl, sym, ap, ◌∙◌, Bool, true, false, Bool-cases, ◌==◌,
  Option-cases, some, List, ◌∷◌, ◌++◌, ok, ◌>>=◌, ◌>>◌, guard, or_fail, arith,
}
use instant_tensor.Size.{mul_size}
use instant_tensor.Types.{HostBufferCacheEntry}
use instant_tensor.Cache.{get, get_lem}
use instant_tensor.Loader.{Loader}
use instant_tensor.Loader.System.{System, cuda_failed, host_allocation_failed, Process}
use instant_tensor.Loader.Open.{host_buffer_entry_of}
use instant_tensor.Loader.Open.Needs.{IfOk, if-IfOk}

-- An entry that is taken out of the cache, which leaves the others.
abbrev pub IsReused :
    List HostBufferCacheEntry → List HostBufferCacheEntry → HostBufferCacheEntry → Type 0
IsReused cached kept entry =
    (front : List HostBufferCacheEntry) × (back : List HostBufferCacheEntry) × (cached
      ≡ front ++ entry ∷ back)
    × (kept ≡ front ++ back)
    × (entry.ptr ≢ 0)

-- An entry for memory that the system gave and CUDA registered.
abbrev pub IsAllocated : System → ℕ → ℕ → HostBufferCacheEntry → Type 0
IsAllocated sys alignment size entry =
    (sys.aligned_alloc alignment size ≡ some entry.ptr) × (sys.host_register entry.ptr size ≡ true)

-- The host buffer holds a window for each chunk in flight, and is one of the cache or a new one.
abbrev pub IsBuffered : System → List HostBufferCacheEntry → Process → Type 0
IsBuffered sys cached p =
    let l = p.loader in
    let size = mul_size l.io_depth l.rank_chunk_size in
    (l.host_buffer ≡ l.host_buffer_entry.ptr)
    × (size ≤ l.host_buffer_entry.size)
    × (IsReused cached p.cached_host_buffers l.host_buffer_entry
        ⊎ IsAllocated sys l.thread_alignment size l.host_buffer_entry)

-- What `host_buffer_entry_of` returns for what `get` returned.
abbrev pub IsProvided :
    System
    → ℕ
    → ℕ
    → List HostBufferCacheEntry
    → List HostBufferCacheEntry
    → HostBufferCacheEntry
    → Type 0
IsProvided sys alignment size cached kept entry =
    (size ≤ entry.size) × (IsReused cached kept entry ⊎ IsAllocated sys alignment size entry)

allocated :
    (sys : System) (alignment size : ℕ) (cached kept : List HostBufferCacheEntry)
    → IfOk (IsProvided sys alignment size cached kept) (do
      ptr ← or_fail (sys.aligned_alloc alignment size) host_allocation_failed
      guard (sys.host_register ptr size) cuda_failed
      ok (record { ptr = ptr; size = size }))
allocated sys alignment size cached kept = elim (Option-cases (sys.aligned_alloc alignment size)) [
  | inl none_left ↦ rw none_left tt
  | inr (ptr, e) ↦ elim (Bool-cases (sys.host_register ptr size)) [
    | inl registered ↦ rw (e, registered) (omega arith, inr (e, registered))
    | inr refused ↦ rw (e, refused) tt
  ]
]

pub provided :
    (sys : System) (l : Loader) (size : ℕ) (cached : List HostBufferCacheEntry)
    → let found = get cached size in
      IfOk
        (IsProvided sys l.thread_alignment size cached found.1)
        (host_buffer_entry_of sys l size found.0)
unfolding host_buffer_entry_of
provided sys l size cached =
    let found = get cached size in
    if-IfOk (IsProvided sys l.thread_alignment size cached found.1) (found.0.ptr == 0) _
      (ok found.0) (λ e. allocated sys l.thread_alignment size cached found.1)
      (λ given. elim (get_lem cached size) [
        | inl (front, back, entry, split, e, large, all) ↦
            rw e
              (large, inl (front, back, split, refl, apart entry.ptr (sym (ap null_of e) ∙ given)))
        | inr (e, all) ↦ absurd (true_false (sym (ap null_of e) ∙ given))
      ])
  where
    null_of : HostBufferCacheEntry × List HostBufferCacheEntry → Bool
    null_of g = g.0.ptr == 0

    true_false : true ≡ false → ⊥
    true_false e = cc e

    apart : (n : ℕ) → (n == 0) ≡ false → n ≢ 0
    apart n h = ground arith
