-- ===== src/Loader/Open/Reuse.antt =====
-- A host buffer that a loader leaves in the cache when it closes is the next one's.
use instant_tensor.Base.{
  ℕ, ◌≤◌, ◌≡◌, ◌≢◌, refl, sym, ap, inl, inr, ◌∙◌, false, true, ◌==◌, Result, ok, err, arith,
}
use instant_tensor.Size.{mul_size}
use instant_tensor.Types.{HostBufferCacheEntry}
use instant_tensor.Cache.{get, put, AllSmaller, get-put}
use instant_tensor.Loader.{Loader}
use instant_tensor.Loader.System.{System, RunError, Process}
use instant_tensor.Loader.Open.Closed.{close_loader_lem}
use instant_tensor.Loader.Open.{close_loader, take_host_buffer, host_buffer_entry_of}

close_loader-cached :
    (sys : System) (p p' : Process)
    → close_loader sys p ≡ ok p'
    → sys.cache_buffer ≡ true
    → p.loader.need_host_buffer ≡ true
    → p'.cached_host_buffers ≡ put p.cached_host_buffers p.loader.host_buffer_entry
close_loader-cached sys p p' closes caches needs = elim (close_loader_lem sys p) [
  | inl (q, e, fine, after) ↦
      ap (λ x. Process.cached_host_buffers x) (same_ok (sym closes ∙ e))
      ∙ after.cached
      ∙ rw (needs, caches) refl
  | inr (x, e, fails) ↦ absurd (ok_err (sym closes ∙ e))
]
  where
    same_ok : {q r : Process} → ◌≡◌ {A = Result RunError Process} (ok q) (ok r) → q ≡ r
    same_ok e = cc e

    ok_err : {q : Process} {x : RunError} → ◌≡◌ {A = Result RunError Process} (ok q) (err x) → ⊥
    ok_err e = cc e

host_buffer_entry_of-found :
    (sys : System) (l : Loader) (size : ℕ) (found : HostBufferCacheEntry)
    → found.ptr ≢ 0
    → host_buffer_entry_of sys l size found ≡ ok found
unfolding host_buffer_entry_of
host_buffer_entry_of-found sys l size found h = rw (is_given found.ptr h) refl
  where
    is_given : (n : ℕ) → n ≢ 0 → (n == 0) ≡ false
    is_given n h = ground arith

-- With buffers cached, when closing a loader with a host buffer returns, the next loader that needs no more
-- than that buffer holds takes it, if no other buffer in the cache is large enough: whatever the
-- system does, nothing is allocated or registered, and the cache is as it was before the close.
pub take_host_buffer-close :
    (sys : System) (p p' q : Process)
    → close_loader sys p ≡ ok p'
    → sys.cache_buffer ≡ true
    → p.loader.need_host_buffer ≡ true
    → p.loader.host_buffer_entry.ptr ≢ 0
    → let size = mul_size q.loader.io_depth q.loader.rank_chunk_size in
      AllSmaller size p.cached_host_buffers
      → size ≤ p.loader.host_buffer_entry.size
      → take_host_buffer sys (record q { cached_host_buffers = p'.cached_host_buffers })
        ≡ ok (record q {
          loader = record q.loader {
            host_buffer_entry = p.loader.host_buffer_entry;
            host_buffer = p.loader.host_buffer_entry.ptr;
          };
          cached_host_buffers = p.cached_host_buffers;
        })
unfolding take_host_buffer
take_host_buffer-close sys p p' q closes caches needs given small fits =
    let entry = p.loader.host_buffer_entry in
    let size = mul_size q.loader.io_depth q.loader.rank_chunk_size in
    let found : get p'.cached_host_buffers size ≡ (entry, p.cached_host_buffers) =
      ap (λ cs. get cs size) (close_loader-cached sys p p' closes caches needs)
      ∙ get-put p.cached_host_buffers entry size small fits in
    rw (found, host_buffer_entry_of-found sys q.loader size entry given) refl
