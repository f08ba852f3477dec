-- ===== src/Loader/Open/Buffers.antt =====
-- The buffers when the calls succeed: which members `init_buffer` sets.
use instant_tensor.Base.{
  ℕ, ◌≡◌, refl, Bool, true, false, if◌then◌else◌, List, Result, ok, ◌==◌, guard,
}
use instant_tensor.Size.{mul_size}
use instant_tensor.Types.{HostBufferCacheEntry}
use instant_tensor.Cache.{get}
use instant_tensor.Loader.{Loader}
use instant_tensor.Loader.Sizes.{set_sizes}
use instant_tensor.Loader.Uring.{host_buffer_pieces}
use instant_tensor.Loader.System.{System, RunError, Process, cufile_failed}
use instant_tensor.Loader.Open.{
  take_host_buffer, host_buffer_entry_of, init_buffer, register_host_buffer_uring, is_cufile,
  is_uring,
}
use instant_tensor.Loader.Open.Files.{Obliges, if-ok}

abbrev pub buffered :
    Process → Loader → ℕ → HostBufferCacheEntry → ℕ → List HostBufferCacheEntry → Process
buffered p l device entry host kept = record p {
  loader = record l { device_buffer = device; host_buffer_entry = entry; host_buffer = host };
  cached_host_buffers = kept;
}

if-entry :
    (b : Bool) (e e' : HostBufferCacheEntry)
    → (entry : HostBufferCacheEntry) × (◌≡◌ {A = Result RunError HostBufferCacheEntry}
        (if b then ok e else ok e')
        (ok entry))
if-entry true e e' = (e, refl)
if-entry false e e' = (e', refl)

module _ (sys : System) (obliges : Obliges sys) where
  entry_lem :
      (l : Loader) (size : ℕ) (found : HostBufferCacheEntry)
      → (entry : HostBufferCacheEntry) × (host_buffer_entry_of sys l size found ≡ ok entry)
  unfolding host_buffer_entry_of
  entry_lem l size found =
      let (ptr, e) = obliges.allocates l.thread_alignment size in
      rw (e, obliges.registers ptr size)
        (if-entry (found.ptr == 0) (record { ptr = ptr; size = size }) found)

  -- The host buffer is taken if it is needed.
  abbrev Taken : Process → Result RunError Process → Type 0
  Taken p m =
      (entry : HostBufferCacheEntry) × (host : ℕ) × (kept : List HostBufferCacheEntry) × (m
        ≡ ok (buffered p p.loader p.loader.device_buffer entry host kept))

  take_lem : (p : Process) → Taken p (take_host_buffer sys p)
  unfolding take_host_buffer
  take_lem p =
      let l = p.loader in
      let size = mul_size l.io_depth l.rank_chunk_size in
      let found = get p.cached_host_buffers size in
      let (entry, e) = entry_lem l size found.0 in (entry, entry.ptr, found.1, rw e refl)

  if-Taken :
      (p : Process) (b : Bool) (m : Result RunError Process)
      → Taken p m
      → Taken p (if b then m else ok p)
  if-Taken p true m h = h
  if-Taken p false m h =
      (p.loader.host_buffer_entry, p.loader.host_buffer, p.cached_host_buffers, refl)

  register_lem : (l : Loader) → register_host_buffer_uring sys l ≡ ok tt
  unfolding register_host_buffer_uring
  register_lem l =
      let e = l.host_buffer_entry in
      rw (obliges.registers_buffers (host_buffer_pieces e.size e.ptr e.size)) refl

  pub init_buffer_lem :
      (p : Process)
      → (device : ℕ) × (entry : HostBufferCacheEntry) × (host : ℕ) × (kept : List
          HostBufferCacheEntry)
        × (init_buffer sys p
            ≡ ok (buffered p (set_sizes sys.page_size p.loader) device entry host kept))
  unfolding init_buffer
  init_buffer_lem p =
      let l = set_sizes sys.page_size p.loader in
      let (device, e) = obliges.mallocs l.buffer_size in
      let l₁ = record l { device_buffer = device } in
      let p₁ = record p { loader = l₁ } in
      let (entry, host, kept, e') =
        if-Taken p₁ l.need_host_buffer (take_host_buffer sys p₁) (take_lem p₁) in
      let done = buffered p l device entry host kept in
      (
        device,
        entry,
        host,
        kept,
        rw
            (
              e,
              if-ok (is_cufile l.backend)
                  (guard (sys.device_register device l.buffer_size) cufile_failed)
                  (rw (obliges.registers_device device l.buffer_size) refl),
              e',
              if-ok (is_uring l.backend) (register_host_buffer_uring sys done.loader)
                  (register_lem done.loader),
            )
            refl,
      )
