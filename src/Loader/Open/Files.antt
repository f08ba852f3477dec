-- ===== src/Loader/Open/Files.antt =====
-- Opening files when the operating system obliges, and which members that sets.
use Prim.Native.String.{String}
use instant_tensor.Base.{
  ℕ, ◌+◌, ◌≡◌, refl, ap, ◌∙◌, Bool, true, false, some, List, [], ◌∷◌, ◌++◌, map, length,
  length-append, if◌then◌else◌, ◌>>=◌, Result, ok, arith,
}
use instant_tensor.Types.{Backend, aio, aio_buffered, uring, uring_buffered, cufile, mmap, FileInfo}
use instant_tensor.Size.{mul_size}
use instant_tensor.Loader.{Loader}
use instant_tensor.Loader.System.{System, RunError}
use instant_tensor.Loader.Open.{
  open_sized, open_file_inmem, open_file_cufile, open_file_async, open_kind, open_one, open_files,
  open_file, initialize_aio_context, initialize_uring_context, is_aio, is_uring, is_direct,
}

-- Every call that opening makes succeeds.
pub record Obliges (sys : System) : Type 0 where
  pub opens : (path : String) (direct : Bool) → (fd : ℕ) × (sys.open_path path direct ≡ some fd)
  pub stats : (fd : ℕ) → (size : ℕ) × (sys.fstat fd ≡ some size)
  pub maps : (size fd : ℕ) → (ptr : ℕ) × (sys.mmap size fd ≡ some ptr)
  pub registers : (ptr size : ℕ) → sys.host_register ptr size ≡ true
  pub handles : (fd : ℕ) → sys.handle_register fd ≡ true
  pub sets_up : (n : ℕ) → sys.io_setup n ≡ true
  pub queues : (n : ℕ) → sys.queue_init n ≡ true
  pub registers_files : (fds : List ℕ) → sys.register_files fds ≡ true
  pub registers_buffers : (pieces : List (ℕ × ℕ)) → sys.register_buffers pieces ≡ true
  pub mallocs : (size : ℕ) → (ptr : ℕ) × (sys.cuda_malloc size ≡ some ptr)
  pub allocates : (alignment size : ℕ) → (ptr : ℕ) × (sys.aligned_alloc alignment size ≡ some ptr)
  pub registers_device : (ptr size : ℕ) → sys.device_register ptr size ≡ true
  pub creates_streams : (n : ℕ) → (stream : ℕ) × (sys.stream_create n ≡ some stream)
  pub creates_events : (n : ℕ) → sys.events_create n ≡ true

-- The members that opening files sets.
abbrev pub flagged : Loader → List FileInfo → Bool → Bool → Bool → Loader
flagged l files host workers cuda = record l {
  file_info = files;
  need_host_buffer = host;
  need_worker_threads = workers;
  need_cuda_thread = cuda;
}

pub if-ok :
    (b : Bool) (m : Result RunError (Unit {0})) → m ≡ ok tt → (if b then m else ok tt) ≡ ok tt
if-ok true m e = e
if-ok false m e = refl

module _ (sys : System) (obliges : Obliges sys) where
  open_sized_lem :
      (direct : Bool) (f : FileInfo) → (g : FileInfo) × (open_sized sys direct f ≡ ok g)
  unfolding open_sized
  open_sized_lem direct f =
      let (fd, e) = obliges.opens f.filename direct in
      let (size, e') = obliges.stats fd in (record f { fd = fd; size = size }, rw (e, e') refl)

  abbrev OpenedOne : Loader → Result RunError (Loader × FileInfo) → Type 0
  OpenedOne l m =
      (host : Bool) × (workers : Bool) × (cuda : Bool) × (g : FileInfo) × (m
        ≡ ok (flagged l l.file_info host workers cuda, g))

  if-OpenedOne :
      (l : Loader) (b : Bool) (m m' : Result RunError (Loader × FileInfo))
      → OpenedOne l m
      → OpenedOne l m'
      → OpenedOne l (if b then m else m')
  if-OpenedOne l true m m' h k = h
  if-OpenedOne l false m m' h k = k

  inmem_lem : (l : Loader) (f : FileInfo) → OpenedOne l (open_file_inmem sys l f)
  unfolding open_file_inmem
  inmem_lem l f =
      let (g, e) = open_sized_lem false f in
      let (ptr, e') = obliges.maps g.size g.fd in
      rw (e, e', obliges.registers ptr g.size)
        (if-OpenedOne l l.use_internal_memory_register _ _
          (
            l.need_host_buffer,
            l.need_worker_threads,
            l.need_cuda_thread,
            record g { mapped_memory = ptr },
            refl,
          )
          (true, true, true, record g { mapped_memory = ptr }, refl))

  cufile_lem : (l : Loader) (f : FileInfo) → OpenedOne l (open_file_cufile sys l f)
  unfolding open_file_cufile
  cufile_lem l f =
      let (g, e) = open_sized_lem true f in
      (l.need_host_buffer, true, true, g, rw (e, obliges.handles g.fd) refl)

  async_lem : (l : Loader) (f : FileInfo) → OpenedOne l (open_file_async sys l f)
  unfolding open_file_async
  async_lem l f =
      let (g, e) = open_sized_lem (is_direct l.backend) f in
      (true, l.need_worker_threads, true, g, rw e refl)

  open_kind_lem : (b : Backend) (l : Loader) (f : FileInfo) → OpenedOne l (open_kind b sys l f)
  unfolding open_kind
  open_kind_lem mmap l f = inmem_lem l f
  open_kind_lem cufile l f = cufile_lem l f
  open_kind_lem uring l f = async_lem l f
  open_kind_lem uring_buffered l f = async_lem l f
  open_kind_lem aio l f = async_lem l f
  open_kind_lem aio_buffered l f = async_lem l f

  abbrev pub OpenedAll : Loader → ℕ → Result RunError Loader → Type 0
  OpenedAll l count m =
      (host : Bool) × (workers : Bool) × (cuda : Bool) × (files : List FileInfo) × (m
        ≡ ok (flagged l files host workers cuda))
      × (length files ≡ count)

  open_files_lem :
      (l : Loader) (done rest : List FileInfo)
      → OpenedAll l (length done + length rest) (open_files sys l done rest)
  unfolding open_files open_one
  open_files_lem l done [] =
      (l.need_host_buffer, l.need_worker_threads, l.need_cuda_thread, done, refl, omega arith)
  open_files_lem l done (f ∷ rest) =
      let (host, workers, cuda, g, e) =
        open_kind_lem l.backend l (record f { in_memory = sys.file_in_memory f.filename }) in
      let (host', workers', cuda', files, e', count) =
        open_files_lem (flagged l l.file_info host workers cuda) (done ++ g ∷ []) rest in
      (
        host',
        workers',
        cuda',
        files,
        ap (λ r. r >>= λ opened. open_files sys opened.0 (done ++ opened.1 ∷ []) rest) e ∙ e',
        omega (arith, count, length-append done (g ∷ [])),
      )

  aio_context_lem : (l : Loader) → initialize_aio_context sys l ≡ ok tt
  unfolding initialize_aio_context
  aio_context_lem l = rw (obliges.sets_up (mul_size l.io_depth l.num_threads)) refl

  uring_context_lem : (l : Loader) → initialize_uring_context sys l ≡ ok tt
  unfolding initialize_uring_context
  uring_context_lem l =
      rw
        (
          obliges.queues (mul_size l.io_depth l.num_threads),
          obliges.registers_files (map (λ f. FileInfo.fd f) l.file_info),
        )
        refl

  pub open_file_lem : (l : Loader) → OpenedAll l (length l.file_info) (open_file sys l)
  unfolding open_file
  open_file_lem l =
      let (host, workers, cuda, files, e, count) = open_files_lem l [] l.file_info in
      let opened = flagged l files host workers cuda in
      (
        host,
        workers,
        cuda,
        files,
        rw
            (
              e,
              if-ok (is_aio l.backend) (initialize_aio_context sys opened) (aio_context_lem opened),
              if-ok (is_uring l.backend) (initialize_uring_context sys opened)
                  (uring_context_lem opened),
            )
            refl,
        omega (arith, count),
      )
