-- ===== src/Loader/Open/Needs.antt =====
-- The members that opening sets are those that posting a chunk uses, for every back end.
use instant_tensor.Base.{
  ◌≡◌, refl, sym, subst, ◌∙◌, Bool, true, false, not, if◌then◌else◌, List, [], ◌∷◌, ◌++◌, Result,
  ok, err, ◌>>=◌, guard, or_fail,
}
use instant_tensor.Types.{Backend, aio, aio_buffered, uring, uring_buffered, cufile, mmap, FileInfo}
use instant_tensor.Loader.{Loader}
use instant_tensor.Loader.System.{System, RunError, mmap_failed, cuda_failed, cufile_failed}
use instant_tensor.Loader.Open.{
  open_sized, open_file_inmem, open_file_cufile, open_file_async, open_kind, open_one, open_files,
  open_file, is_aio, is_direct, is_uring, initialize_aio_context, initialize_uring_context,
}

-- What the post functions use: a window of the host buffer, the worker threads, the CUDA thread. The
-- flag is that of registered mappings.
abbrev pub uses_host_buffer : Backend → Bool → Bool
uses_host_buffer mmap register = not register
uses_host_buffer cufile register = false
uses_host_buffer aio register = true
uses_host_buffer aio_buffered register = true
uses_host_buffer uring register = true
uses_host_buffer uring_buffered register = true

abbrev pub uses_workers : Backend → Bool → Bool
uses_workers mmap register = not register
uses_workers cufile register = true
uses_workers aio register = false
uses_workers aio_buffered register = false
uses_workers uring register = false
uses_workers uring_buffered register = false

abbrev pub uses_cuda_thread : Backend → Bool → Bool
uses_cuda_thread mmap register = not register
uses_cuda_thread cufile register = true
uses_cuda_thread aio register = true
uses_cuda_thread aio_buffered register = true
uses_cuda_thread uring register = true
uses_cuda_thread uring_buffered register = true

-- A flag that is set where it is needed.
abbrev pub Covers : Bool → Bool → Type 0
Covers flag needed = needed ≡ true → flag ≡ true

-- The loader of a back end, with the flags that it needs.
abbrev pub IsFlagged : Backend → Bool → Loader → Type 0
IsFlagged backend register l = record {
  backend_is : l.backend ≡ backend;
  register_is : l.use_internal_memory_register ≡ register;
  host : Covers l.need_host_buffer (uses_host_buffer backend register);
  workers : Covers l.need_worker_threads (uses_workers backend register);
  cuda : Covers l.need_cuda_thread (uses_cuda_thread backend register);
}

-- What holds of the value, if there is one.
abbrev pub IfOk {ℓ} : {A : Type ℓ} → (A → Type 0) → Result RunError A → Type 0
IfOk P (ok a) = P a
IfOk P (err e) = Unit

pub bind-IfOk {ℓ κ} :
    {A : Type ℓ} {B : Type κ} (P : A → Type 0) (Q : B → Type 0) (m : Result RunError A)
    (f : A → Result RunError B)
    → IfOk P m
    → ((a : A) → P a → IfOk Q (f a))
    → IfOk Q (m >>= f)
bind-IfOk P Q (ok a) f h k = k a h
bind-IfOk P Q (err e) f h k = tt

pub if-IfOk {ℓ} :
    {A : Type ℓ} (P : A → Type 0) (b : Bool) (m m' : Result RunError A)
    → (b ≡ true → IfOk P m)
    → (b ≡ false → IfOk P m')
    → IfOk P (if b then m else m')
if-IfOk P true m m' h k = h refl
if-IfOk P false m m' h k = k refl

-- A step whose value does not matter.
pub skip-IfOk {ℓ κ} :
    {A : Type ℓ} {B : Type κ} (Q : B → Type 0) (m : Result RunError A) (f : A → Result RunError B)
    → ((a : A) → IfOk Q (f a))
    → IfOk Q (m >>= f)
skip-IfOk Q (ok a) f k = k a
skip-IfOk Q (err e) f k = tt

not-true : (b : Bool) → b ≡ true → not b ≡ true → ⊥
not-true true e f = cc f
not-true false e f = cc e

-- What opening a file leaves, with the file.
abbrev Flagged : Backend → Bool → Loader × FileInfo → Type 0
Flagged backend register opened = IsFlagged backend register opened.0

module _ (sys : System) (register : Bool) where
  inmem_lem :
      (l : Loader) (f : FileInfo)
      → l.backend ≡ mmap
      → l.use_internal_memory_register ≡ register
      → IfOk (Flagged mmap register) (open_file_inmem sys l f)
  unfolding open_file_inmem
  inmem_lem l f b r = skip-IfOk (Flagged mmap register) (open_sized sys false f) _ (λ g.
      skip-IfOk (Flagged mmap register) (or_fail (sys.mmap g.size g.fd) mmap_failed) _ (λ a.
        if-IfOk (Flagged mmap register) l.use_internal_memory_register _ _
          (λ yes.
            skip-IfOk (Flagged mmap register) (guard (sys.host_register a g.size) cuda_failed) _
              (λ u. record {
                backend_is = b;
                register_is = r;
                host = λ need. absurd (not-true register (sym r ∙ yes) need);
                workers = λ need. absurd (not-true register (sym r ∙ yes) need);
                cuda = λ need. absurd (not-true register (sym r ∙ yes) need);
              }))
          (λ no. record {
            backend_is = b;
            register_is = r;
            host = λ need. refl;
            workers = λ need. refl;
            cuda = λ need. refl;
          })))

  cufile_lem :
      (l : Loader) (f : FileInfo)
      → l.backend ≡ cufile
      → l.use_internal_memory_register ≡ register
      → IfOk (Flagged cufile register) (open_file_cufile sys l f)
  unfolding open_file_cufile
  cufile_lem l f b r = skip-IfOk (Flagged cufile register) (open_sized sys true f) _ (λ g.
      skip-IfOk (Flagged cufile register) (guard (sys.handle_register g.fd) cufile_failed) _ (λ u.
        record {
          backend_is = b;
          register_is = r;
          host = λ need. cc need;
          workers = λ need. refl;
          cuda = λ need. refl;
        }))

  -- For a back end without worker threads.
  async_lem :
      (backend : Backend) (l : Loader) (f : FileInfo)
      → uses_workers backend register ≡ false
      → l.backend ≡ backend
      → l.use_internal_memory_register ≡ register
      → IfOk (Flagged backend register) (open_file_async sys l f)
  unfolding open_file_async
  async_lem backend l f none_used b r =
      skip-IfOk (Flagged backend register) (open_sized sys (is_direct l.backend) f) _ (λ g. record {
        backend_is = b;
        register_is = r;
        host = λ need. refl;
        workers = λ need. cc (need, none_used);
        cuda = λ need. refl;
      })

  open_kind_lem :
      (backend : Backend) (l : Loader) (f : FileInfo)
      → l.backend ≡ backend
      → l.use_internal_memory_register ≡ register
      → IfOk (Flagged backend register) (open_kind backend sys l f)
  unfolding open_kind
  open_kind_lem mmap l f b r = inmem_lem l f b r
  open_kind_lem cufile l f b r = cufile_lem l f b r
  open_kind_lem uring l f b r = async_lem uring l f refl b r
  open_kind_lem uring_buffered l f b r = async_lem uring_buffered l f refl b r
  open_kind_lem aio l f b r = async_lem aio l f refl b r
  open_kind_lem aio_buffered l f b r = async_lem aio_buffered l f refl b r

  open_one_lem :
      (backend : Backend) (l : Loader) (f : FileInfo)
      → l.backend ≡ backend
      → l.use_internal_memory_register ≡ register
      → IfOk (Flagged backend register) (open_one sys l f)
  unfolding open_one
  open_one_lem backend l f b r =
      subst
        (λ k.
          IfOk (Flagged backend register)
            (open_kind k sys l (record f { in_memory = sys.file_in_memory f.filename })))
        (sym b)
        (open_kind_lem backend l (record f { in_memory = sys.file_in_memory f.filename }) b r)

  open_rest_lem :
      (backend : Backend) (l : Loader) (done rest : List FileInfo)
      → IsFlagged backend register l
      → IfOk (IsFlagged backend register) (open_files sys l done rest)
  unfolding open_files
  open_rest_lem backend l done [] flagged = record {
    backend_is = flagged.backend_is;
    register_is = flagged.register_is;
    host = flagged.host;
    workers = flagged.workers;
    cuda = flagged.cuda;
  }
  open_rest_lem backend l done (f ∷ rest) flagged =
      bind-IfOk (Flagged backend register) (IsFlagged backend register) (open_one sys l f) _
        (open_one_lem backend l f flagged.backend_is flagged.register_is)
        (λ o h. open_rest_lem backend o.0 (done ++ o.1 ∷ []) rest h)

  -- With a file or more.
  pub open_file-IsFlagged :
      (backend : Backend) (l : Loader) (f : FileInfo) (rest : List FileInfo)
      → l.file_info ≡ f ∷ rest
      → l.backend ≡ backend
      → l.use_internal_memory_register ≡ register
      → IfOk (IsFlagged backend register) (open_file sys l)
  unfolding open_file open_files
  open_file-IsFlagged backend l f rest e b r =
      bind-IfOk (IsFlagged backend register) (IsFlagged backend register)
        (open_files sys l [] l.file_info) _
        (subst (λ fs. IfOk (IsFlagged backend register) (open_files sys l [] fs)) (sym e)
          (bind-IfOk (Flagged backend register) (IsFlagged backend register) (open_one sys l f) _
            (open_one_lem backend l f b r) (λ o h. open_rest_lem backend o.0 (o.1 ∷ []) rest h)))
        (λ opened h.
          skip-IfOk (IsFlagged backend register)
            (if is_aio opened.backend then initialize_aio_context sys opened else ok tt) _
            (λ u.
              skip-IfOk (IsFlagged backend register)
                (if is_uring opened.backend then initialize_uring_context sys opened else ok tt) _
                (λ v. h)))
