-- ===== src/Loader/Open/Closing.antt =====
-- Loader::close: when it throws, and what it leaves (destroy_threads, destroy_buffer and close_file
-- of Loader/Open).
use instant_tensor.Base.{
  ℕ, ◌≡◌, inl, inr, refl, sym, ap, subst, Bool, true, false, if◌then◌else◌, List, [], ◌∷◌, ◌++◌,
  map, append-nil, append_assoc, Result, ok, guard,
}
use instant_tensor.Types.{Backend, FileInfo}
use instant_tensor.Cache.{put}
use instant_tensor.Loader.System.{
  System, RunError, cuda_failed, cufile_failed, destroy_failed, Process,
}
use instant_tensor.Loader.Open.Yields.{
  Yields, guard-Yields, bind-Yields, return-Yields, if-Yields, when-Yields,
}
use instant_tensor.Loader.Open.{
  destroy_threads, release_host_buffer, destroy_buffer, close_file_inmem, close_each, close_file,
  joined_all, destroyed, is_mmap, is_aio, is_cufile,
}

abbrev pub kept : Process → Process
kept p = record p { cached_host_buffers = put p.cached_host_buffers p.loader.host_buffer_entry }

abbrev pub dropped : Process → Process
dropped p = record p {
  loader = record p.loader { host_buffer_entry = record p.loader.host_buffer_entry { ptr = 0 } };
}

abbrev pub released : Bool → Process → Process
released cache p = if cache then kept p else dropped p

release-Yields :
    (sys : System) (p : Process)
    → Yields
        (released sys.cache_buffer p)
        (sys.cache_buffer ≡ false → sys.host_unregister p.loader.host_buffer_entry.ptr ≡ true)
        (release_host_buffer sys p)
unfolding release_host_buffer
release-Yields sys p = choose sys.cache_buffer (
    return-Yields tt (dropped p) _ (guard _ cuda_failed)
      (guard-Yields (sys.host_unregister p.loader.host_buffer_entry.ptr) cuda_failed))
  where
    true_false : true ≡ false → ⊥
    true_false e = cc e

    choose :
        {R : Type 0} (b : Bool) {m : Result RunError Process}
        → Yields (dropped p) R m
        → Yields (released b p) (b ≡ false → R) (if b then ok (kept p) else m)
    choose true k = inl (refl, λ h. absurd (true_false h))
    choose false (inl (e, r)) = inl (e, λ h. r)
    choose false (inr (x', e, fails)) = inr (x', e, λ h. fails (h refl))

abbrev pub freed : System → Process → Process
freed sys p = if p.loader.need_host_buffer then released sys.cache_buffer p else p

pub destroy_buffer-Yields :
    (sys : System) (p : Process)
    → Yields
        (freed sys p)
        ((is_cufile p.loader.backend ≡ true → sys.device_deregister p.loader.device_buffer ≡ true)
          × ((sys.cuda_free p.loader.device_buffer ≡ true)
              × (p.loader.need_host_buffer ≡ true
                  → sys.cache_buffer ≡ false
                  → sys.host_unregister p.loader.host_buffer_entry.ptr ≡ true)))
        (destroy_buffer sys p)
unfolding destroy_buffer
destroy_buffer-Yields sys p =
    bind-Yields tt (freed sys p) _ _ _ _
      (when-Yields _ (is_cufile p.loader.backend) _
        (guard-Yields (sys.device_deregister p.loader.device_buffer) cufile_failed))
      (bind-Yields tt (freed sys p) _ _ _ _
        (guard-Yields (sys.cuda_free p.loader.device_buffer) cuda_failed)
        (if-Yields (released sys.cache_buffer p) p _ p.loader.need_host_buffer
          (release_host_buffer sys p) (release-Yields sys p)))

abbrev pub mapping : FileInfo → ℕ × ℕ
mapping f = (f.mapped_memory, f.size)

abbrev pub recorded : Process → List FileInfo → Process
recorded p files = record p {
  mapped_memory = p.mapped_memory ++ (if is_mmap p.loader.backend then map mapping files else []);
}

recorded_none : (p : Process) → p ≡ recorded p []
recorded_none p =
    ap (λ l. record p { mapped_memory = l })
      (sym (neither (is_mmap p.loader.backend) p.mapped_memory))
  where
    neither : (b : Bool) (l : List (ℕ × ℕ)) → l ++ (if b then [] else []) ≡ l
    neither true l = append-nil l
    neither false l = append-nil l

recorded_more :
    (p : Process) (f : FileInfo) (files : List FileInfo)
    → recorded (recorded p (f ∷ [])) files ≡ recorded p (f ∷ files)
recorded_more p f files =
    ap (λ l. record p { mapped_memory = l }) (more (is_mmap p.loader.backend) p.mapped_memory)
  where
    more :
        (b : Bool) (l : List (ℕ × ℕ))
        → (l ++ (if b then mapping f ∷ [] else [])) ++ (if b then map mapping files else [])
          ≡ l ++ (if b then mapping f ∷ map mapping files else [])
    more true l = append_assoc l (mapping f ∷ []) (map mapping files)
    more false l = append-nil (l ++ [])

-- Every mapping that was registered is unregistered.
abbrev pub AllUnregister : System → Backend → Bool → List FileInfo → Type 0
AllUnregister sys backend register [] = Unit
AllUnregister sys backend register (f ∷ files) =
    (is_mmap backend ≡ true → register ≡ true → sys.host_unregister f.mapped_memory ≡ true)
    × AllUnregister sys backend register files

close_one-Yields :
    (sys : System) (p : Process) (f : FileInfo)
    → Yields
        (recorded p (f ∷ []))
        (is_mmap p.loader.backend ≡ true
          → p.loader.use_internal_memory_register ≡ true
          → sys.host_unregister f.mapped_memory ≡ true)
        (if is_mmap p.loader.backend then close_file_inmem sys p f else ok p)
unfolding close_file_inmem
close_one-Yields sys p f =
    subst
      (λ q.
        Yields q
          (is_mmap p.loader.backend ≡ true
            → p.loader.use_internal_memory_register ≡ true
            → sys.host_unregister f.mapped_memory ≡ true)
          (if is_mmap p.loader.backend then close_file_inmem sys p f else ok p))
      (chosen (is_mmap p.loader.backend))
      (if-Yields (record p { mapped_memory = p.mapped_memory ++ mapping f ∷ [] }) p _
        (is_mmap p.loader.backend) (close_file_inmem sys p f)
        (return-Yields tt _ _ _ (
          when-Yields _ p.loader.use_internal_memory_register _
            (guard-Yields (sys.host_unregister f.mapped_memory) cuda_failed))))
  where
    chosen :
        (b : Bool)
        → (if b then record p { mapped_memory = p.mapped_memory ++ mapping f ∷ [] } else p)
          ≡ record p { mapped_memory = p.mapped_memory ++ (if b then mapping f ∷ [] else []) }
    chosen true = refl
    chosen false = ap (λ l. record p { mapped_memory = l }) (sym (append-nil p.mapped_memory))

close_each-Yields :
    (sys : System) (p : Process) (files : List FileInfo)
    → Yields
        (recorded p files)
        (AllUnregister sys p.loader.backend p.loader.use_internal_memory_register files)
        (close_each sys p files)
unfolding close_each
close_each-Yields sys p [] = inl (ap ok (recorded_none p), tt)
close_each-Yields sys p (f ∷ files) =
    subst
      (λ q.
        Yields q
          (AllUnregister sys p.loader.backend p.loader.use_internal_memory_register (f ∷ files))
          (close_each sys p (f ∷ files)))
      (recorded_more p f files)
      (bind-Yields (recorded p (f ∷ [])) _ _ _ _ (λ q. close_each sys q files)
        (close_one-Yields sys p f) (close_each-Yields sys (recorded p (f ∷ [])) files))

-- What closing the files needs.
abbrev pub Closes : System → Backend → Bool → List FileInfo → Type 0
Closes sys backend register files =
    AllUnregister sys backend register files × (is_aio backend ≡ true → sys.io_destroy ≡ true)

pub close_file-Yields :
    (sys : System) (p : Process)
    → Yields
        (recorded p p.loader.file_info)
        (Closes sys p.loader.backend p.loader.use_internal_memory_register p.loader.file_info)
        (close_file sys p)
unfolding close_file
close_file-Yields sys p =
    bind-Yields (recorded p p.loader.file_info) _ _ _ _ _
      (close_each-Yields sys p p.loader.file_info)
      (return-Yields tt (recorded p p.loader.file_info) _ _
        (when-Yields _ (is_aio p.loader.backend) _ (guard-Yields sys.io_destroy destroy_failed)))

pub destroy_threads-Yields :
    (sys : System) (p : Process)
    → Yields
        (joined_all p)
        ((destroyed sys p.cuda_stream ≡ true) × (destroyed sys p.nccl_stream ≡ true))
        (destroy_threads sys p)
unfolding destroy_threads
destroy_threads-Yields sys p =
    bind-Yields tt (joined_all p) _ _ _ _ (guard-Yields (destroyed sys p.cuda_stream) cuda_failed)
      (return-Yields tt (joined_all p) _ _ (guard-Yields (destroyed sys p.nccl_stream) cuda_failed))
