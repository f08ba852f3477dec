-- ===== src/Loader/Open/Opened.antt =====
-- `Loader::open`: that a loader opened is ready to serve its tensors.
use instant_tensor.Base.{
  ℕ, ◌+◌, ◌*◌, ◌^◌, ◌≤◌, ◌<◌, ◌≡◌, ◌≢◌, refl, sym, ap, ◌∙◌, subst, Bool, true, false, not, ltb,
  ◌==◌, ◌&&◌, some, List, [], ◌∷◌, length, get_elem?, get_elem?-of_lt, lt_of_get_elem?, same_some,
  length-map, ok, arith,
}
use instant_tensor.Base.Int.{negsuc, ◌≤ℤ◌}
use instant_tensor.Types.{OpenArgs, TensorMetadate, FileInfo, HostBufferCacheEntry}
use instant_tensor.Layout.{Config, Layout, compute_layout, last_or}
use instant_tensor.Layout.Scan.{entries, IsListed}
use instant_tensor.Layout.Correct.{InputFits, IsCorrect, IsPrefetched, compute_layout_lem}
use instant_tensor.Loader.{Loader, new_loader}
use instant_tensor.Loader.Sizes.{
  set_sizes, layout_config, set_sizes-IsValid, set_alignments, set_chunk_sizes, set_buffer_size,
}
use instant_tensor.Loader.Sizes.Sized.{set_sizes-IsSized, set_sizes_threads}
use instant_tensor.Loader.System.{System, Process, new_process}
use instant_tensor.Loader.Open.{
  open_loader, with_args, with_layout, init_threads, threaded, new_file,
}
use instant_tensor.Loader.Open.Files.{Obliges, flagged, open_file_lem}
use instant_tensor.Loader.Open.Buffers.{buffered, init_buffer_lem}
use instant_tensor.Loader.Open.Needs.{IfOk}
use instant_tensor.Loader.Open.Staff.{IsStaffed, open_loader-IsStaffed}
use instant_tensor.Loader.Run.Session.{IsServable, Session, spans, le-last}

-- The configuration of the layout that the arguments give.
abbrev pub config_of : System → OpenArgs → Config
unfolding with_args
config_of sys args = layout_config (set_sizes sys.page_size (with_args (new_loader false) args))

-- Arguments that can be opened: a table of offsets in files 0, 1, … with at least one tensor and
-- bytes in each, that fits; and a communicator if and only if there is a group.
pub record IsOpenable (sys : System) (args : OpenArgs) (offset : ℕ) (rest : List (ℕ × ℕ))
    : Type 0 where
  pub table : args.tensor_offsets ≡ (0, offset) ∷ rest
  pub page : 0 < sys.page_size
  pub threads : 0 < args.num_threads
  pub ranks : 0 < args.world_size
  pub chunk : 0 < args.chunk_size
  pub depth : 0 < args.io_depth
  pub small : (args.chunk_size + sys.page_size) * args.num_threads * args.world_size ≤ 2 ^ 60
  pub group : 1 < args.world_size → args.group_communicator ≢ 0
  pub alone : args.world_size ≡ 1 → args.group_communicator ≡ 0
  pub files : (last_or (0, offset) rest).0 < length args.filenames
  pub listed : IsListed (config_of sys args) (0, offset) rest
  pub fits : InputFits (config_of sys args) rest
  pub some_tensor : 0 < length (entries (0, offset) rest)
  pub with_bytes :
      (i : ℕ) (x : ℕ × ℕ × ℕ) → get_elem? (entries (0, offset) rest) i ≡ some x → 0 < x.2

first_of {ℓ} :
    {A : Type ℓ} (xs : List A) → 0 < length xs → (x : A) × (rest : List A) × (xs ≡ x ∷ rest)
first_of [] h = absurd (omega arith)
first_of (x ∷ rest) h = (x, rest, refl)

communicators_given :
    (world communicator : ℕ)
    → (1 < world → communicator ≢ 0)
    → (world ≡ 1 → communicator ≡ 0)
    → (not (ltb 1 world && (communicator == 0)) ≡ true)
      × (not ((world == 1) && not (communicator == 0)) ≡ true)
communicators_given world communicator group alone = ground arith

module _ (sys : System) (obliges : Obliges sys) (register : Bool)
    (cached : List HostBufferCacheEntry) (mapped : List (ℕ × ℕ)) (args : OpenArgs) (offset : ℕ)
    (rest : List (ℕ × ℕ)) (openable : IsOpenable sys args offset rest) where
  abbrev fresh_process : Process
  fresh_process = new_process register cached mapped

  abbrev given : Loader
  unfolding with_args
  given = with_args (new_loader register) args

  layout_lem :
      (s : Layout) × (compute_layout (config_of sys args) args.tensor_offsets ≡ ok s)
      × IsCorrect (config_of sys args) (entries (0, offset) rest) s
      × IsPrefetched (config_of sys args) (last_or (0, offset) rest).0 s
  unfolding with_args
  layout_lem =
      let (s, e, correct, prefetched) =
        compute_layout_lem (config_of sys args)
          (set_sizes-IsValid sys.page_size (with_args (new_loader false) args) openable.page
            openable.threads openable.ranks openable.chunk (omega (arith, openable.small)))
          offset rest openable.listed openable.fits in
      (s, ap (compute_layout (config_of sys args)) openable.table ∙ e, correct, prefetched)

  servable_lem :
      (s : Layout)
      → IsCorrect (config_of sys args) (entries (0, offset) rest) s
      → IsPrefetched (config_of sys args) (last_or (0, offset) rest).0 s
      → IsServable (config_of sys args) (entries (0, offset) rest) s
  servable_lem s correct prefetched = record {
    files = (last_or (0, offset) rest).0;
    prefetched = prefetched;
    correct = correct;
    some_tensor = omega (arith, correct.count, openable.some_tensor);
    with_bytes = λ i t e.
        let (t', e', (_, _, x)) =
          correct.delivered i (omega (arith, correct.count, lt_of_get_elem? s.tensors i t e)) in
        subst (λ u. 0 < TensorMetadate.size u) (same_some (get_elem? s.tensors i) e' e)
          (openable.with_bytes i (t'.file_index, t'.file_offset, t'.size) x);
  }

  -- The loader after `open`.
  abbrev loaded :
      List FileInfo → Bool → Bool → Bool → ℕ → HostBufferCacheEntry → ℕ → Layout → Loader
  loaded files host workers cuda device entry buffer s =
      with_layout
        (record (set_sizes sys.page_size (flagged given files host workers cuda)) {
          device_buffer = device;
          host_buffer_entry = entry;
          host_buffer = buffer;
        })
        s

  loaded-Session :
      (files : List FileInfo) (host workers cuda : Bool) (device : ℕ) (entry : HostBufferCacheEntry)
      (buffer : ℕ) (s : Layout)
      → length files ≡ length args.filenames
      → IsCorrect (config_of sys args) (entries (0, offset) rest) s
      → IsPrefetched (config_of sys args) (last_or (0, offset) rest).0 s
      → Session sys.page_size s device (loaded files host workers cuda device entry buffer s) 0 0
  unfolding set_sizes set_alignments set_chunk_sizes set_buffer_size with_args
  loaded-Session files host workers cuda device entry buffer s count correct prefetched = record {
    ready = record {
      sized =
          set_sizes-IsSized sys.page_size given openable.page openable.threads openable.ranks
            openable.chunk openable.small;
      threads =
          set_sizes_threads sys.page_size given openable.page openable.threads openable.ranks
            openable.chunk openable.small;
      depth_pos = openable.depth;
      postable = λ k h.
          let (ch, e) = get_elem?-of_lt s.chunks k h in
          let (fits, file) = prefetched.chunks_fit k ch e in
          let (f, e') =
            get_elem?-of_lt files ch.file_index (omega (arith, count, openable.files)) in
          (ch, e, ((f, e'), fits));
    };
    sched = record {
      reading = refl;
      done = refl;
      ordered = omega arith;
      issued = λ k h. absurd (omega arith);
    };
    tensors = refl;
    device_buffer = refl;
    chunks = refl;
    going = refl;
    current = omega (arith, correct.count, openable.some_tensor);
    held = λ t e.
        let span =
          spans (config_of sys args) (entries (0, offset) rest) s
            (servable_lem s correct prefetched) 0 t e in
        subst (λ x. negsuc 0 ≤ℤ x) (sym span.prefetch_is) (le-last 0 span.b (omega arith));
  }

  pub open_loader-Session :
      (p : Process) × (s : Layout) × (open_loader sys fresh_process args ≡ ok p)
      × IsServable (config_of sys args) (entries (0, offset) rest) s
      × Session sys.page_size s p.loader.device_buffer p.loader 0 0
      × (p.loader.current_tensor_index ≡ 0)
      × IsStaffed sys cached p
  unfolding open_loader init_threads with_args set_sizes set_alignments set_chunk_sizes
      set_buffer_size
  open_loader-Session =
      let (alone, group) =
        communicators_given args.world_size args.group_communicator openable.group openable.alone in
      let (host, workers, cuda, files, opened, count) = open_file_lem sys obliges given in
      let flags = flagged given files host workers cuda in
      let (device, entry, buffer, kept, filled) =
        init_buffer_lem sys obliges (record fresh_process { loader = flags }) in
      let (cuda_stream, made) = obliges.creates_streams 0 in
      let (nccl_stream, made') = obliges.creates_streams 1 in
      let started =
        threaded
          (buffered (record fresh_process { loader = flags }) (set_sizes sys.page_size flags) device
            entry buffer kept)
          cuda_stream nccl_stream in
      let (s, laid, correct, prefetched) = layout_lem in
      let (name, names, given_names) = first_of args.filenames (omega (arith, openable.files)) in
      let done = record started { loader = with_layout started.loader s } in
      let opened_all : open_loader sys fresh_process args ≡ ok done =
        rw (alone, group, opened, filled, made, made', obliges.creates_events args.io_depth, laid)
          refl in
      let staffed =
        subst (IfOk (IsStaffed sys cached)) opened_all
          (open_loader-IsStaffed sys register cached mapped args name names given_names) in
      (
        done,
        s,
        opened_all,
        servable_lem s correct prefetched,
        loaded-Session files host workers cuda device entry buffer s
            (count ∙ length-map new_file args.filenames) correct prefetched,
        refl,
        staffed,
      )
