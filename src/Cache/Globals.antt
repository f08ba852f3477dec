-- ===== src/Cache/Globals.antt =====
-- The global objects of csrc/instant_tensor/io_context.hpp at their start and their end: the context
-- of cuFile, which is made once, the cache of host buffers, and the mappings that are undone last; and
-- `cleanup` of csrc/main.cpp. What the calls of the system return is a parameter.
use instant_tensor.Base.{
  ℕ, ◌≡◌, refl, ap, ◌∙◌, Bool, true, false, if◌then◌else◌, Option, none, some, List, [], ◌∷◌, ◌++◌,
  map, Result, ok, err,
}
use instant_tensor.Types.{HostBufferCacheEntry}

-- What is done to the system.
pub data GlobalCall : Type 0 where
  driver_open driver_close : GlobalCall
  delete_buffer : ℕ → GlobalCall
  unmap : ℕ → ℕ → GlobalCall

pub data GlobalError : Type 0 where
  driver_failed munmap_failed : GlobalError

pub record Calls : Type 0 where
  pub driver_opens : Bool
  pub driver_closes : Bool
  pub munmap : ℕ → ℕ → Bool

-- The three pointers; `none` is null. The context is whether it was made.
pub record Globals : Type 0 where
  pub cufile_context_initializer : Option Bool
  pub host_buffer_cache : Option (List HostBufferCacheEntry)
  pub munmaper : Option (List (ℕ × ℕ))

-- CufileContextInitializer::initialize, whose lock makes it one step: the calls, and the context.
unfoldable pub initialize : Calls → Bool → Result GlobalError Bool × List GlobalCall
initialize calls true = (ok true, [])
initialize calls false =
    if calls.driver_opens
    then (ok true, driver_open ∷ [])
    else (err driver_failed, driver_open ∷ [])

-- The destructors. ~CufileContext throws where the driver does not close, out of a destructor, which
-- ends the process.
unfoldable pub destroy_context : Calls → Bool → Result GlobalError (Unit {0}) × List GlobalCall
destroy_context calls false = (ok tt, [])
destroy_context calls true =
    if calls.driver_closes
    then (ok tt, driver_close ∷ [])
    else (err driver_failed, driver_close ∷ [])

unfoldable pub destroy_cache : List HostBufferCacheEntry → List GlobalCall
destroy_cache [] = []
destroy_cache (entry ∷ rest) = delete_buffer entry.ptr ∷ destroy_cache rest

abbrev pub before_rest :
    GlobalCall
    → Result GlobalError (Unit {0}) × List GlobalCall
    → Result GlobalError (Unit {0}) × List GlobalCall
before_rest call (r, calls) = (r, call ∷ calls)

unfoldable pub destroy_munmaper :
    Calls → List (ℕ × ℕ) → Result GlobalError (Unit {0}) × List GlobalCall
destroy_munmaper calls [] = (ok tt, [])
destroy_munmaper calls ((ptr, size) ∷ rest) =
    let later = before_rest (unmap ptr size) (destroy_munmaper calls rest) in
    if calls.munmap ptr size then later else (err munmap_failed, unmap ptr size ∷ [])

unfoldable pub add : List (ℕ × ℕ) → ℕ → ℕ → List (ℕ × ℕ)
add mapped_memory ptr size = mapped_memory ++ (ptr, size) ∷ []

-- reset() of a pointer: nothing where it is null.
abbrev pub reset_context : Calls → Option Bool → Result GlobalError (Unit {0}) × List GlobalCall
reset_context calls none = (ok tt, [])
reset_context calls (some context) = destroy_context calls context

abbrev pub reset_cache : Option (List HostBufferCacheEntry) → List GlobalCall
reset_cache none = []
reset_cache (some entries) = destroy_cache entries

abbrev pub reset_munmaper :
    Calls → Option (List (ℕ × ℕ)) → Result GlobalError (Unit {0}) × List GlobalCall
reset_munmaper calls none = (ok tt, [])
reset_munmaper calls (some mapped) = destroy_munmaper calls mapped

abbrev pub cleared : Globals
cleared = record { cufile_context_initializer = none; host_buffer_cache = none; munmaper = none }

abbrev pub after_context :
    Calls
    → Globals
    → Result GlobalError (Unit {0}) × List GlobalCall
    → Result GlobalError (Unit {0}) × List GlobalCall
after_context calls g (err e, done) = (err e, done)
after_context calls g (ok u, done) =
    let rest = reset_munmaper calls g.munmaper in
    (rest.0, done ++ (reset_cache g.host_buffer_cache ++ rest.1))

unfoldable pub cleanup : Calls → Globals → Result GlobalError (Unit {0}) × List GlobalCall
cleanup calls g = after_context calls g (reset_context calls g.cufile_context_initializer)

-- The calls that a clean end makes, each once.
abbrev pub closing : Option Bool → List GlobalCall
closing none = []
closing (some false) = []
closing (some true) = driver_close ∷ []

abbrev pub deletions : Option (List HostBufferCacheEntry) → List GlobalCall
deletions none = []
deletions (some entries) = map (λ entry. delete_buffer (HostBufferCacheEntry.ptr entry)) entries

abbrev pub unmappings : Option (List (ℕ × ℕ)) → List GlobalCall
unmappings none = []
unmappings (some mapped) = map (λ m. unmap m.0 m.1) mapped

destroy_cache_lem :
    (entries : List HostBufferCacheEntry) → destroy_cache entries ≡ deletions (some entries)
unfolding destroy_cache
destroy_cache_lem [] = refl
destroy_cache_lem (entry ∷ rest) = ap (◌∷◌ (delete_buffer entry.ptr)) (destroy_cache_lem rest)

reset_cache_lem : (cache : Option (List HostBufferCacheEntry)) → reset_cache cache ≡ deletions cache
reset_cache_lem none = refl
reset_cache_lem (some entries) = destroy_cache_lem entries

module _ (calls : Calls) (closes : calls.driver_closes ≡ true)
    (unmaps : (ptr size : ℕ) → calls.munmap ptr size ≡ true) where
  destroy_munmaper_lem :
      (mapped : List (ℕ × ℕ)) → destroy_munmaper calls mapped ≡ (ok tt, unmappings (some mapped))
  unfolding destroy_munmaper
  destroy_munmaper_lem [] = refl
  destroy_munmaper_lem ((ptr, size) ∷ rest) =
      rw (unmaps ptr size) (ap (before_rest (unmap ptr size)) (destroy_munmaper_lem rest))

  reset_munmaper_lem :
      (mapped : Option (List (ℕ × ℕ))) → reset_munmaper calls mapped ≡ (ok tt, unmappings mapped)
  reset_munmaper_lem none = refl
  reset_munmaper_lem (some mapped) = destroy_munmaper_lem mapped

  reset_context_lem :
      (context : Option Bool) → reset_context calls context ≡ (ok tt, closing context)
  unfolding destroy_context
  reset_context_lem none = refl
  reset_context_lem (some false) = refl
  reset_context_lem (some true) = rw closes refl

  -- Where cuFile closes and every mapping can be undone, `cleanup` throws nothing: it closes the
  -- driver if it was opened, then deletes each cached buffer, and then undoes each mapping, each once
  -- and in the order in which they were added.
  pub cleanup_lem :
      (g : Globals)
      → cleanup calls g ≡ (
        ok tt,
        closing g.cufile_context_initializer
            ++ (deletions g.host_buffer_cache ++ unmappings g.munmaper),
      )
  unfolding cleanup
  cleanup_lem g =
      ap (after_context calls g) (reset_context_lem g.cufile_context_initializer)
      ∙ ap
          (λ (r : Result GlobalError (Unit {0}) × List GlobalCall).
            (r.0, closing g.cufile_context_initializer ++ (reset_cache g.host_buffer_cache ++ r.1)))
          (reset_munmaper_lem g.munmaper)
      ∙ ap (λ l. (ok tt, closing g.cufile_context_initializer ++ (l ++ unmappings g.munmaper)))
          (reset_cache_lem g.host_buffer_cache)
