-- ===== src/Cache.antt =====
-- class HostBufferCache of csrc/instant_tensor/io_context.hpp. Its mutex makes each call one step.
pub mod Globals
mod Tests
use instant_tensor.Base.{
  ℕ, ◌≡◌, ◌≤◌, ◌<◌, refl, ap, ◌∙◌, Bool-cases, inl, inr, leb, leb→le, leb→lt, le→leb, lt→leb,
  if◌then◌else◌, List, [], ◌∷◌, ◌++◌, ◌⊎◌, arith,
}
use instant_tensor.Types.{HostBufferCacheEntry}

unfoldable pub put : List HostBufferCacheEntry → HostBufferCacheEntry → List HostBufferCacheEntry
put cached_host_buffers entry = cached_host_buffers ++ entry ∷ []

-- What `get` returns without a fit.
abbrev pub no_entry : HostBufferCacheEntry
no_entry = record { ptr = 0; size = 0 }

-- The entry, and the entries that stay.
unfoldable pub get :
    List HostBufferCacheEntry → ℕ → HostBufferCacheEntry × List HostBufferCacheEntry
get [] size = (no_entry, [])
get (entry ∷ rest) size =
    let later = get rest size in
    if leb size entry.size then (entry, rest) else (later.0, entry ∷ later.1)

abbrev pub AllSmaller : ℕ → List HostBufferCacheEntry → Type 0
AllSmaller size [] = Unit
AllSmaller size (entry ∷ rest) = (entry.size < size) × AllSmaller size rest

-- `get` takes out the first entry that is large enough: every entry in front of it is too small, and
-- the others stay in their order. Where there is none, it returns the null entry and the cache stays
-- as it is.
pub get_lem :
    (cached : List HostBufferCacheEntry) (size : ℕ)
    → ((front : List HostBufferCacheEntry) × (back : List HostBufferCacheEntry)
        × (entry : HostBufferCacheEntry) × (cached ≡ front ++ entry ∷ back)
        × (get cached size ≡ (entry, front ++ back))
        × (size ≤ entry.size)
        × AllSmaller size front)
      ⊎ ((get cached size ≡ (no_entry, cached)) × AllSmaller size cached)
unfolding get
get_lem [] size = inr (refl, tt)
get_lem (x ∷ rest) size = elim (Bool-cases (leb size x.size)) [
  | inl fits ↦ inl ([], rest, x, refl, rw fits refl, leb→le _ _ fits, tt)
  | inr small ↦ elim (get_lem rest size) [
    | inl (front, back, entry, e, g, large, all) ↦
        inl
          (x ∷ front, back, entry, ap (◌∷◌ x) e, rw (small, g) refl, large, (leb→lt _ _ small, all))
    | inr (g, all) ↦ inr (rw (small, g) refl, (leb→lt _ _ small, all))
  ]
]

-- A buffer that was put is got again for any size that it holds, if nothing else in the cache holds
-- that size.
pub get-put :
    (cached : List HostBufferCacheEntry) (entry : HostBufferCacheEntry) (size : ℕ)
    → AllSmaller size cached
    → size ≤ entry.size
    → get (put cached entry) size ≡ (entry, cached)
unfolding get put
get-put [] entry size all h = rw (le→leb _ _ h) refl
get-put (x ∷ rest) entry size (small, all) h =
    rw (lt→leb _ _ small, get-put rest entry size all h) refl
