-- ===== src/ShmemAlloc/Release.antt =====
-- `Free` of an object whose own core has room for it.
use labstor.Base.{
  ℕ, ◌+◌, ◌<◌, ◌≡◌, sym, ap, ◌∙◌, ◌≢◌, some, List, [], ◌∷◌, ◌++◌, arith, length, get_elem?, u64_mod,
  sub64, done, ◌>>=◌, in_bounds,
}
use labstor.Region.{Reaches}
use labstor.Ring.Inv.{Room}
use labstor.Spin.{returned}
use labstor.PrivateAlloc
use labstor.PrivateAlloc.{PrivateAlloc}
use labstor.PrivateAlloc.Calls.{free_objects_put}
use labstor.ShmemAlloc.{ShmemAlloc, entry_size, set_core, release_on, release_loop, release}
use labstor.ShmemAlloc.Cores.{
  WellFormed, free_on, free_on-some, set_core-WellFormed, free_on-set_self, free_on-set_ne,
}

release_on_run :
    (s : ShmemAlloc) (c p : ℕ) {a a' : PrivateAlloc}
    → get_elem? s.per_core_allocs c ≡ some a
    → PrivateAlloc.release a p ≡ done a'
    → release_on s c p ≡ done (set_core s c a')
unfolding release_on
release_on_run s c p at put =
    ap (λ o. in_bounds o >>= λ b. PrivateAlloc.release b p >>= λ b'. done (set_core s c b')) at
    ∙ ap (λ call. call >>= λ b'. done (set_core s c b')) put

release_once :
    (s s' : ShmemAlloc) (c p : ℕ) (others : List (ShmemAlloc → ShmemAlloc))
    → release_on s c p ≡ done s'
    → release_loop s c p others ≡ returned s'
unfolding release_loop
release_once s s' c p [] run = ground (arith, run)
release_once s s' c p (o ∷ others) run = ground (arith, run)

release_start :
    (s : ShmemAlloc) (c p : ℕ) (others : List (ShmemAlloc → ShmemAlloc))
    → p + entry_size < u64_mod
    → s.pages p ≡ c
    → release s (p + entry_size) others ≡ release_loop s c p others
unfolding release
release_start s c p others top mark =
    let back : sub64 (p + entry_size) entry_size ≡ p = omega (arith, top) in
    ap (λ q. release_loop s (s.pages q) q others) back ∙ ap (λ d. release_loop s d p others) mark

-- On a well-formed allocator, Free of an object in reach of the base, whose entry names a core of
-- the allocator with room in its ring, returns at its first attempt, as long as the depth of that
-- ring divides 2^32 or its enqueued_ stays below 2^32; the object is behind the free
-- objects of that core, the other cores keep theirs, and the allocator is well formed.
pub release-home :
    (s : ShmemAlloc) (c p : ℕ) (a : PrivateAlloc) (others : List (ShmemAlloc → ShmemAlloc))
    → WellFormed s
    → get_elem? s.per_core_allocs c ≡ some a
    → c < s.concurrency
    → s.pages p ≡ c
    → p + entry_size < u64_mod
    → Room a.objs 1
    → length (free_on s c) < a.objs.max_depth
    → Reaches s.base_region p
    → (s' : ShmemAlloc) × (release s (p + entry_size) others ≡ returned s')
      × WellFormed s'
      × (free_on s' c ≡ free_on s c ++ p ∷ [])
      × ((d : ℕ) → c ≢ d → free_on s' d ≡ free_on s d)
release-home s c p a others w at lt mark top room space reach =
    let base = w.based c a at in
    let here = free_on-some s c a at in
    let (a', put, valid, more, same) =
      free_objects_put a p (w.valid c a at) room (rw (sym here) space) (rw base reach) in
    (
      set_core s c a',
      release_start s c p others top mark
          ∙ release_once s (set_core s c a') c p others (release_on_run s c p at put),
      set_core-WellFormed c a' w valid (same ∙ base),
      free_on-set_self c a' w lt ∙ more ∙ ap (λ l. l ++ p ∷ []) (sym here),
      λ d ne. free_on-set_ne s c d a' ne,
    )
