-- ===== src/RequestMap/Init.antt =====
-- `labstor_request_map_Init` and the sizes that it tests.
use labstor.Base.{
  ℕ, zero, suc, ◌+◌, ◌-◌, ◌*◌, ◌/◌, ◌≤◌, ◌<◌, ◌≡◌, ◌↔◌, u32_mod, true, List, [], ◌∷◌, length,
  get_or, none, arith, refl, ap,
}
use labstor.RequestMap.{
  RequestMap, map_header_size, bucket_size, vacant, invalid_request_id, memset, default_buckets,
  init,
}
use labstor.RequestMap.View.{IsValid, pending}

length-memset : (ws : List ℕ) (c n : ℕ) → length (memset ws c n) ≡ length ws
unfolding memset
length-memset [] c n = refl
length-memset (w ∷ ws) c zero = refl
length-memset (w ∷ ws) c (suc n) = ap suc (length-memset ws c n)

get_or-memset :
    (ws : List ℕ) (n i : ℕ) → i < n → get_or (memset ws invalid_request_id n) i vacant ≡ vacant
unfolding memset
get_or-memset [] n i h = refl
get_or-memset (w ∷ ws) zero i h = absurd (omega arith)
get_or-memset (w ∷ ws) (suc n) zero h = refl
get_or-memset (w ∷ ws) (suc n) (suc i) h = get_or-memset ws n i (omega arith)

-- Where the size of `num_buckets` buckets fits 32 bits, and the region's words are the buckets,
-- `init` accepts a region exactly when it has room for the header, `num_buckets` buckets and at
-- least one. Then the map is valid and every bucket is vacant.
init-vacant :
    (m : RequestMap) (base region region_size num_buckets : ℕ)
    → region_size < u32_mod
    → map_header_size + bucket_size * num_buckets < u32_mod
    → length m.buckets ≡ (region_size - map_header_size) / bucket_size
    → let (ok, m') = init m base region region_size num_buckets in
      ((ok ≡ true) ↔ (
        (map_header_size + bucket_size * num_buckets ≤ region_size)
        × (map_header_size + bucket_size ≤ region_size)))
      × (ok ≡ true
          → IsValid m'
            × (m'.base_region ≡ base)
            × ((b : ℕ) → b < m'.num_buckets → pending m' b ≡ none))
unfolding init
init-vacant m base region region_size num_buckets small fits holds =
    let n = default_buckets region_size num_buckets in
    (
      ground arith,
      λ e. (
        ground (arith, length-memset m.buckets invalid_request_id n),
        ground arith,
        λ b h. ground (arith, get_or-memset m.buckets n b),
      ),
    )
