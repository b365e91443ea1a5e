-- ===== src/Server/Namespace/Keys.antt =====
-- Keys and ids of modules.
use labstor.Base.{
  ℕ, ◌+◌, ◌%◌, ◌<◌, ◌≡◌, refl, sym, ap, ◌∙◌, ◌≢◌, true, false, some, List, [], ◌∷◌, ◌++◌, arith,
  ◌==◌, length, get_elem?, get_elem?-append_last, u32_mod, u32, done, refused, get_elem?-append_ne,
}
use labstor.Bit2map.Entries.{entry}
use labstor.Mpmc
use labstor.Region.{region_sub, Reaches, region_add-sub_of_reach}
use labstor.Text.{hash, text_eq_iff}
use labstor.UnorderedMap.{UnorderedMap, iters, rounds, find}
use labstor.UnorderedMap.Lookup.{insert-find}
use labstor.UnorderedMap.Probe.{WellFormed, Misses}
use labstor.UnorderedMap.StringMap.{
  StringMapBucket, bucket_init, get_key, string_map_bucket, insert_string, find_string,
}
use labstor.Server.Namespace.{
  Namespace, new_id, add_key, get_namespace_id, get_module, push_instance,
}

-- The bucket of a key in reach of the base, but not at the base itself, has the key's text.
get_key-init :
    (texts : ℕ → List ℕ) (key value region : ℕ)
    → Reaches region key
    → key ≢ region
    → get_key texts region (bucket_init key value region) ≡ texts key
unfolding get_key bucket_init
get_key-init texts key value region reach ne =
    let off_ne : (region_sub key region == 0) ≡ false = unfold region_sub in ground arith in
    rw (off_ne, region_add-sub_of_reach region key reach) refl

-- No id was given back.
pub record NoneFree (ns : Namespace) : Type 0 where
  pub unlocked : ns.ns_ids.d_lock ≡ 0
  pub same : ns.ns_ids.enqueued ≡ ns.ns_ids.dequeued
  pub word : ns.ns_ids.dequeued < u32_mod

new_id_next :
    (ns : Namespace) (mdl : ℕ)
    → NoneFree ns
    → length ns.private_state < u32_mod
    → new_id ns mdl
      ≡ done (length ns.private_state, record ns { private_state = ns.private_state ++ mdl ∷ [] })
unfolding new_id
new_id_next ns mdl free few =
    let empty : Mpmc.dequeue ns.ns_ids ≡ refused =
      unfold Mpmc.dequeue Mpmc.try_lock in ground (arith, free.unlocked, free.same, free.word) in
    let id : u32 (length ns.private_state) ≡ length ns.private_state = omega arith in
    rw (new_id, empty, id) refl

get_module_at :
    (ns : Namespace) (i mdl : ℕ)
    → get_elem? ns.private_state i ≡ some mdl
    → mdl ≢ 0
    → get_module ns i ≡ some mdl
unfolding get_module
get_module_at ns i mdl e ne =
    let real : (mdl == 0) ≡ false = ground arith in rw (get_module, e, real) refl

get_module_same :
    (ns ns' : Namespace) (i : ℕ)
    → get_elem? ns'.private_state i ≡ get_elem? ns.private_state i
    → get_module ns' i ≡ get_module ns i
unfolding get_module
get_module_same ns ns' i e = rw (get_module, e) refl

-- the table of the keys, as the text of a key sees it
module _ (texts : ℕ → List ℕ) where
  -- A free bucket at place `k` behind the key's hash, and no bucket of the key before it.
  pub record FreeAt (m : UnorderedMap StringMapBucket) (key k : ℕ) : Type 0 where
    pub in_table : k < m.num_buckets
    pub in_window : k < rounds (iters m)
    pub before :
        (j : ℕ)
        → j < k
        → let c = (hash (texts key) + j) % m.num_buckets in
          (entry m.bitmap c ≢ 0) × Misses (string_map_bucket texts m.base_region) m (texts key) c
    pub free : entry m.bitmap ((hash (texts key) + k) % m.num_buckets) ≡ 0

  insert_string-find :
      (m : UnorderedMap StringMapBucket) (key value k : ℕ)
      → WellFormed m
      → Reaches m.base_region key
      → key ≢ m.base_region
      → FreeAt m key k
      → (m' : UnorderedMap StringMapBucket) × (insert_string texts m key value ≡ done (true, m'))
        × (find_string texts m' (texts key) ≡ done (some value))
  unfolding insert_string find_string bucket_init
  insert_string-find m key value k w reach ne free =
      let bucket = bucket_init key value m.base_region in
      let ops = string_map_bucket texts m.base_region in
      let text : ops.get_key bucket ≡ texts key =
        get_key-init texts key value m.base_region reach ne in
      let (m', run, w', base, entry_1, bucket_at_c, found, others) =
        insert-find ops m bucket k w free.in_table free.in_window (rw text free.before)
          (rw text free.free) ((text_eq_iff (ops.get_key bucket) (ops.get_key bucket)).1 refl) in
      (
        m',
        run,
        ap (λ region. find (string_map_bucket texts region) m' (texts key)) base
            ∙ ap (find ops m') (sym text)
            ∙ found,
      )

  module _ (module_id : ℕ → List ℕ) where
    -- In a namespace in which no id was given back, with less than 2^32 modules, whose table has
    -- a free bucket within the window of a key, and before it only buckets of other texts than
    -- that of the key, where the key is in reach of the base of the table, but not at the base,
    -- AddKey gives a module, which is not a null pointer, the next id; then GetNamespaceID of the
    -- text of the key is that id, GetModule of the id is the module, and GetModule of each other
    -- id is as before.
    pub add_key-get :
        (ns : Namespace) (key mdl k : ℕ)
        → NoneFree ns
        → length ns.private_state < u32_mod
        → WellFormed ns.key_to_ns_id
        → Reaches ns.key_to_ns_id.base_region key
        → key ≢ ns.key_to_ns_id.base_region
        → FreeAt ns.key_to_ns_id key k
        → mdl ≢ 0
        → let id = length ns.private_state in
          (ns' : Namespace) × (add_key texts module_id ns key mdl ≡ done (id, ns'))
          × (get_namespace_id texts ns' (texts key) ≡ done (some id))
          × (get_module ns' id ≡ some mdl)
          × ((i : ℕ) → i ≢ id → get_module ns' i ≡ get_module ns i)
    unfolding add_key get_namespace_id
    add_key-get ns key mdl k free few w reach ne room real =
        let id = length ns.private_state in
        let state = ns.private_state ++ mdl ∷ [] in
        let (m', run, found) = insert_string-find ns.key_to_ns_id key id k w reach ne room in
        let ns' : Namespace = record ns {
          private_state = state;
          key_to_ns_id = m';
          instances = push_instance ns.instances (module_id mdl) mdl;
        } in
        (
          ns',
          rw (new_id_next ns mdl free few, run) refl,
          found,
          get_module_at ns' id mdl (get_elem?-append_last ns.private_state mdl id refl) real,
          λ i other. get_module_same ns ns' i (get_elem?-append_ne ns.private_state mdl i other),
        )
