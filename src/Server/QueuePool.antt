-- ===== src/Server/QueuePool.antt =====
-- The pool of queue pairs of include/labstor/userspace/types/queue_pool.h, and the queue ids of
-- include/labstor/types/data_structures/queue_pair.h and shmem_qtok.h. A pair is known by its
-- address; `refused` is the exception INVALID_QP_QUERY.
pub mod Found
use labstor.Base.{
  ℕ, zero, suc, ◌+◌, ◌-◌, ◌*◌, ◌/◌, ◌%◌, ◌^◌, ◌≤◌, ◌<◌, ◌≡◌, refl, sym, ap, ap₂, ◌∙◌, ◌≢◌, ◌↔◌, ◌⊎◌,
  inl, inr, Bool, true, false, ◌&&◌, ◌||◌, not, Option, none, some, List, [], ◌∷◌, ◌++◌, arith, ltb,
  leb, ◌==◌, if◌then◌else◌, ==→eq, eq→==, Bool-cases, Option-cases, List-cases, length, get_elem?,
  get_or, set, replicate, length-append, length-set, length-replicate, get_elem?-eq-get_or,
  get_or-set_self, get_or-set_ne, get_or-replicate, get_elem?_of_lt, get_elem?-set_self,
  get_elem?-set_ne, get_elem?-set_cases, get_elem?-append_left, get_elem?-append_last, u32_mod,
  u64_mod, u32, sub32, sub64, mod-ne_of_near, Call, done, refused, fault, ◌>>=◌, map_call,
  in_bounds, along_some, bind-done, eq-cases, lt_of_get_elem?, get_or_of_get_elem?,
}
use labstor.Region.{sign_extend}
use labstor.Request.{Qid}
use labstor.Text.{hash}

-- `qps_`, the pairs by their type and flags, and the types by their names
pub record Pool : Type 0 where
  pub qp_type_to_id : List (List ℕ × ℕ)
  pub qps : List (List (List ℕ))

abbrev pub same_text : List ℕ → List ℕ → Bool
same_text [] [] = true
same_text (x ∷ xs) (y ∷ ys) = let rest = same_text xs ys in (x == y) && rest
same_text xs ys = false

abbrev pub type_id : List (List ℕ × ℕ) → List ℕ → Option ℕ
type_id [] name = none
type_id ((key, id) ∷ rest) name =
    let found = type_id rest name in if same_text key name then some id else found

-- `emplace` of a name that is there changes nothing, but the vector grows in any case.
unfoldable pub register_queue_pair_type : Pool → List ℕ → ℕ → ℕ × Pool
register_queue_pair_type p name possible_flags =
    let qps = p.qps ++ replicate (possible_flags + 1) [] ∷ [] in
    elim (type_id p.qp_type_to_id name) [
      | some id ↦ (id, record p { qps = qps })
      | none ↦ (
        length p.qp_type_to_id,
        record { qp_type_to_id = (name, length p.qp_type_to_id) ∷ p.qp_type_to_id; qps = qps },
      )
    ]

-- `operator[]` puts 0 under a name that is not there.
unfoldable pub get_queue_pair_type_id : Pool → List ℕ → ℕ × Pool
get_queue_pair_type_id p name = elim (type_id p.qp_type_to_id name) [
  | some id ↦ (id, p)
  | none ↦ (0, record p { qp_type_to_id = (name, 0) ∷ p.qp_type_to_id })
]

-- the pairs of a type and flags, behind the two tests that the functions share
unfoldable pub pairs_of : Pool → ℕ → ℕ → Call (List ℕ)
pairs_of p kind flags = elim (get_elem? p.qps kind) [
  | none ↦ refused
  | some by_flags ↦ elim (get_elem? by_flags flags) [ none ↦ refused | some pairs ↦ done pairs ]
]

-- `reserve` changes no pair.
unfoldable pub reserve_queues : Pool → ℕ → ℕ → ℕ → Call Pool
reserve_queues p kind flags n = pairs_of p kind flags >>= λ pairs. done p

unfoldable pub register_queue_pair : Pool → Qid → ℕ → Call Pool
register_queue_pair p qid qp = pairs_of p qid.kind qid.flags >>= λ pairs. done (record p {
  qps = set p.qps qid.kind (set (get_or p.qps qid.kind []) qid.flags (pairs ++ qp ∷ []));
})

-- The `int` offset is compared as a `size_t`, so a negative one is past every vector.
unfoldable pub get_queue_pair : Pool → ℕ → ℕ → ℕ → Call ℕ
get_queue_pair p kind flags off = pairs_of p kind flags >>= λ pairs.
    if leb (length pairs) (sign_extend off)
    then refused
    else in_bounds (get_elem? pairs (sign_extend off))

unfoldable pub get_queue_pair_by_qid : Pool → Qid → Call ℕ
unfolding get_queue_pair
get_queue_pair_by_qid p qid = get_queue_pair p qid.kind qid.flags qid.cnt

unfoldable pub get_num_queue_pairs : Pool → ℕ → ℕ → Call ℕ
get_num_queue_pairs p kind flags = pairs_of p kind flags >>= λ pairs. done (u32 (length pairs))

-- `GetQID`: `cnt_` keeps 16 bits.
unfoldable pub get_qid : ℕ → ℕ → ℕ → ℕ → ℕ → Call Qid
get_qid kind flags hash' num_qps pid =
    if num_qps == 0
    then fault
    else done (record { flags = flags; kind = kind; cnt = (hash' % num_qps) % 2 ^ 16; pid = pid })

-- `num_qps` queues, and the hash of the text times the namespace's id
unfoldable pub get_qid_of_text : ℕ → ℕ → List ℕ → ℕ → ℕ → ℕ → Call Qid
unfolding get_qid
get_qid_of_text kind flags str ns_id num_qps pid =
    get_qid kind flags (u32 (hash str * ns_id)) num_qps pid

-- `labstor_qid_t::Hash`
unfoldable pub qid_hash : Qid → ℕ
qid_hash q = (((q.flags * 2 ^ 8 + q.kind) * 2 ^ 8 + q.pid % 2 ^ 16) * 2 ^ 16 + q.cnt) % u64_mod

-- `operator ==`, which does not compare the types
unfoldable pub qid_eq : Qid → Qid → Bool
qid_eq a b = (b.flags == a.flags) && (b.pid == a.pid) && (b.cnt == a.cnt)
