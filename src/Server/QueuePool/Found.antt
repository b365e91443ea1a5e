-- ===== src/Server/QueuePool/Found.antt =====
-- Registered queue pairs are found again.
use labstor.Base.{
  ℕ, ◌%◌, ◌^◌, ◌≤◌, ◌<◌, ◌≡◌, refl, sym, ◌∙◌, ◌≢◌, ◌⊎◌, inl, inr, false, some, List, [], ◌∷◌, ◌++◌,
  arith, leb, ◌==◌, if◌then◌else◌, ==→eq, Bool-cases, Option-cases, length, get_elem?, get_or, set,
  get_elem?_of_lt, get_elem?-set_self, get_elem?-set_ne, get_elem?-append_left,
  get_elem?-append_last, u32, done, refused, in_bounds, bind-done, eq-cases, lt_of_get_elem?,
  get_or_of_get_elem?,
}
use labstor.Region.{sign_extend}
use labstor.Request.{Qid}
use labstor.Server.QueuePool.{
  Pool, pairs_of, register_queue_pair, get_queue_pair, get_queue_pair_by_qid, get_num_queue_pairs,
  get_qid,
}

-- What the two tests let through are the two vectors.
pairs_of-elems :
    (p : Pool) (kind flags : ℕ) (ps : List ℕ)
    → pairs_of p kind flags ≡ done ps
    → (by_flags : List (List ℕ)) × (get_elem? p.qps kind ≡ some by_flags)
      × (get_elem? by_flags flags ≡ some ps)
unfolding pairs_of
pairs_of-elems p kind flags ps h = elim (Option-cases (get_elem? p.qps kind)) [
  | inl none_there ↦ absurd (cc (rw (pairs_of, none_there) at h))
  | inr (by_flags, e) ↦ elim (Option-cases (get_elem? by_flags flags)) [
    | inl none_there ↦ absurd (cc (rw (pairs_of, e, none_there) at h))
    | inr (ps', e') ↦
        let same : done ps' ≡ done ps = rw (pairs_of, e, e') at h in (by_flags, e, e' ∙ cc (same))
  ]
]

pairs_of_elem :
    (p : Pool) (kind flags : ℕ) (by_flags : List (List ℕ)) (ps : List ℕ)
    → get_elem? p.qps kind ≡ some by_flags
    → get_elem? by_flags flags ≡ some ps
    → pairs_of p kind flags ≡ done ps
unfolding pairs_of
pairs_of_elem p kind flags by_flags ps e e' = rw (pairs_of, e, e') refl

pairs_of_same :
    (p p' : Pool) (kind flags : ℕ) (bf bf' : List (List ℕ))
    → get_elem? p.qps kind ≡ some bf
    → get_elem? p'.qps kind ≡ some bf'
    → get_elem? bf' flags ≡ get_elem? bf flags
    → pairs_of p' kind flags ≡ pairs_of p kind flags
unfolding pairs_of
pairs_of_same p p' kind flags bf bf' e e' same = rw (pairs_of, e, e', same) refl

-- What a registration leaves in the pool.
record Registered (p : Pool) (qid : Qid) (qp : ℕ) (ps : List ℕ) (p' : Pool) : Type 0 where
  here : pairs_of p' qid.kind qid.flags ≡ done (ps ++ qp ∷ [])
  there :
      (kind flags : ℕ)
      → (kind ≢ qid.kind) ⊎ (flags ≢ qid.flags)
      → pairs_of p' kind flags ≡ pairs_of p kind flags

other_row :
    (p : Pool) (kind flags row col : ℕ) (bf : List (List ℕ)) (ps : List ℕ)
    → get_elem? p.qps row ≡ some bf
    → (kind ≢ row) ⊎ (flags ≢ col)
    → pairs_of (record p { qps = set p.qps row (set bf col ps) }) kind flags ≡ pairs_of p kind flags
unfolding pairs_of
other_row p kind flags row col bf ps e other =
    let new = set bf col ps in
    let p' : Pool = record p { qps = set p.qps row new } in
    elim (Bool-cases (kind == row)) [
      | inl same ↦
          let k : kind ≡ row = ==→eq kind row same in
          let up : get_elem? p'.qps kind ≡ some new =
            rw k (get_elem?-set_self p.qps row new (lt_of_get_elem? p.qps row bf e)) in
          pairs_of_same p p' kind flags bf new (rw k e) up
            (get_elem?-set_ne bf col flags ps (ground arith))
      | inr differ ↦ rw (pairs_of, get_elem?-set_ne p.qps row kind new (ground arith)) refl
    ]

register_lem :
    (p : Pool) (qid : Qid) (qp : ℕ) (ps : List ℕ)
    → pairs_of p qid.kind qid.flags ≡ done ps
    → (p' : Pool) × (register_queue_pair p qid qp ≡ done p') × Registered p qid qp ps p'
unfolding register_queue_pair
register_lem p qid qp ps h =
    let (by_flags, e, e') = pairs_of-elems p qid.kind qid.flags ps h in
    let row : get_or p.qps qid.kind [] ≡ by_flags =
      get_or_of_get_elem? p.qps qid.kind by_flags [] e in
    let new = set by_flags qid.flags (ps ++ qp ∷ []) in
    let p' : Pool = record p { qps = set p.qps qid.kind new } in
    let up = get_elem?-set_self p.qps qid.kind new (lt_of_get_elem? p.qps qid.kind by_flags e) in
    let up' =
      get_elem?-set_self by_flags qid.flags (ps ++ qp ∷ [])
        (lt_of_get_elem? by_flags qid.flags ps e') in
    (
      p',
      rw (register_queue_pair, h, row) refl,
      record {
        here = pairs_of_elem p' qid.kind qid.flags new (ps ++ qp ∷ []) up up';
        there = λ kind flags. other_row p kind flags qid.kind qid.flags by_flags (ps ++ qp ∷ []) e;
      },
    )

get_of_elem :
    (p : Pool) (kind flags off : ℕ) (ps : List ℕ) (a : ℕ)
    → pairs_of p kind flags ≡ done ps
    → get_elem? ps (sign_extend off) ≡ some a
    → get_queue_pair p kind flags off ≡ done a
unfolding get_queue_pair
get_of_elem p kind flags off ps a h e =
    let within = lt_of_get_elem? ps (sign_extend off) a e in
    let inside : leb (length ps) (sign_extend off) ≡ false = ground arith in
    rw (get_queue_pair, h, inside, e) refl

elem_of_get :
    (p : Pool) (kind flags off a : ℕ)
    → get_queue_pair p kind flags off ≡ done a
    → (ps : List ℕ) × (pairs_of p kind flags ≡ done ps) × (get_elem? ps (sign_extend off) ≡ some a)
unfolding get_queue_pair
elem_of_get p kind flags off a h =
    let (ps, e, e') =
      bind-done (pairs_of p kind flags)
        (λ pairs.
          if leb (length pairs) (sign_extend off)
          then refused
          else in_bounds (get_elem? pairs (sign_extend off)))
        a h in
    (
      ps,
      e,
      elim (Option-cases (get_elem? ps (sign_extend off))) [
        | inl past ↦ ground arith
        | inr (b, at) ↦ ground arith
      ],
    )

-- On a pool that has vectors for the pair's type and flags, where the pair's number is the number
-- of the pairs there before it, RegisterQueuePair is accepted and puts the pair behind those,
-- GetQueuePair finds the pair by its id then, and every pair that was found by a type, flags and
-- an offset is found by them still.
pub register_pair-get :
    (p : Pool) (qid : Qid) (qp : ℕ) (ps : List ℕ)
    → pairs_of p qid.kind qid.flags ≡ done ps
    → length ps ≡ qid.cnt
    → qid.cnt < 2 ^ 16
    → (p' : Pool) × (register_queue_pair p qid qp ≡ done p')
      × (pairs_of p' qid.kind qid.flags ≡ done (ps ++ qp ∷ []))
      × (get_queue_pair_by_qid p' qid ≡ done qp)
      × ((kind flags off a : ℕ)
          → get_queue_pair p kind flags off ≡ done a
          → get_queue_pair p' kind flags off ≡ done a)
unfolding get_queue_pair_by_qid
register_pair-get p qid qp ps h number small =
    let (p', run, r) = register_lem p qid qp ps h in
    let off : sign_extend qid.cnt ≡ qid.cnt = ground arith in
    let new : get_elem? (ps ++ qp ∷ []) (sign_extend qid.cnt) ≡ some qp =
      get_elem?-append_last ps qp (sign_extend qid.cnt) (off ∙ sym number) in
    (
      p',
      run,
      r.here,
      get_of_elem p' qid.kind qid.flags qid.cnt (ps ++ qp ∷ []) qp r.here new,
      λ kind flags off a found.
          let (qs, e, here) = elem_of_get p kind flags off a found in
          elim (eq-cases kind qid.kind) [
            | inl k ↦ elim (eq-cases flags qid.flags) [
              | inl f ↦
                  let same : done qs ≡ done ps = sym e ∙ rw (k, f) h in
                  let qs_ps : qs ≡ ps = cc (same) in
                  get_of_elem p' kind flags off (ps ++ qp ∷ []) a (rw (k, f) r.here) (
                    get_elem?-append_left ps (qp ∷ []) (sign_extend off)
                      (lt_of_get_elem? ps (sign_extend off) a (rw qs_ps at here))
                    ∙ rw qs_ps at here)
              | inr f ↦ get_of_elem p' kind flags off qs a (r.there kind flags (inr f) ∙ e) here
            ]
            | inr k ↦ get_of_elem p' kind flags off qs a (r.there kind flags (inl k) ∙ e) here
          ],
    )

-- Where a pool has from 1 up to 2^16 pairs of a type and flags, the id that GetQID makes for any
-- hash with the number of the pairs, as GetNumQueuePairs tells it, finds a pair: the one at the
-- hash modulo that number.
pub get_qid-found :
    (p : Pool) (kind flags hash pid : ℕ) (ps : List ℕ)
    → pairs_of p kind flags ≡ done ps
    → 0 < length ps
    → length ps ≤ 2 ^ 16
    → (n : ℕ) × (qid : Qid) × (a : ℕ) × (get_num_queue_pairs p kind flags ≡ done n)
      × (get_qid kind flags hash n pid ≡ done qid)
      × (get_elem? ps (hash % n) ≡ some a)
      × (get_queue_pair_by_qid p qid ≡ done a)
unfolding get_num_queue_pairs get_qid get_queue_pair_by_qid
get_qid-found p kind flags hash pid ps h some_there few =
    let n = length ps in
    let lt : hash % n < n = ground arith in
    let (a, at) = get_elem?_of_lt ps (hash % n) lt in
    let off : sign_extend ((hash % n) % 2 ^ 16) ≡ hash % n = ground arith in
    let num : u32 (length ps) ≡ n = omega arith in
    let more : (n == 0) ≡ false = ground arith in
    let qid : Qid = record { flags = flags; kind = kind; cnt = (hash % n) % 2 ^ 16; pid = pid } in
    (
      n,
      qid,
      a,
      rw (h, num) refl,
      rw more refl,
      at,
      get_of_elem p kind flags qid.cnt ps a h (rw off at),
    )
