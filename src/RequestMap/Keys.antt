-- ===== src/RequestMap/Keys.antt =====
-- Which requests a completion map tells apart.
use labstor.Base.{mod-ne_of_near, ℕ, ◌+◌, ◌%◌, ◌<◌, ◌≡◌, ◌≢◌, none, some, done, ◌>>=◌, arith}
use labstor.Region.{Reaches}
use labstor.Request.{Store}
use labstor.RequestMap.{RequestMap, insert, find_and_remove}
use labstor.RequestMap.View.{IsValid, pending, home, insert_lem, find_and_remove_lem}

module _ (st : Store) (m : RequestMap) (v : IsValid m) {rq : ℕ} (r : Reaches m.base_region rq)
    (free : pending m (home m (st rq).req_id) ≡ none) where
  -- What was stored under an id is found under every key with the same remainder, that id among
  -- them, and the map is as before: `FindAndRemove` does not compare the key with the id of the
  -- request.
  find-insert :
      (key : ℕ)
      → key % m.num_buckets ≡ (st rq).req_id % m.num_buckets
      → (m' : RequestMap) × (insert st m rq >>= (λ n. find_and_remove n key) ≡ done (rq, m'))
        × ((j : ℕ) → pending m' j ≡ pending m j)
  find-insert key same =
      let (m₁, run₁, v₁, n₁, b₁, p₁) = (insert_lem st m rq v r).0 free in
      let (m₂, run₂, v₂, n₂, b₂, p₂) =
        (find_and_remove_lem m₁ key v₁).0 rq (ground (arith, p₁ (home m₁ key))) in
      (m₂, rw run₁ run₂, λ j. ground (arith, p₁ j, p₂ j))

  module _ {rq' : ℕ} (r' : Reaches m.base_region rq')
      (free' : pending m (home m (st rq').req_id) ≡ none) where
    stored_twice :
        home m (st rq).req_id ≢ home m (st rq').req_id
        → (m' : RequestMap) × (insert st m rq >>= (λ n. insert st n rq') ≡ done m')
          × IsValid m'
          × (m'.num_buckets ≡ m.num_buckets)
          × (pending m' (home m (st rq).req_id) ≡ some rq)
          × (pending m' (home m (st rq').req_id) ≡ some rq')
    stored_twice differ =
        let (m₁, run₁, v₁, n₁, b₁, p₁) = (insert_lem st m rq v r).0 free in
        let (m₂, run₂, v₂, n₂, b₂, p₂) =
          (insert_lem st m₁ rq' v₁ (omega arith)).0 (ground (arith, p₁ (home m (st rq').req_id))) in
        (
          m₂,
          rw run₁ run₂,
          v₂,
          omega arith,
          ground (arith, p₁ (home m (st rq).req_id), p₂ (home m (st rq).req_id)),
          ground (arith, p₁ (home m (st rq').req_id), p₂ (home m (st rq').req_id)),
        )

    -- Two requests in reach of the base of a valid map, whose buckets are vacant and whose ids
    -- are less than num_buckets apart, the first the smaller, are both stored, and each is then
    -- taken out under its own id.
    pub find-insert-insert :
        (st rq).req_id < (st rq').req_id
        → (st rq').req_id < (st rq).req_id + m.num_buckets
        → (m' a b : RequestMap) × (insert st m rq >>= (λ n. insert st n rq') ≡ done m')
          × (find_and_remove m' (st rq).req_id ≡ done (rq, a))
          × (find_and_remove a (st rq').req_id ≡ done (rq', b))
    find-insert-insert lt near =
        let ne = mod-ne_of_near m.num_buckets (st rq).req_id (st rq').req_id lt near in
        let (m₂, run, v₂, n₂, at, at') = stored_twice ne in
        let (a, run_a, v_a, n_a, b_a, p_a) =
          (find_and_remove_lem m₂ (st rq).req_id v₂).0 rq (ground arith) in
        let (b, run_b, v_b, n_b, b_b, p_b) =
          (find_and_remove_lem a (st rq').req_id v_a).0 rq'
            (ground (arith, p_a (home m (st rq').req_id))) in
        (m₂, a, b, run, run_a, run_b)
