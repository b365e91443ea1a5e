-- ===== src/Tests/Maps.antt =====
-- Offsets and the completion map at concrete inputs.
use labstor.Base.{
  ℕ, ◌+◌, ◌-◌, ◌/◌, ◌≡◌, refl, ◌≢◌, none, some, [], ◌∷◌, arith, ◌==◌, if◌then◌else◌, done, refused,
  ◌>>=◌,
}
use labstor.Region.{region_sub}
use labstor.Request.{Store}
use labstor.RequestMap.{RequestMap, vacant, insert, find_and_remove}
use labstor.RequestMap.View.{IsValid, pending, home, insert_lem, find_and_remove_lem}
use labstor.RequestMap.Keys.{find-insert-insert}

-- the request at address 1000 + 16 k has the number k + 5
abbrev pub requests : Store
requests rq = record { req_id = (rq - 1000) / 16 + 5; ns_id = 1; code = 0; op = 0 }

abbrev pub two_buckets : RequestMap
two_buckets = record {
  num_buckets = 2;
  buckets = vacant ∷ vacant ∷ [];
  base_region = 1000;
  header = 1000;
}

-- the request at 1016 waits in bucket 0
abbrev one_taken : RequestMap
one_taken = record two_buckets { buckets = 16 ∷ vacant ∷ [] }

insert-run : insert requests two_buckets 1016 ≡ done one_taken
unfolding insert region_sub
insert-run = refl

insert_lem_example :
    (pending two_buckets (home two_buckets (requests 1016).req_id) ≡ none
      → (m' : RequestMap) × (insert requests two_buckets 1016 ≡ done m')
        × IsValid m'
        × (m'.num_buckets ≡ 2)
        × (m'.base_region ≡ 1000)
        × ((j : ℕ)
            → pending m' j ≡ (
                if home two_buckets (requests 1016).req_id == j
                then some 1016
                else pending two_buckets j)))
    × (pending two_buckets (home two_buckets (requests 1016).req_id) ≢ none
        → insert requests two_buckets 1016 ≡ refused)
insert_lem_example = insert_lem requests two_buckets 1016 (omega arith) (omega arith)

find_and_remove_lem_example :
    ((rq : ℕ)
      → pending one_taken (home one_taken 6) ≡ some rq
      → (m' : RequestMap) × (find_and_remove one_taken 6 ≡ done (rq, m'))
        × IsValid m'
        × (m'.num_buckets ≡ 2)
        × (m'.base_region ≡ 1000)
        × ((j : ℕ) → pending m' j ≡ (if home one_taken 6 == j then none else pending one_taken j)))
    × (pending one_taken (home one_taken 6) ≡ none → find_and_remove one_taken 6 ≡ refused)
find_and_remove_lem_example = find_and_remove_lem one_taken 6 (omega arith)

find-insert-insert_example :
    (m' a b : RequestMap) × (insert requests two_buckets 1000 >>= (λ n. insert requests n 1016)
      ≡ done m')
    × (find_and_remove m' 5 ≡ done (1000, a))
    × (find_and_remove a 6 ≡ done (1016, b))
find-insert-insert_example =
    find-insert-insert requests two_buckets (omega arith) {rq = 1000} (omega arith) refl
      {rq' = 1016} (omega arith) refl (omega arith) (omega arith)
