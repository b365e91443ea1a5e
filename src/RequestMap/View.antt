-- ===== src/RequestMap/View.antt =====
-- What a completion map means: for each bucket, the request that waits in it.
use labstor.Base.{
  ℕ, ◌%◌, ◌≤◌, ◌<◌, ◌≡◌, ◌≢◌, ◌==◌, if◌then◌else◌, List, length, get_or, set, length-set,
  get_or-set_self, get_or-set_ne, done, refused, Option, none, some, arith, refl,
}
use labstor.Region.{region_add, region_sub, Reaches, region_add-sub_of_reach, region_sub-lt}
use labstor.Request.{Store}
use labstor.RequestMap.{RequestMap, vacant, insert, find_and_remove}

pub record IsValid (m : RequestMap) : Type 0 where
  pub positive : 0 < m.num_buckets
  pub storage : m.num_buckets ≤ length m.buckets

abbrev pub pending : RequestMap → ℕ → Option ℕ
pending m b =
    if get_or m.buckets b vacant == vacant
    then none
    else some (region_add (get_or m.buckets b vacant) m.base_region)

abbrev pub home : RequestMap → ℕ → ℕ
home m key = key % m.num_buckets

get_or-set :
    (xs : List ℕ) (i j v d : ℕ)
    → i < length xs
    → get_or (set xs i v) j d ≡ (if i == j then v else get_or xs j d)
get_or-set xs i j v d h = ground (arith, get_or-set_self xs i v d, get_or-set_ne xs i j v d)

-- `Set` stores the request in the bucket of its id if that is vacant, and leaves the others; it is
-- refused if the bucket is taken. It never faults.
pub insert_lem :
    (st : Store) (m : RequestMap) (rq : ℕ)
    → IsValid m
    → Reaches m.base_region rq
    → (pending m (home m (st rq).req_id) ≡ none
        → (m' : RequestMap) × (insert st m rq ≡ done m')
          × IsValid m'
          × (m'.num_buckets ≡ m.num_buckets)
          × (m'.base_region ≡ m.base_region)
          × ((j : ℕ)
              → pending m' j ≡ (if home m (st rq).req_id == j then some rq else pending m j)))
      × (pending m (home m (st rq).req_id) ≢ none → insert st m rq ≡ refused)
unfolding insert
insert_lem st m rq v r = (
  λ free. (
    record m { buckets = set m.buckets (home m (st rq).req_id) (region_sub rq m.base_region) },
    ground arith,
    ground (arith, length-set m.buckets (home m (st rq).req_id) (region_sub rq m.base_region)),
    refl,
    refl,
    λ j. ground (
      arith,
      get_or-set m.buckets (home m (st rq).req_id) j (region_sub rq m.base_region) vacant,
      region_add-sub_of_reach m.base_region rq r,
      region_sub-lt m.base_region rq r,
    ),
  ),
  λ taken. ground arith,
)

-- `FindAndRemove` takes out what waits in the bucket of the key, whatever its id, and leaves the
-- others; it is refused if the bucket is vacant. It never faults.
pub find_and_remove_lem :
    (m : RequestMap) (key : ℕ)
    → IsValid m
    → ((rq : ℕ)
        → pending m (home m key) ≡ some rq
        → (m' : RequestMap) × (find_and_remove m key ≡ done (rq, m'))
          × IsValid m'
          × (m'.num_buckets ≡ m.num_buckets)
          × (m'.base_region ≡ m.base_region)
          × ((j : ℕ) → pending m' j ≡ (if home m key == j then none else pending m j)))
      × (pending m (home m key) ≡ none → find_and_remove m key ≡ refused)
unfolding find_and_remove
find_and_remove_lem m key v = (
  λ rq waits. (
    record m { buckets = set m.buckets (home m key) vacant },
    ground arith,
    ground (arith, length-set m.buckets (home m key) vacant),
    refl,
    refl,
    λ j. ground (arith, get_or-set m.buckets (home m key) j vacant vacant),
  ),
  λ free. ground arith,
)
