-- ===== src/WorkQueue/Order.antt =====
-- A work queue keeps its queue pairs in the order in which they were assigned.
use labstor.Base.{
  ℕ, zero, suc, ◌+◌, ◌≤◌, ◌<◌, ◌≡◌, refl, ap, ◌↔◌, none, some, List, [], ◌∷◌, ◌++◌, arith, length,
  get_elem?, get_or, set, length-set, u32_mod, u32, done, refused,
}
use labstor.WorkQueue.{WorkQueue, enqueue, peek}

pub record IsValid (w : WorkQueue) : Type 0 where
  pub within : w.enqueued ≤ w.max_depth
  pub storage : w.max_depth ≤ length w.queue
  pub small : w.max_depth < u32_mod

-- the first `n` slots
abbrev pub prefix : List ℕ → ℕ → List ℕ
prefix qs zero = []
prefix [] (suc n) = []
prefix (q ∷ qs) (suc n) = q ∷ prefix qs n

abbrev pub contents : WorkQueue → List ℕ
contents w = prefix w.queue w.enqueued

pub length-prefix : (qs : List ℕ) (n : ℕ) → n ≤ length qs → length (prefix qs n) ≡ n
length-prefix qs zero h = refl
length-prefix [] (suc n) h = absurd (omega arith)
length-prefix (q ∷ qs) (suc n) h = ap suc (length-prefix qs n (omega arith))

prefix-set :
    (qs : List ℕ) (n v : ℕ) → n < length qs → prefix (set qs n v) (suc n) ≡ prefix qs n ++ v ∷ []
prefix-set [] n v h = absurd (omega arith)
prefix-set (q ∷ qs) zero v h = refl
prefix-set (q ∷ qs) (suc n) v h = ap (λ l. q ∷ l) (prefix-set qs n v (omega arith))

get_elem?-prefix :
    (qs : List ℕ) (n i : ℕ)
    → n ≤ length qs
    → i < n
    → get_elem? (prefix qs n) i ≡ some (get_or qs i 0)
get_elem?-prefix qs zero i h hi = absurd (omega arith)
get_elem?-prefix [] (suc n) i h hi = absurd (omega arith)
get_elem?-prefix (q ∷ qs) (suc n) zero h hi = refl
get_elem?-prefix (q ∷ qs) (suc n) (suc i) h hi = get_elem?-prefix qs n i (omega arith) (omega arith)

get_elem?-prefix_ge : (qs : List ℕ) (n i : ℕ) → n ≤ i → get_elem? (prefix qs n) i ≡ none
get_elem?-prefix_ge qs zero i h = refl
get_elem?-prefix_ge [] (suc n) i h = refl
get_elem?-prefix_ge (q ∷ qs) (suc n) zero h = absurd (omega arith)
get_elem?-prefix_ge (q ∷ qs) (suc n) (suc i) h = get_elem?-prefix_ge qs n i (omega arith)

-- `Enqueue` on a valid queue puts the pair last and keeps the queue valid, or is refused if there
-- are `max_depth` of them.
enqueue-contents :
    (w : WorkQueue) (qp : ℕ)
    → IsValid w
    → (w.enqueued < w.max_depth
        → (w' : WorkQueue) × (enqueue w qp ≡ done w')
          × IsValid w'
          × (contents w' ≡ contents w ++ qp ∷ []))
      × (w.enqueued ≡ w.max_depth → enqueue w qp ≡ refused)
unfolding enqueue
enqueue-contents w qp v = (
  λ room. (
    record w { queue = set w.queue w.enqueued qp; enqueued = u32 (w.enqueued + 1) },
    ground arith,
    ground (arith, length-set w.queue w.enqueued qp),
    (let e : u32 (w.enqueued + 1) ≡ suc w.enqueued = omega arith in
        rw e (prefix-set w.queue w.enqueued qp (omega arith))),
  ),
  λ full. ground arith,
)

-- `Peek` reads the `i`-th pair, and is refused for every other `i`, the patterns of negative
-- numbers among them.
pub peek_iff :
    (w : WorkQueue) (i : ℕ)
    → IsValid w
    → ((qp : ℕ) → (peek w i ≡ done qp) ↔ (get_elem? (contents w) i ≡ some qp))
      × ((peek w i ≡ refused) ↔ (get_elem? (contents w) i ≡ none))
unfolding peek
peek_iff w i v = (
  λ qp.
      ground
        (arith, get_elem?-prefix w.queue w.enqueued i, get_elem?-prefix_ge w.queue w.enqueued i),
  ground (arith, get_elem?-prefix w.queue w.enqueued i, get_elem?-prefix_ge w.queue w.enqueued i),
)
