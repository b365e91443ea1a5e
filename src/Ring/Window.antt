-- ===== src/Ring/Window.antt =====
-- What a valid ring holds: `depth` slots from the slot of `dequeued` on, going round at
-- `max_depth`.
use native.Mathlib.Nat.{mod-add-mod, mod-eq_of_lt, mod-mod_of_dvd, dvd_of_mod-eq-zero}
use labstor.Base.{
  ℕ, zero, suc, ◌+◌, ◌-◌, ◌%◌, ◌≤◌, ◌<◌, ◌≡◌, refl, sym, ap, ◌∙◌, ◌≢◌, ◌⊎◌, inl, inr, List, [], ◌∷◌,
  ◌++◌, arith, length, get_or, set, get_or-set_self, get_or-set_ne, u32_mod, u32, sub32,
  mod-ne_of_near,
}
use labstor.Ring.{Ring}

-- the entries of `n` counters from `c` on, in a ring of `cap` slots
abbrev pub entries : List ℕ → ℕ → ℕ → ℕ → List ℕ
entries buf cap c zero = []
entries buf cap c (suc n) = get_or buf (c % cap) 0 ∷ entries buf cap (c + 1) n

abbrev pub contents : Ring → List ℕ
contents r = entries r.queue r.max_depth r.dequeued (sub32 r.enqueued r.dequeued)

length-entries : (buf : List ℕ) (cap c n : ℕ) → length (entries buf cap c n) ≡ n
length-entries buf cap c zero = refl
length-entries buf cap c (suc n) = omega (arith, length-entries buf cap (c + 1) n)

pub length-contents : (r : Ring) → length (contents r) ≡ sub32 r.enqueued r.dequeued
length-contents r = length-entries r.queue r.max_depth r.dequeued (sub32 r.enqueued r.dequeued)

-- The code tests `enqueued_ == dequeued_` where `entries` matches on a number.
pub entries_of_pos :
    (buf : List ℕ) (cap c n : ℕ)
    → 0 < n
    → entries buf cap c n ≡ get_or buf (c % cap) 0 ∷ entries buf cap (c + 1) (n - 1)
entries_of_pos buf cap c zero pos = elim pos [ ]
entries_of_pos buf cap c (suc n) pos = let e : suc n - 1 ≡ n = omega arith in rw e

-- Only the slots of the counters matter.
pub entries_congr :
    (buf : List ℕ) (cap c c' n : ℕ)
    → c % cap ≡ c' % cap
    → entries buf cap c n ≡ entries buf cap c' n
entries_congr buf cap c c' zero e = refl
entries_congr buf cap c c' (suc n) e =
    let next : (c + 1) % cap ≡ (c' + 1) % cap =
      sym (mod-add-mod c cap 1) ∙ ap (λ t. (t + 1) % cap) e ∙ mod-add-mod c' cap 1 in
    cc (e, entries_congr buf cap (c + 1) (c' + 1) n next)

-- A write to the slot behind the entries adds one to them.
pub entries-set :
    (buf : List ℕ) (cap x n c i : ℕ)
    → cap ≤ length buf
    → n < cap
    → i ≡ (c + n) % cap
    → entries (set buf i x) cap c (suc n) ≡ entries buf cap c n ++ x ∷ []
entries-set buf cap x zero c i hs hn e =
    let here : c % cap ≡ i = ground arith in ground (arith, get_or-set_self buf (c % cap) x 0)
entries-set buf cap x (suc n) c i hs hn e =
    let apart : i ≢ c % cap =
      λ same. mod-ne_of_near cap c (c + suc n) (omega arith) (omega arith) (sym same ∙ e) in
    let rest =
      entries-set buf cap x n (c + 1) i hs (omega arith) (e ∙ ap (λ t. t % cap) (omega arith)) in
    cc (get_or-set_ne buf i (c % cap) x 0 apart, rest)

pub get_or-entries :
    (buf : List ℕ) (cap i n c : ℕ)
    → i < n
    → get_or (entries buf cap c n) i 0 ≡ get_or buf ((c + i) % cap) 0
get_or-entries buf cap i zero c hi = elim hi [ ]
get_or-entries buf cap zero (suc n) c hi = ap (λ t. get_or buf (t % cap) 0) (omega arith)
get_or-entries buf cap (suc i) (suc n) c hi =
    get_or-entries buf cap i n (c + 1) (omega arith)
    ∙ ap (λ t. get_or buf (t % cap) 0) (omega arith)

-- The wrap of a counter keeps its slot if the depth divides 2^32, or if there is no wrap.
pub slot-u32 :
    (r : Ring) (c : ℕ)
    → (u32_mod % r.max_depth ≡ 0) ⊎ (c < u32_mod)
    → u32 c % r.max_depth ≡ c % r.max_depth
slot-u32 r c (inl d) = mod-mod_of_dvd r.max_depth c (dvd_of_mod-eq-zero r.max_depth d)
slot-u32 r c (inr lt) = ap (λ t. t % r.max_depth) (mod-eq_of_lt lt)
