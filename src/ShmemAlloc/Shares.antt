-- ===== src/ShmemAlloc/Shares.antt =====
-- The loop of `Init`: one share of the region for each core.
use mathlib.Core.Path.{subst}
use native.Mathlib.Nat.{mod-eq_of_lt}
use labstor.Base.{
  ℕ, zero, suc, ◌+◌, ◌*◌, ◌≤◌, ◌<◌, ◌≡◌, refl, ap, ap₂, ◌∙◌, some, List, [], ◌∷◌, arith, length,
  get_elem?, u64_mod, done, ◌>>=◌,
}
use labstor.Ring.Inv.{IsValid}
use labstor.PrivateAlloc
use labstor.PrivateAlloc.{PrivateAlloc}
use labstor.PrivateAlloc.Objects.{free, Fits, overhead}
use labstor.PrivateAlloc.Init.{init-objects, object_count}
use labstor.ShmemAlloc.{init_cores}

-- Of the `i`-th region of `size` bytes from `start` on, all objects of `unit` bytes are free.
pub record Carved (base start size unit i : ℕ) (a : PrivateAlloc) : Type 0 where
  pub valid : IsValid a.objs
  pub based : a.base_region ≡ base
  pub at : a.header ≡ start + i * size
  pub bytes : a.region_size ≡ size
  pub count : length (free a) ≡ object_count size unit
  pub apart :
      (j p : ℕ)
      → get_elem? (free a) j ≡ some p
      → (p ≡ start + i * size + overhead size unit + j * unit)
        × (p + unit ≤ start + i * size + size)

init_cores_step :
    (a : PrivateAlloc) (base start size unit : ℕ) (allocs : List PrivateAlloc)
    → {a' : PrivateAlloc} {rest : List PrivateAlloc} → start + size < u64_mod
    → PrivateAlloc.init a base start size unit ≡ done a'
    → init_cores base (start + size) size unit allocs ≡ done rest
    → init_cores base start size unit (a ∷ allocs) ≡ done (a' ∷ rest)
unfolding init_cores
init_cores_step a base start size unit allocs {a'} {rest} top run others =
    ap₂ (λ call t. call >>= λ b. init_cores base t size unit allocs >>= λ bs. done (b ∷ bs)) run
      (mod-eq_of_lt top)
    ∙ ap (λ call. call >>= λ bs. done (a' ∷ bs)) others

carve :
    (a : PrivateAlloc) (base start size unit : ℕ)
    → Fits a base start size unit
    → (a' : PrivateAlloc) × (PrivateAlloc.init a base start size unit ≡ done a')
      × Carved base start size unit 0 a'
carve a base start size unit f =
    let (a', run, v, b, h, r, n, objs) = init-objects a base start size unit f in
    let zero_off : start ≡ start + 0 * size = omega arith in
    (
      a',
      run,
      record {
        valid = v;
        based = b;
        at = h ∙ zero_off;
        bytes = r;
        count = n;
        apart = λ j p at.
            let (here, inside) = objs j p at in
            (here ∙ ap (λ t. t + overhead size unit + j * unit) zero_off, omega (arith, inside));
      },
    )

later_share :
    {base start size unit i : ℕ} {a : PrivateAlloc}
    → Carved base (start + size) size unit i a
    → Carved base start size unit (suc i) a
later_share {base} {start} {size} {unit} {i} {a} c =
    let e : start + size + i * size ≡ start + suc i * size = omega arith in
    record {
      valid = c.valid;
      based = c.based;
      at = c.at ∙ e;
      bytes = c.bytes;
      count = c.count;
      apart = λ j p at.
          let (here, inside) = c.apart j p at in
          (here ∙ ap (λ t. t + overhead size unit + j * unit) e, omega (arith, inside));
    }

moved_Fits :
    (a : PrivateAlloc) (base start start' size unit : ℕ)
    → start' ≡ start
    → Fits a base start' size unit
    → Fits a base start size unit
moved_Fits a base start start' size unit e f = subst (λ t. Fits a base t size unit) e f

shares_cons :
    (base start size unit : ℕ) (a : PrivateAlloc) (made : List PrivateAlloc)
    → Carved base start size unit 0 a
    → ((i : ℕ) (b : PrivateAlloc)
        → get_elem? made i ≡ some b
        → Carved base (start + size) size unit i b)
    → (i : ℕ) (b : PrivateAlloc) → get_elem? (a ∷ made) i ≡ some b
    → Carved base start size unit i b
shares_cons base start size unit a made c cs zero b at =
    subst (λ x. Carved base start size unit 0 x) (cc (at)) c
shares_cons base start size unit a made c cs (suc i) b at = later_share (cs i b at)

pub init_cores_lem :
    (allocs : List PrivateAlloc) (base start size unit : ℕ)
    → ((i : ℕ) (a : PrivateAlloc)
        → get_elem? allocs i ≡ some a
        → Fits a base (start + i * size) size unit)
    → (made : List PrivateAlloc) × (init_cores base start size unit allocs ≡ done made)
      × (length made ≡ length allocs)
      × ((i : ℕ) (a : PrivateAlloc) → get_elem? made i ≡ some a → Carved base start size unit i a)
unfolding init_cores
init_cores_lem [] base start size unit fits = ([], refl, refl, λ i a at. absurd (cc (at)))
init_cores_lem (a ∷ allocs) base start size unit fits =
    let fits_here =
      moved_Fits a base start (start + 0 * size) size unit (omega arith) (fits 0 a refl) in
    let (a', run, c) = carve a base start size unit fits_here in
    let (made, others, same, cs) = init_cores_lem allocs base (start + size) size unit (λ i b at.
      moved_Fits b base (start + size + i * size) (start + suc i * size) size unit (omega arith)
        (fits (suc i) b at)) in
    (
      a' ∷ made,
      init_cores_step a base start size unit allocs fits_here.top run others,
      ap suc same,
      shares_cons base start size unit a' made c cs,
    )
