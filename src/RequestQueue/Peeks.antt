-- ===== src/RequestQueue/Peeks.antt =====
-- `Peek` at the oldest request.
use mathlib.Core.List.{map}
use labstor.Base.{
  ℕ, ◌<◌, ◌≡◌, refl, sym, ap, ◌∙◌, inl, inr, true, List, [], ◌∷◌, arith, ◌==◌, List-cases, length,
  done, refused,
}
use labstor.Region.{region_add}
use labstor.Ring
use labstor.Ring.Inv.{IsValid}
use labstor.Ring.Refine.{peek-contents}
use labstor.Ring.Window.{contents, length-contents}
use labstor.RequestQueue.{RequestQueue, peek}
use labstor.RequestQueue.Pointers.{pending, length-pending}

pub peek_first :
    (q : RequestQueue) (rq : ℕ) (rest : List ℕ)
    → IsValid q.ring
    → pending q ≡ rq ∷ rest
    → peek q 0 ≡ done rq
unfolding peek Ring.get_depth
peek_first q rq rest v holds = elim (List-cases (contents q.ring)) [
  | inl none_left ↦ absurd (cc (rw none_left at holds))
  | inr (off, offs, e) ↦
      let some_left : 0 < Ring.get_depth q.ring =
        omega (arith, ap length e, length-contents q.ring) in
      let here : region_add off q.base_region ∷ map (λ o. region_add o q.base_region) offs
          ≡ rq ∷ rest =
        rw e at holds in
      rw (peek-contents 0 v some_left, e) (cc (here))
]

pub peek_empty : (q : RequestQueue) (i : ℕ) → IsValid q.ring → pending q ≡ [] → peek q i ≡ refused
unfolding peek Ring.get_depth Ring.peek
peek_empty q i v holds =
    let none_left : Ring.get_depth q.ring ≡ 0 = sym (length-pending q) ∙ ap length holds in
    let same : (q.ring.enqueued == q.ring.dequeued) ≡ true =
      ground (arith, none_left, v.enqueued_small, v.dequeued_small) in
    rw (Ring.peek, same) refl
