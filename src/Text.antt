-- ===== src/Text.antt =====
-- The strings in shared memory of include/labstor/types/data_structures/shmem_string.h. A text is
-- the list of its `char`s, each as the 32-bit pattern that it is widened to.
use labstor.Base.{
  ℕ, ◌+◌, ◌*◌, ◌%◌, ◌^◌, ◌≡◌, ap, ◌↔◌, Bool, true, false, ◌&&◌, not, List, [], ◌∷◌, arith, ◌==◌,
  if◌then◌else◌, length, u32,
}

-- the loop of `hash` from index `i` on
unfoldable pub hash_from : List ℕ → ℕ → ℕ → ℕ
hash_from [] i sum = sum
hash_from (c ∷ key) i sum = hash_from key (i + 1) (u32 (sum + c * 2 ^ (4 * (i % 4))))

unfoldable pub hash : List ℕ → ℕ
unfolding hash_from
hash key = hash_from key 0 0

-- `memcmp` of two texts of one length is 0
unfoldable pub same_chars : List ℕ → List ℕ → Bool
same_chars [] str = true
same_chars (x ∷ xs) [] = true
same_chars (x ∷ xs) (y ∷ ys) = let rest = same_chars xs ys in (x == y) && rest

-- `operator ==` and `operator !=`
unfoldable pub text_eq : List ℕ → List ℕ → Bool
text_eq a b = if not (length b == length a) then false else same_chars a b

unfoldable pub text_ne : List ℕ → List ℕ → Bool
text_ne a b = if not (length b == length a) then false else not (same_chars a b)

same_chars_iff : (a b : List ℕ) → length b ≡ length a → (same_chars a b ≡ true) ↔ (a ≡ b)
unfolding same_chars
same_chars_iff [] [] e = ground arith
same_chars_iff [] (y ∷ ys) e = absurd (omega arith)
same_chars_iff (x ∷ xs) [] e = absurd (omega arith)
same_chars_iff (x ∷ xs) (y ∷ ys) e = ground (arith, same_chars_iff xs ys (omega arith))

pub text_eq_iff : (a b : List ℕ) → (text_eq a b ≡ true) ↔ (a ≡ b)
unfolding text_eq
text_eq_iff a b = ground (arith, same_chars_iff a b, ap (length {A = ℕ}) {x = a} {y = b})

-- Two texts are neither equal nor unequal exactly when their lengths differ; otherwise `!=` is the
-- negation of `==`.
pub text_ne_iff : (a b : List ℕ) → (text_ne a b ≡ not (text_eq a b)) ↔ (length a ≡ length b)
unfolding text_eq text_ne
text_ne_iff a b = ground arith
