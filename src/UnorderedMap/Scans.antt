-- ===== src/UnorderedMap/Scans.antt =====
-- The loop of `Remove` over its window.
use native.Mathlib.Nat.{mod-lt}
use labstor.Base.{
  ℕ, zero, suc, ◌+◌, ◌%◌, ◌<◌, ◌≡◌, refl, ap, ◌∙◌, ◌≢◌, true, false, some, List, arith,
  if◌then◌else◌, get_elem?, Call, done, ◌>>=◌,
}
use labstor.Spin.{returned}
use labstor.Bit2map
use labstor.Bit2map.Entries.{entry, Becomes}
use labstor.Bit2map.Quiet.{
  commit_modify_alone, begin_remove_valid, begin_remove_other, commit_remove_alone,
}
use labstor.UnorderedMap.{
  BucketType, UnorderedMap, alone, bucket_at, Scan, removed, blocked, passed, scan,
}
use labstor.UnorderedMap.Probe.{WellFormed, inside_lem, bucket_at_lem}

module _ {S T B : Type 0} (ops : BucketType S T B) where
  -- what `scan` does at place `c`, when `BeginRemove` has returned true
  abbrev at_bucket : UnorderedMap B → S → ℕ → List ℕ → Call (Scan B)
  at_bucket m key c bitmap = bucket_at ops m c >>= λ bucket.
      if ops.key_compare (ops.get_key bucket) key
      then (Bit2map.commit_remove bitmap c >>= λ b. done (removed (record m { bitmap = b })))
      else (alone (Bit2map.commit_modify bitmap c Bit2map.undisturbed) >>= λ q.
          done (blocked (record m { bitmap = q.1 }) c))

  scan_pass :
      (m : UnorderedMap B) (key : S) (c n : ℕ)
      → WellFormed m
      → c < m.num_buckets
      → entry m.bitmap c ≢ 1
      → scan ops m key c (suc n) ≡ scan ops m key ((c + 1) % m.num_buckets) n
  unfolding scan
  scan_pass m key c n w lt other =
      ap
        (λ run. alone run >>= λ p.
          if p.0 then at_bucket m key c p.1 else scan ops m key ((c + 1) % m.num_buckets) n)
        (begin_remove_other m.bitmap c w.words (inside_lem ops m c w lt) other)

  scan_stop :
      (m : UnorderedMap B) (key : S) (c n : ℕ) (bitmap : List ℕ)
      → Bit2map.begin_remove m.bitmap c Bit2map.undisturbed ≡ returned (true, bitmap)
      → scan ops m key c (suc n) ≡ at_bucket m key c bitmap
  unfolding scan
  scan_stop m key c n bitmap begun =
      ap
        (λ run. alone run >>= λ p.
          if p.0 then at_bucket m key c p.1 else scan ops m key ((c + 1) % m.num_buckets) n)
        begun

  -- the place of the key is found, and freed
  pub scan_removes :
      (m : UnorderedMap B) (key : S) (c n : ℕ) (bucket : B)
      → WellFormed m
      → c < m.num_buckets
      → entry m.bitmap c ≡ 1
      → get_elem? m.buckets c ≡ some bucket
      → ops.key_compare (ops.get_key bucket) key ≡ true
      → (bitmap : List ℕ) × (scan ops m key c (suc n)
          ≡ done (removed (record m { bitmap = bitmap })))
        × Becomes c 0 m.bitmap bitmap
  scan_removes m key c n bucket w lt valid at same =
      let inside = inside_lem ops m c w lt in
      let (bitmap₁, begun, first) = begin_remove_valid m.bitmap c w.words inside valid in
      let (bitmap₂, ended, second) =
        commit_remove_alone bitmap₁ c first.words (omega (arith, first.same_length, inside)) in
      (
        bitmap₂,
        scan_stop m key c n bitmap₁ begun ∙ rw (bucket_at_lem ops m c at, same, ended),
        record {
          words = second.words;
          same_length = second.same_length ∙ first.same_length;
          self = second.self;
          others = λ d ne. second.others d ne ∙ first.others d ne;
        },
      )

  -- the bucket of another key stops the scan, and nothing changes
  pub scan_blocked :
      (m : UnorderedMap B) (key : S) (c n : ℕ) (bucket : B)
      → WellFormed m
      → c < m.num_buckets
      → entry m.bitmap c ≡ 1
      → get_elem? m.buckets c ≡ some bucket
      → ops.key_compare (ops.get_key bucket) key ≡ false
      → (bitmap : List ℕ) × (scan ops m key c (suc n)
          ≡ done (blocked (record m { bitmap = bitmap }) c))
        × Becomes c 1 m.bitmap bitmap
  scan_blocked m key c n bucket w lt valid at differs =
      let inside = inside_lem ops m c w lt in
      let (bitmap₁, begun, first) = begin_remove_valid m.bitmap c w.words inside valid in
      let (bitmap₂, ended, second) =
        commit_modify_alone bitmap₁ c first.words (omega (arith, first.same_length, inside)) in
      (
        bitmap₂,
        scan_stop m key c n bitmap₁ begun ∙ rw (bucket_at_lem ops m c at, differs, ended),
        record {
          words = second.words;
          same_length = second.same_length ∙ first.same_length;
          self = second.self;
          others = λ d ne. second.others d ne ∙ first.others d ne;
        },
      )

  pub scan_all :
      (m : UnorderedMap B) (key : S) (n c : ℕ)
      → WellFormed m
      → c < m.num_buckets
      → ((d : ℕ) → d < m.num_buckets → entry m.bitmap d ≢ 1)
      → (c' : ℕ) × (scan ops m key c n ≡ done (passed m c')) × (c' < m.num_buckets)
  unfolding scan
  scan_all m key zero c w lt none_valid = (c, refl, lt)
  scan_all m key (suc n) c w lt none_valid =
      let (c', run, lt') =
        scan_all m key n ((c + 1) % m.num_buckets) w (mod-lt (c + 1) w.some_bucket) none_valid in
      (c', scan_pass m key c n w lt (none_valid c lt) ∙ run, lt')
