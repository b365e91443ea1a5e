-- ===== src/MqDriver/Accounts.antt =====
-- The account of a submission that the driver answers: its code, what it handed to the block
-- layer, and its arrays of pages.
use labstor.Base.{
  ℕ, ◌^◌, ◌≤◌, ◌<◌, ◌≡◌, refl, sym, ap, ◌∙◌, ◌≢◌, ◌⊎◌, inl, inr, Bool, true, false, ◌&&◌, none,
  some, List, [], ◌∷◌, ◌++◌, arith, ltb, ◌==◌, Bool-cases, Option-cases, length, get_elem?,
  get_elem?_of_lt, done,
}
use labstor.Kernel.BlkdevTable.{Bdevs, labstor_get_bdev}
use labstor.MqDriver.{IoRequest, invalid_device_id, cant_allocate_pages}
use labstor.MqDriver.Answers.{accepted, allocated, freed, submit_to_lem}
use labstor.MqDriver.Submission.{
  Returns, DeviceQueue, Bio, Event, allocated_pages, freed_pages, disabled_stats, issued,
  ended_request, submitted_bio, ok, resource, dev_resource, other, max_pages_per_get, num_pages_of,
  convert_user_buf, Submitted, submit_to, submission,
}

-- An array that is freed at the end is the only new one of the account.
freed_last :
    (es : List Event) (p : ℕ)
    → (accepted (es ++ freed_pages p ∷ []) ≡ accepted es)
      × (allocated (es ++ freed_pages p ∷ []) ≡ allocated es)
      × (freed (es ++ freed_pages p ∷ []) ≡ freed es ++ p ∷ [])
freed_last [] p = (refl, refl, refl)
freed_last (allocated_pages q ∷ es) p =
    let (a, l, f) = freed_last es p in (a, ap (λ ps. q ∷ ps) l, f)
freed_last (freed_pages q ∷ es) p = let (a, l, f) = freed_last es p in (a, l, ap (λ ps. q ∷ ps) f)
freed_last (disabled_stats b ∷ es) p = freed_last es p
freed_last (ended_request d st ∷ es) p = freed_last es p
freed_last (submitted_bio bio ∷ es) p =
    let (a, l, f) = freed_last es p in (ap (λ bs. bio ∷ bs) a, l, f)
freed_last (issued d h bio ok ∷ es) p =
    let (a, l, f) = freed_last es p in (ap (λ bs. bio ∷ bs) a, l, f)
freed_last (issued d h bio resource ∷ es) p = freed_last es p
freed_last (issued d h bio dev_resource ∷ es) p = freed_last es p
freed_last (issued d h bio (other st) ∷ es) p = freed_last es p

-- What the driver can say of a submission with this code and these calls.
pub record Account (bdevs : Bdevs) (rq : ℕ) (io : IoRequest) (is_write : Bool) (code : ℕ)
    (es : List Event) : Type 0 where
  pub done_ok :
      code ≡ 0
      → (bdev : ℕ) × (bio : Bio) × (get_elem? bdevs io.dev_id ≡ some (some bdev))
        × (accepted es ≡ bio ∷ [])
        × (bio.bi_private ≡ rq)
        × (bio.bdev ≡ bdev)
        × (bio.is_write ≡ is_write)
        × (bio.sector ≡ io.sector)
        × (bio.num_pages ≡ num_pages_of io.buf_size)
        × (allocated es ≡ bio.pages ∷ [])
  pub failed : code ≢ 0 → accepted es ≡ []
  pub arrays : allocated es ≡ freed es

-- what the handler may rely on: the client is alive, the kernel pins no more pages than an array
-- has places for, and the id is one of the table
pub record Sound (r : Returns) (bdevs : Bdevs) (io : IoRequest) : Type 0 where
  pub alive : r.task ≡ true
  pub few_pages : (r.pinned ≤ max_pages_per_get) ⊎ (2 ^ 31 ≤ r.pinned)
  pub in_table : io.dev_id < length bdevs

pub pinned_lem :
    (r : Returns) (io : IoRequest) (bdevs : Bdevs)
    → Sound r bdevs io
    → (ltb max_pages_per_get r.pinned && ltb r.pinned (2 ^ 31)) ≡ false
pinned_lem r io bdevs sound = ground (arith, sound.few_pages)

module _ (r : Returns) (queue_of : ℕ → DeviceQueue) (bdevs : Bdevs) (io : IoRequest) (rq : ℕ)
    (is_write : Bool) where
  abbrev pub Good : Type 0
  Good =
      (s : Submitted) × (submission r queue_of bdevs io rq is_write ≡ done s)
      × Account bdevs rq io is_write s.code s.events
      × (s.io.flags.io_is_complete ≡ io.flags.io_is_complete)

  -- behind the conversion of the buffer
  with_pages :
      (p : ℕ)
      → convert_user_buf r io.buf_size
        ≡ done (allocated_pages p ∷ [], some (p, num_pages_of io.buf_size))
      → io.dev_id < length bdevs
      → Good
  unfolding submission labstor_get_bdev
  with_pages p conv lt =
      let (entry, at) = get_elem?_of_lt bdevs io.dev_id lt in
      elim (Option-cases entry) [
        | inl nothing ↦ (
          record {
            code = invalid_device_id;
            io = io;
            events = allocated_pages p ∷ freed_pages p ∷ [];
          },
          rw (submission, conv, labstor_get_bdev, at, nothing) refl,
          record { done_ok = λ e. absurd (omega (arith, e)); failed = λ ne. refl; arrays = refl },
          refl,
        )
        | inr (bdev, here) ↦
            let s = submit_to r (queue_of bdev) io rq bdev p (num_pages_of io.buf_size) is_write in
            let w =
              submit_to_lem r (queue_of bdev) io rq bdev p (num_pages_of io.buf_size) is_write in
            let (acc, all, fr) = freed_last s.events p in
            (
              record s { events = allocated_pages p ∷ (s.events ++ freed_pages p ∷ []) },
              rw (submission, conv, labstor_get_bdev, at, here) refl,
              record {
                done_ok = λ e.
                    let (bio, one, priv, dev, w_or_r, sec, num, at_pages) = w.done_ok e in
                    (
                      bdev,
                      bio,
                      at ∙ ap some here,
                      acc ∙ one,
                      priv,
                      dev,
                      w_or_r,
                      sec,
                      num,
                      ap (λ ps. p ∷ ps) (all ∙ w.none_allocated) ∙ ap (λ a. a ∷ []) (sym at_pages),
                    );
                failed = λ ne. acc ∙ w.failed ne;
                arrays =
                    ap (λ ps. p ∷ ps) (all ∙ w.none_allocated)
                    ∙ sym (fr ∙ ap (λ ps. ps ++ p ∷ []) w.none_freed);
              },
              w.same_flag,
            )
      ]

  -- with no pages
  without_pages :
      (es : List Event)
      → convert_user_buf r io.buf_size ≡ done (es, none)
      → accepted es ≡ []
      → allocated es ≡ freed es
      → Good
  unfolding submission
  without_pages es conv nothing arrays = (
    record { code = cant_allocate_pages; io = io; events = es },
    rw (submission, conv) refl,
    record { done_ok = λ e. absurd (omega (arith, e)); failed = λ ne. nothing; arrays = arrays },
    refl,
  )

  pub submission-accounts : Sound r bdevs io → Good
  unfolding convert_user_buf
  submission-accounts sound = elim (Option-cases r.page_array) [
    | inl no_array ↦ without_pages [] (rw (convert_user_buf, no_array) refl) refl refl
    | inr (p, at) ↦ elim (Bool-cases (num_pages_of io.buf_size == r.pinned)) [
      | inl all_pinned ↦
          with_pages p
            (rw (convert_user_buf, at, sound.alive, pinned_lem r io bdevs sound, all_pinned) refl)
            sound.in_table
      | inr some_not ↦
          without_pages (allocated_pages p ∷ freed_pages p ∷ [])
            (rw (convert_user_buf, at, sound.alive, pinned_lem r io bdevs sound, some_not) refl)
            refl refl
    ]
  ]
