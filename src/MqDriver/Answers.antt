-- ===== src/MqDriver/Answers.antt =====
-- What a submission has done, whatever the kernel's calls return.
use labstor.Base.{
  ℕ, ◌^◌, ◌≡◌, refl, ◌∙◌, ◌≢◌, inl, inr, Bool, true, ◌&&◌, List, [], ◌∷◌, arith, ltb, if◌then◌else◌,
  Bool-cases, Option-cases,
}
use labstor.MqDriver.{IoRequest}
use labstor.MqDriver.Submission.{
  bio_to_rq, Returns, DeviceQueue, Status, ok, resource, dev_resource, other, Bio, Event,
  allocated_pages, freed_pages, issued, submitted_bio, create_bio, try_issue, Submitted,
  submit_bio_to, submit_to,
}

-- the bios that the block layer has accepted, and the arrays that were allocated and freed
abbrev pub accepted : List Event → List Bio
accepted [] = []
accepted (submitted_bio bio ∷ es) = bio ∷ accepted es
accepted (issued dev_rq hctx bio ok ∷ es) = bio ∷ accepted es
accepted (e ∷ es) = accepted es

abbrev pub allocated : List Event → List ℕ
allocated [] = []
allocated (allocated_pages p ∷ es) = p ∷ allocated es
allocated (e ∷ es) = allocated es

abbrev pub freed : List Event → List ℕ
freed [] = []
freed (freed_pages p ∷ es) = p ∷ freed es
freed (e ∷ es) = freed es

try_issue_lem :
    (dev_rq hctx : ℕ) (bio : Bio) (st : Status)
    → let (code, es) = try_issue dev_rq hctx bio st in
      (code ≡ 0 → accepted es ≡ bio ∷ [])
      × (code ≢ 0 → accepted es ≡ [])
      × (allocated es ≡ [])
      × (freed es ≡ [])
unfolding try_issue
try_issue_lem dev_rq hctx bio ok = (λ e. refl, λ ne. absurd (ne refl), refl, refl)
try_issue_lem dev_rq hctx bio resource = (λ e. absurd (omega (arith, e)), λ ne. refl, refl, refl)
try_issue_lem dev_rq hctx bio dev_resource =
    (λ e. absurd (omega (arith, e)), λ ne. refl, refl, refl)
try_issue_lem dev_rq hctx bio (other st) = (λ e. absurd (omega (arith, e)), λ ne. refl, refl, refl)

-- a part of a submission that hands over `bio`, and no arrays
record Part (bio : Bio) (io : IoRequest) (s : Submitted) : Type 0 where
  done_ok : s.code ≡ 0 → accepted s.events ≡ bio ∷ []
  failed : s.code ≢ 0 → accepted s.events ≡ []
  none_allocated : allocated s.events ≡ []
  none_freed : freed s.events ≡ []
  same_flag : s.io.flags.io_is_complete ≡ io.flags.io_is_complete

submit_bio_to_lem :
    (r : Returns) (q : DeviceQueue) (io : IoRequest) (bio : Bio)
    → Part bio io (submit_bio_to r q io bio)
unfolding submit_bio_to
submit_bio_to_lem r q io bio = elim (Bool-cases (q.queue_rq && ltb io.hctx (2 ^ 31))) [
  | inl direct ↦ elim (Option-cases (bio_to_rq r.dev_rq)) [
    | inl nothing ↦
        rw (submit_bio_to, direct, nothing)
          (record {
            done_ok = λ e. absurd (omega (arith, e));
            failed = λ ne. refl;
            none_allocated = refl;
            none_freed = refl;
            same_flag = refl;
          })
    | inr (dev_rq, at) ↦
        let (good, bad, alloc, free) = try_issue_lem dev_rq io.hctx bio r.status in
        rw (submit_bio_to, direct, at)
          (record {
            done_ok = good;
            failed = bad;
            none_allocated = alloc;
            none_freed = free;
            same_flag = refl;
          })
  ]
  | inr layer ↦
      rw (submit_bio_to, layer)
        (record {
          done_ok = λ e. refl;
          failed = λ ne. absurd (ne refl);
          none_allocated = refl;
          none_freed = refl;
          same_flag = refl;
        })
]

-- the request with the flag for polling, if the device's queue polls
poll_flag : DeviceQueue → IoRequest → IoRequest
poll_flag q io =
    if q.poll then record io { flags = let f = io.flags in record f { polled_io = true } } else io

poll_flag_lem :
    (q : DeviceQueue) (io : IoRequest)
    → ((poll_flag q io).flags.io_is_complete ≡ io.flags.io_is_complete)
unfolding poll_flag
poll_flag_lem q io = elim (Bool-cases q.poll) [
  | inl p ↦ rw (poll_flag, p) refl
  | inr p ↦ rw (poll_flag, p) refl
]

-- a submission to a device
pub record Whole (rq bdev pages num_pages : ℕ) (io : IoRequest) (is_write : Bool) (s : Submitted)
    : Type 0 where
  pub done_ok :
      s.code ≡ 0
      → (bio : Bio) × (accepted s.events ≡ bio ∷ [])
        × (bio.bi_private ≡ rq)
        × (bio.bdev ≡ bdev)
        × (bio.is_write ≡ is_write)
        × (bio.sector ≡ io.sector)
        × (bio.num_pages ≡ num_pages)
        × (bio.pages ≡ pages)
  pub failed : s.code ≢ 0 → accepted s.events ≡ []
  pub none_allocated : allocated s.events ≡ []
  pub none_freed : freed s.events ≡ []
  pub same_flag : s.io.flags.io_is_complete ≡ io.flags.io_is_complete

pub submit_to_lem :
    (r : Returns) (q : DeviceQueue) (io : IoRequest) (rq bdev pages num_pages : ℕ) (is_write : Bool)
    → Whole rq bdev pages num_pages io is_write (submit_to r q io rq bdev pages num_pages is_write)
unfolding submit_to create_bio poll_flag
submit_to_lem r q io rq bdev pages num_pages is_write = elim (Option-cases r.bio) [
  | inl nothing ↦
      rw (submit_to, create_bio, nothing)
        (record {
          done_ok = λ e. absurd (omega (arith, e));
          failed = λ ne. refl;
          none_allocated = refl;
          none_freed = refl;
          same_flag = poll_flag_lem q io;
        })
  | inr (address, at) ↦
      let bio : Bio = record {
        address = address;
        bdev = bdev;
        is_write = is_write;
        sector = io.sector;
        pages = pages;
        num_pages = num_pages;
        bi_private = rq;
      } in
      let p = submit_bio_to_lem r q (poll_flag q io) bio in
      rw (submit_to, create_bio, at)
        (record {
          done_ok = λ e. (bio, p.done_ok e, refl, refl, refl, refl, refl, refl);
          failed = p.failed;
          none_allocated = p.none_allocated;
          none_freed = p.none_freed;
          same_flag = p.same_flag ∙ poll_flag_lem q io;
        })
]
