-- ===== src/MqDriver/Submission.antt =====
-- The submission of an I/O to the block layer:
-- labmods/mq_driver/kernel/mq_driver_kernel.c, up to the completion of the request. What the
-- kernel's calls return is an argument, and which calls are made is part of the result.
use labstor.Base.{
  ℕ, ◌+◌, ◌/◌, ◌%◌, ◌^◌, Bool, true, ◌&&◌, not, Option, none, some, List, [], ◌∷◌, ◌++◌, ltb, ◌==◌,
  if◌then◌else◌, u32, Call, done, fault, ◌>>=◌,
}
use labstor.Kernel.BlkdevTable.{Bdevs, labstor_get_bdev}
use labstor.MqDriver.{
  IoRequest, cant_allocate_pages, invalid_device_id, cannot_allocate_bio, cannot_allocate_request,
  device_busy, not_ok,
}

-- The request queue of a device: whether QUEUE_FLAG_POLL is set and `mq_ops->queue_rq` is there.
pub record DeviceQueue : Type 0 where
  pub poll : Bool
  pub queue_rq : Bool
  pub nr_hw_queues : ℕ
  pub nr_requests : ℕ

-- the `blk_status_t` of `__blk_mq_try_issue_directly`
pub data Status : Type 0 where
  ok : Status
  resource : Status
  dev_resource : Status
  other : (status : ℕ) → Status

-- what `blk_mq_alloc_request_hctx` returns
pub data DevRq : Type 0 where
  dev_rq_at : (dev_rq : ℕ) → DevRq
  einval : DevRq
  eio : DevRq
  ebusy : DevRq
  enodev : DevRq
  other_error : DevRq

-- What the kernel's calls return to a submission: `pid_task`, `kmem_cache_alloc`,
-- `get_user_pages_remote`, `bio_alloc`, `blk_mq_alloc_request_hctx`,
-- `__blk_mq_try_issue_directly` and `submit_bio`; `none` is a null or an error pointer.
pub record Returns : Type 0 where
  pub task : Bool
  pub page_array : Option ℕ
  pub pinned : ℕ
  pub bio : Option ℕ
  pub dev_rq : DevRq
  pub status : Status
  pub cookie : ℕ

-- what the driver writes into a bio: `bi_private` is the request, of as many whole pages
pub record Bio : Type 0 where
  pub address : ℕ
  pub bdev : ℕ
  pub is_write : Bool
  pub sector : ℕ
  pub pages : ℕ
  pub num_pages : ℕ
  pub bi_private : ℕ

-- the calls that a submission makes
pub data Event : Type 0 where
  allocated_pages : (pages : ℕ) → Event
  freed_pages : (pages : ℕ) → Event
  disabled_stats : (bdev : ℕ) → Event
  issued : (dev_rq hctx : ℕ) → Bio → Status → Event
  ended_request : (dev_rq : ℕ) → Status → Event
  submitted_bio : Bio → Event

abbrev pub page_size : ℕ
page_size = 4096

-- the entries of an array of `page_cache`
abbrev pub max_pages_per_get : ℕ
max_pages_per_get = 128

-- the `int` of the rounded quotient
unfoldable pub num_pages_of : ℕ → ℕ
num_pages_of len = u32 (if len % page_size == 0 then len / page_size else len / page_size + 1)

-- The pages that are pinned are written to the array; the user's address is not looked at.
unfoldable pub convert_user_buf : Returns → ℕ → Call (List Event × Option (ℕ × ℕ))
convert_user_buf r len = elim r.page_array [
  | none ↦ done ([], none)
  | some pages ↦
      if not r.task
      then fault
      else if ltb max_pages_per_get r.pinned && ltb r.pinned (2 ^ 31)
      then fault
      else if not (num_pages_of len == r.pinned)
      then done (allocated_pages pages ∷ freed_pages pages ∷ [], none)
      else done (allocated_pages pages ∷ [], some (pages, num_pages_of len))
]

unfoldable pub create_bio : Returns → ℕ → ℕ → ℕ → ℕ → ℕ → Bool → Option Bio
create_bio r rq bdev pages num_pages sector is_write = elim r.bio [
  | none ↦ none
  | some address ↦ some (record {
    address = address;
    bdev = bdev;
    is_write = is_write;
    sector = sector;
    pages = pages;
    num_pages = num_pages;
    bi_private = rq;
  })
]

-- `blk_mq_try_issue_directly`
unfoldable pub try_issue : ℕ → ℕ → Bio → Status → ℕ × List Event
try_issue dev_rq hctx bio ok = (0, issued dev_rq hctx bio ok ∷ [])
try_issue dev_rq hctx bio resource =
    (device_busy, issued dev_rq hctx bio resource ∷ ended_request dev_rq resource ∷ [])
try_issue dev_rq hctx bio dev_resource =
    (device_busy, issued dev_rq hctx bio dev_resource ∷ ended_request dev_rq dev_resource ∷ [])
try_issue dev_rq hctx bio (other st) =
    (not_ok, issued dev_rq hctx bio (other st) ∷ ended_request dev_rq (other st) ∷ [])

-- what a submission comes to: the code, the request's fields, and the calls
pub record Submitted : Type 0 where
  pub code : ℕ
  pub io : IoRequest
  pub events : List Event

-- The request takes the bio and its sector; every error is a null pointer.
unfoldable pub bio_to_rq : DevRq → Option ℕ
bio_to_rq (dev_rq_at dev_rq) = some dev_rq
bio_to_rq einval = none
bio_to_rq eio = none
bio_to_rq ebusy = none
bio_to_rq enodev = none
bio_to_rq other_error = none

-- The part behind the bio: to the hardware queue `hctx_`, if that is not negative, or to the bio
-- layer, the only one of the two that keeps the cookie.
unfoldable pub submit_bio_to : Returns → DeviceQueue → IoRequest → Bio → Submitted
submit_bio_to r q io bio =
    if q.queue_rq && ltb io.hctx (2 ^ 31)
    then elim (bio_to_rq r.dev_rq) [
      | none ↦ record { code = cannot_allocate_request; io = io; events = [] }
      | some dev_rq ↦
          let p = try_issue dev_rq io.hctx bio r.status in
          record { code = p.0; io = io; events = p.1 }
    ]
    else record { code = 0; io = record io { cookie = r.cookie }; events = submitted_bio bio ∷ [] }

-- the part behind `labstor_get_bdev`
unfoldable pub submit_to : Returns → DeviceQueue → IoRequest → ℕ → ℕ → ℕ → ℕ → Bool → Submitted
submit_to r q io rq bdev pages num_pages is_write =
    let io' =
      (if q.poll
        then record io { flags = let f = io.flags in record f { polled_io = true } }
        else io) in
    elim (create_bio r rq bdev pages num_pages io.sector is_write) [
      | none ↦ record { code = cannot_allocate_bio; io = io'; events = disabled_stats bdev ∷ [] }
      | some bio ↦
          let s = submit_bio_to r q io' bio in record s { events = disabled_stats bdev ∷ s.events }
    ]

-- `submit_mq_driver_io` up to `err_complete_before`
unfoldable pub submission :
    Returns → (ℕ → DeviceQueue) → Bdevs → IoRequest → ℕ → Bool → Call Submitted
submission r queue_of bdevs io rq is_write = convert_user_buf r io.buf_size >>= λ c. elim c.1 [
  | none ↦ done (record { code = cant_allocate_pages; io = io; events = c.0 })
  | some p ↦ labstor_get_bdev bdevs io.dev_id >>= λ bdev.
      let s : Submitted = elim bdev [
        | none ↦ record { code = invalid_device_id; io = io; events = [] }
        | some b ↦ submit_to r (queue_of b) io rq b p.0 p.1 is_write
      ] in
      done (record s { events = c.0 ++ s.events ++ freed_pages p.0 ∷ [] })
]
