-- ===== src/MqDriver.antt =====
-- The multi-queue driver of labmods/mq_driver: the requests of mq_driver.h, which the clients, the
-- server's module and the kernel's module share. A request's header is in the `Store`; an `int` is
-- its 32-bit pattern.
pub mod Submission
pub mod Kernel
pub mod Answers
pub mod Accounts
pub mod Replies
pub mod Server
pub mod Rounds
pub mod Interrupt
pub mod Failed
use Prim.Native.Nat.{bit_and, bit_or}
use labstor.Base.{
  ℕ, zero, suc, ◌+◌, ◌-◌, ◌*◌, ◌/◌, ◌%◌, ◌^◌, ◌≤◌, ◌<◌, ◌≡◌, refl, sym, ap, ap₂, ◌∙◌, ◌≢◌, ◌↔◌, ◌⊎◌,
  inl, inr, Bool, true, false, ◌&&◌, ◌||◌, not, Option, none, some, List, [], ◌∷◌, ◌++◌, arith, ltb,
  leb, ◌==◌, if◌then◌else◌, ==→eq, eq→==, Bool-cases, Option-cases, List-cases, length, get_elem?,
  get_or, set, replicate, length-append, length-set, length-replicate, get_elem?-eq-get_or,
  get_or-set_self, get_or-set_ne, get_or-replicate, get_elem?_of_lt, get_elem?-set_self,
  get_elem?-set_ne, get_elem?-set_cases, get_elem?-append_left, get_elem?-append_last, u32_mod,
  u64_mod, u32, sub32, sub64, mod-ne_of_near, Call, done, refused, fault, ◌>>=◌, map_call,
  in_bounds, along_some, bind-done, eq-cases, lt_of_get_elem?, get_or_of_get_elem?,
  get_elem?-append_ne,
}
use labstor.Request.{Qtok, Store, write}
use labstor.Kernel.BlkdevTable.{minus}

-- the bits of the kernel's `flags_`
pub record Flags : Type 0 where
  pub is_submitted : Bool
  pub polled_io : Bool
  pub io_is_complete : Bool

-- The words of a request behind its header, which C++ code reads as `io_request` and the kernel as
-- `labstor_mq_driver_request`. The kernel's has one field more: the word that is `cookie_` in C++ is
-- the kernel's `num_hw_queues_`, the word that is `flags_` in C++ is the kernel's `cookie_`, and the
-- word that is `lock_` in C++ is the kernel's `flags_`. The fields of these three words have the
-- kernel's names. The kernel uses nothing behind them.
pub record IoRequest : Type 0 where
  pub dev_id : ℕ
  pub user_buf : ℕ
  pub sector : ℕ
  pub buf_size : ℕ
  pub hctx : ℕ
  pub pid : ℕ
  pub num_hw_queues : ℕ
  pub cookie : ℕ
  pub flags : Flags
  pub kern_qtok : Qtok
  pub kern_rq : ℕ

-- `labstor_queue_stats_request` behind the header
pub record StatsRequest : Type 0 where
  pub dev_id : ℕ
  pub num_hw_queues : ℕ
  pub queue_depth : ℕ

-- the requests by their addresses
pub record Memory : Type 0 where
  pub store : Store
  pub ios : ℕ → IoRequest
  pub stats : ℕ → StatsRequest

abbrev pub write_io : (ℕ → IoRequest) → ℕ → IoRequest → ℕ → IoRequest
write_io ios rq v a = if rq == a then v else ios a

abbrev pub cant_allocate_pages : ℕ
cant_allocate_pages = minus 102

abbrev pub invalid_device_id : ℕ
invalid_device_id = minus 103

abbrev pub cannot_allocate_bio : ℕ
cannot_allocate_bio = minus 104

abbrev pub cannot_allocate_request : ℕ
cannot_allocate_request = minus 105

abbrev pub device_busy : ℕ
device_busy = minus 106

abbrev pub not_ok : ℕ
not_ok = minus 107

-- the numbers of the operations
abbrev pub op_num_hw_queues : ℕ
op_num_hw_queues = 1

abbrev pub op_poll_completion : ℕ
op_poll_completion = 2

abbrev pub op_write : ℕ
op_write = 3

abbrev pub op_read : ℕ
op_read = 4

-- the bits of the C++ `flags_`
abbrev pub submitted_bit : ℕ
submitted_bit = 1

abbrev pub polled_bit : ℕ
polled_bit = 2

abbrev pub complete_bit : ℕ
complete_bit = 4

-- `IOStart`: what it leaves of the request are its number, its token, `kern_rq_`, and the words that
-- are `cookie_` and `lock_` in C++.
unfoldable pub io_start :
    Memory → ℕ → (ns_id pid op dev_id user_buf buf_size sector hctx : ℕ) → Memory
io_start m rq ns_id pid op dev_id user_buf buf_size sector hctx = record m {
  store =
      write m.store rq (let old = m.store rq in record old { ns_id = ns_id; code = 0; op = op });
  ios = write_io m.ios rq (
      let old = m.ios rq in
      record old {
        dev_id = dev_id;
        user_buf = user_buf;
        sector = sector;
        buf_size = buf_size;
        hctx = hctx;
        pid = pid;
        cookie = 0;
      });
}

unfoldable pub io_client_start :
    Memory → ℕ → (ns_id pid op user_buf buf_size sector hctx : ℕ) → Memory
unfolding io_start
io_client_start m rq ns_id pid op user_buf buf_size sector hctx =
    io_start m rq ns_id pid op 0 user_buf buf_size sector hctx

-- `rq` is started with what the client's request `client_rq` says.
unfoldable pub io_kernel_start : Memory → ℕ → ℕ → ℕ → Memory
unfolding io_start
io_kernel_start m rq ns_id client_rq =
    let c = m.ios client_rq in
    io_start m rq ns_id c.pid (m.store client_rq).op c.dev_id c.user_buf c.buf_size c.sector c.hctx

unfoldable pub poll_start : Memory → ℕ → Memory
poll_start m rq = record m {
  store = write m.store rq (let old = m.store rq in record old { op = op_poll_completion });
}

unfoldable pub is_submitted : Memory → ℕ → Bool
is_submitted m rq = not (bit_and (m.ios rq).cookie submitted_bit == 0)

unfoldable pub acknowledge_submission : Memory → ℕ → Memory
acknowledge_submission m rq = record m {
  ios =
      write_io m.ios rq
        (let old = m.ios rq in record old { cookie = bit_or old.cookie submitted_bit });
}

unfoldable pub polling_enabled : Memory → ℕ → Bool
polling_enabled m rq = not (bit_and (m.ios rq).cookie polled_bit == 0)

unfoldable pub io_is_complete : Memory → ℕ → Bool
io_is_complete m rq = not (bit_and (m.ios rq).cookie complete_bit == 0)
