-- ===== src/Tests/Drivers.antt =====
-- The multi-queue driver at concrete inputs.
use labstor.Base.{
  ℕ, ◌≡◌, refl, ◌≢◌, inl, true, false, none, some, List, [], ◌∷◌, arith, ◌==◌, if◌then◌else◌,
  get_or,
}
use labstor.QueuePair.{QueuePair}
use labstor.Region.{region_add}
use labstor.RequestMap.View
use labstor.Spin.{returned}
use labstor.Tests.Maps.{two_buckets}
use labstor.Kernel.BlkdevTable.{Bdevs}
use labstor.MqDriver.{IoRequest, Memory, polling_enabled, io_is_complete}
use labstor.MqDriver.Failed.{driver_of, behind, failed-silent}
use labstor.MqDriver.Interrupt.{interrupt, interrupt-silent}
use labstor.MqDriver.Kernel.{Driver, submit_mq_driver_io}
use labstor.MqDriver.Rounds.{io_rounds}
use labstor.MqDriver.Server.{Server}
use labstor.MqDriver.Submission.{Returns, DeviceQueue, dev_rq_at, ok, Event}

-- a write of two pages to hardware queue 1 of the device 0
abbrev io_request : IoRequest
io_request = record {
  dev_id = 0;
  user_buf = 65536;
  sector = 64;
  buf_size = 5000;
  hctx = 1;
  pid = 77;
  num_hw_queues = 0;
  cookie = 0;
  flags = record { is_submitted = false; polled_io = false; io_is_complete = false };
  kern_qtok = record { qid = record { flags = 1; kind = 0; cnt = 0; pid = 0 }; req_id = 6 };
  kern_rq = 0;
}

-- The client's request at 1016 has the number 5 and the code 1; the kernel's, at 1032, the number
-- 6.
abbrev memory : Memory
memory = record {
  store = λ rq.
      if rq == 1016
      then record { req_id = 5; ns_id = 1; code = 1; op = 3 }
      else record { req_id = 6; ns_id = 4; code = 0; op = 3 };
  ios = λ rq. io_request;
  stats = λ rq. record { dev_id = 0; num_hw_queues = 0; queue_depth = 0 };
}

abbrev pair : QueuePair
pair = record {
  sq = record {
    base_region = 1000;
    header = 1100;
    qid = record { flags = 1; kind = 0; cnt = 0; pid = 0 };
    update = (0, 0);
    ring = record { enqueued = 7; dequeued = 7; max_depth = 2; queue = 0 ∷ 0 ∷ [] };
  };
  cq = two_buckets;
}

abbrev queue_of : ℕ → DeviceQueue
queue_of bdev = record { poll = false; queue_rq = true; nr_hw_queues = 2; nr_requests = 64 }

-- every call succeeds
abbrev returns : Returns
returns = record {
  task = true;
  page_array = some 7000;
  pinned = 2;
  bio = some 7100;
  dev_rq = dev_rq_at 7200;
  status = ok;
  cookie = 0;
}

abbrev driver : Driver
driver = record { memory = memory; qp = pair; bdevs = some 8192 ∷ [] }

-- the kernel's request waits in bucket 0
abbrev submitted : Server
submitted = record {
  memory = memory;
  client = pair;
  kern = record {
    sq = pair.sq;
    cq = record two_buckets { buckets = 32 ∷ get_or two_buckets.buckets 1 0 ∷ [] };
  };
  dev_id = 3;
  freed = [];
}

interrupt-silent_example :
    (s₁ : Server) × (s₂ : Server) × (io_rounds 10 submitted 1016 none [] ≡ returned (false, s₁))
    × (((interrupt s₁ 1032 0).memory.ios 1032).flags.io_is_complete ≡ true)
    × (io_rounds 1000 (interrupt s₁ 1032 0) 1016 none [] ≡ returned (false, s₂))
    × (s₂.client ≡ pair)
    × (s₂.freed ≡ [])
unfolding polling_enabled io_is_complete region_add
interrupt-silent_example =
    interrupt-silent 9 1000 0 submitted 1016 1032 none []
      (record {
        first = refl;
        kern_valid = record { positive = omega arith; storage = omega arith };
        answered = refl;
        not_polled = refl;
        apart = λ e. absurd (omega (arith, e));
      })
      refl

-- the kernel has not answered
abbrev sent : Server
sent = record submitted { kern = pair }

-- no device stands under the id 0
abbrev no_bdevs : Bdevs
no_bdevs = none ∷ []

failed-silent_example :
    (es : List Event) × (d : Driver) × (s' : Server) × (submit_mq_driver_io queue_of returns
        (driver_of sent no_bdevs)
        1032
        []
      ≡ returned (es, d))
    × ((d.memory.store 1032).code ≢ 0)
    × (io_rounds 1000 (behind sent d) 1016 none [] ≡ returned (false, s'))
    × (s'.client ≡ pair)
    × (s'.freed ≡ [])
unfolding polling_enabled io_is_complete region_add
failed-silent_example =
    failed-silent 999 queue_of returns no_bdevs sent 1016 1032 none []
      (record {
        first = refl;
        token = refl;
        apart = λ e. absurd (omega (arith, e));
        kern_valid = record { positive = omega arith; storage = omega arith };
        reach = (omega arith, omega arith, omega arith);
        vacant = refl;
        not_polled = refl;
        not_complete = refl;
      })
      (record { alive = refl; few_pages = inl (omega arith); in_table = omega arith }) refl
