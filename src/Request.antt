-- ===== src/Request.antt =====
-- Requests and queue tokens: include/labstor/types/data_structures/shmem_request.h and
-- shmem_qtok.h. A request is known by its address; `Store` is the memory of all requests.
use labstor.Base.{ℕ, ◌==◌, if◌then◌else◌}

pub record Request : Type 0 where
  pub req_id : ℕ
  pub ns_id : ℕ
  pub code : ℕ
  pub op : ℕ

pub record Qid : Type 0 where
  pub flags : ℕ
  pub kind : ℕ
  pub cnt : ℕ
  pub pid : ℕ

pub record Qtok : Type 0 where
  pub qid : Qid
  pub req_id : ℕ

abbrev pub Store : Type 0
Store = ℕ → Request

abbrev pub write : Store → ℕ → Request → Store
write st rq v a = if rq == a then v else st a

-- `rq->req_id_ = id`
abbrev pub set_req_id : Store → ℕ → ℕ → Store
set_req_id st rq id = write st rq (let old = st rq in record old { req_id = id })

-- `rq->code_ = code`
abbrev pub set_code : Store → ℕ → ℕ → Store
set_code st rq code = write st rq (let old = st rq in record old { code = code })
