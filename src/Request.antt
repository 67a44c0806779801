-- ===== src/Request.antt =====
-- src/base/request.h and src/base/request.cpp: the request, and the buffer of requests.
pub mod Buffer
use aim_simulator.Base.{
  ℕ, ◌≡◌, refl, Bool, true, false, List, [], ◌∷◌, ℤ, minus_one, Result, ok, ◌>>=◌, ◌||◌, ◌&&◌,
  if◌then◌else◌, get_or, resize,
}
use aim_simulator.Isr.Table.{
  RequestType, MemAccessRegion, Opcode, type_eq, read, aim, max_type, max_region, max,
}
use aim_simulator.Isr.Info.{convert_aim_opcode_to_aim_isr}

-- `std::function<void(Request &)> callback`: empty, the memory system's `receive`, the frontend's
-- `receive`, the frontend's report of a checkpoint, or the processor's `receive`.
pub data Callback : Type 0 where
  no_callback dma_receive host_callback checkpoint_callback core_callback : Callback

-- The fields of `Request`; a field without a value holds -1. `write_data` is `data`.
pub record Request : Type 0 where
  pub addr : ℤ
  pub write_data : ℤ
  pub addr_vec : List ℤ
  pub host_req_id : ℤ
  pub aim_req_id : ℤ
  pub type : RequestType
  pub mem_access_region : MemAccessRegion
  pub opcode : Opcode
  pub opsize : ℤ
  pub gpr_addr_0 : ℤ
  pub gpr_addr_1 : ℤ
  pub channel_mask : ℤ
  pub bank_index : ℤ
  pub row_addr : ℤ
  pub col_addr : ℤ
  pub thread_index : ℤ
  pub broadcast : ℤ
  pub afm : ℤ
  pub ewmul_bg : ℤ
  pub source_id : ℤ
  pub command : ℤ
  pub final_command : ℤ
  pub arrive : ℤ
  pub issue : ℤ
  pub depart : ℤ
  pub type_id : ℤ
  pub callback : Callback

-- A request with every default; the constructors override some fields.
abbrev pub default_request : Request
default_request = record {
  addr = minus_one;
  write_data = ℤ.pos 0;
  addr_vec = [];
  host_req_id = minus_one;
  aim_req_id = minus_one;
  type = max_type;
  mem_access_region = max_region;
  opcode = max;
  opsize = minus_one;
  gpr_addr_0 = minus_one;
  gpr_addr_1 = minus_one;
  channel_mask = minus_one;
  bank_index = minus_one;
  row_addr = minus_one;
  col_addr = minus_one;
  thread_index = minus_one;
  broadcast = minus_one;
  afm = minus_one;
  ewmul_bg = minus_one;
  source_id = minus_one;
  command = minus_one;
  final_command = minus_one;
  arrive = minus_one;
  issue = minus_one;
  depart = minus_one;
  type_id = minus_one;
  callback = no_callback;
}

unfoldable pub is_reader : Request → Result Bool
is_reader r =
    if type_eq r.type read
    then ok true
    else if type_eq r.type aim
    then (do isr ← convert_aim_opcode_to_aim_isr r.opcode; ok isr.aim_dma_blocking)
    else ok false

-- `addr_vec[level]`; the program never reads out of bounds, where this gives -1.
abbrev pub addr_at : Request → ℕ → ℤ
addr_at r level = get_or r.addr_vec level minus_one
