-- ===== src/Examples/Answers.antt =====
-- A world outside that answers every call: fresh addresses, no errors, and memcpy_s within bounds.
use hcom4db.Base.{
  ◌+◌, ◌*◌, pos, String, List, [], ◌∷◌, none, some, length, map, leb, if◌then◌else◌, arith,
}
use hcom4db.Hcom.Types.{Func, ServiceType, codes, ock_rpc_ok, ock_rpc_err}
use hcom4db.Hcom.World.{World, Event, Reply, getenv, memcpy_s, no_reply, realpath, write_text}
use hcom4db.Client.Pack.Sizes.{BoundedCopies}
use hcom4db.Server.{zero_options, zero_tls_funcs}

-- The address depends on how much has happened.
abbrev pub answers : List Event → Reply
answers [] = no_reply ock_rpc_ok
answers (memcpy_s dest room src n ∷ t) = no_reply (if leb n room then ock_rpc_ok else ock_rpc_err)
answers (e ∷ t) = record (no_reply ock_rpc_ok) { out = 4096 + 65536 * length t; size = 5 }

pub answers-BoundedCopies : BoundedCopies answers
answers-BoundedCopies dest room src n t h = ground arith

-- Before anything is loaded.
abbrev pub start : World
start = record {
  lib = answers;
  trace = [];
  hcom_dl = 0;
  hcom_func = [];
  log_func = Func.null;
  tls_func = zero_tls_funcs;
  options = record zero_options { mr_send_receive_seg_size = 16; mr_send_receive_seg_count = 4 };
  connection_type = ServiceType.c_service_rdma;
  handle_map = [];
  rndv_handle_map = [];
  service_map = [];
  memory_allocator = [];
  memory_region = [];
  timeout_time = pos 1000;
  rpc_messages = λ p. record { data_ptr = 0; len = 0 };
  cb_infos = λ p. none;
}

-- The functions with these names are bound.
abbrev pub with_functions : List String → World
with_functions names = record start { hcom_func = map (λ s. (s, 1)) names }

-- The same, with a directory for the library and buffers that hold what was written.
abbrev pub answers_texts : List Event → Reply
answers_texts (getenv name ∷ t) = record (no_reply ock_rpc_ok) { text = some (codes "/lib") }
answers_texts (realpath path ∷ t) = record (no_reply ock_rpc_ok) { text = some path }
answers_texts (write_text room old text ∷ t) = record (no_reply ock_rpc_ok) { text = some text }
answers_texts t = answers t
