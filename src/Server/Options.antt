-- ===== src/Server/Options.antt =====
-- The options of the server, which src/hcom4db.cpp writes into `g_options`: the worker threads, the
-- defaults, the rendezvous handlers, TLS. A text that is copied into a buffer goes through securec, which
-- is answered from outside: the buffer then holds what the answer says.
use hcom4db.Base.{ℕ, ℤ, Bool, true, false, [], ◌++◌, none, some, if◌then◌else◌}
use hcom4db.Base.Maps.{lookup, bytes_key}
use hcom4db.Config.{ConfigMap, string_2_num, yes_or_no}
use hcom4db.Config.Allocator.{
  segment_size_key, segment_count_key, ock_max_messag_size, ock_max_messag_count,
}
use hcom4db.Hcom.Types.{
  Bytes, ServiceOptions, WorkingMode, codes, ock_rpc_ok, ock_rpc_err, ock_rpc_err_invalid_param,
}
use hcom4db.Hcom.Loader.{is_negative}
use hcom4db.Hcom.World.{
  M, write_text, pure, ◌>>=◌, ◌>>◌, gets, modify, ask, unless_ok, or_return, buffer,
}

-- `options->field = value`.
abbrev pub set_options : (ServiceOptions → ServiceOptions) → M (Unit {0})
set_options f = modify (λ w. record w { options = f w.options })

-- A text copied into a field with `room` bytes.
unfoldable pub copy_field :
    ℕ → (ServiceOptions → Bytes) → (Bytes → ServiceOptions → ServiceOptions) → Bytes → M ℤ
copy_field room field put text = do
  old ← gets (λ w. field w.options)
  written ← ask (write_text room old text)
  set_options (put (buffer written))
  unless_ok written.ret ock_rpc_err (pure ock_rpc_ok)

-- The same for an entry of the configuration, where there is one.
unfoldable pub copy_entry :
    ConfigMap
    → Bytes
    → ℕ
    → (ServiceOptions → Bytes)
    → (Bytes → ServiceOptions → ServiceOptions)
    → M ℤ
copy_entry m key room field put =
    or_return (lookup key m) ock_rpc_ok (λ text. copy_field room field put text.bytes)

abbrev pub poll_worker_key : Bytes
poll_worker_key = codes "worker.poll.enable"

abbrev pub worker_groups_key : Bytes
worker_groups_key = codes "worker.thread.groups"

abbrev pub worker_cpu_set_key : Bytes
worker_cpu_set_key = codes "worker.thread.cpuset"

abbrev pub put_worker_groups : Bytes → ServiceOptions → ServiceOptions
put_worker_groups t o = record o { worker_groups = t }

abbrev pub put_worker_groups_cpu_set : Bytes → ServiceOptions → ServiceOptions
put_worker_groups_cpu_set t o = record o { worker_groups_cpu_set = t }

abbrev pub mode_of : Bool → WorkingMode
mode_of true = WorkingMode.c_service_busy_polling
mode_of false = WorkingMode.c_service_event_polling

unfoldable pub set_work_thread_configs : ConfigMap → M ℤ
set_work_thread_configs m = do
  set_options (λ o. record o { mode = WorkingMode.c_service_event_polling })
  or_return (yes_or_no m poll_worker_key false) ock_rpc_err λ busy. do
    set_options (λ o. record o { mode = mode_of busy })
    groups ← copy_entry m worker_groups_key 64 (λ o. o.worker_groups) put_worker_groups
    unless_ok groups ock_rpc_err (
        copy_entry m worker_cpu_set_key 128 (λ o. o.worker_groups_cpu_set)
          put_worker_groups_cpu_set)

abbrev pub port_range_key : Bytes
port_range_key = codes "server.create.range"

-- OCK_RPC_STR_SERVER_PORT_RANGE, `4000-5000` by default.
abbrev pub port_range : ConfigMap → Bytes
port_range m = elim (lookup port_range_key m) [ none ↦ codes "4000-5000" | some v ↦ v.bytes ]

abbrev pub put_port_range : Bytes → ServiceOptions → ServiceOptions
put_port_range t o = record o { oob_port_range = t }

abbrev pub put_ip_mask : Bytes → ServiceOptions → ServiceOptions
put_ip_mask t o = record o { net_device_ip_mask = t }

abbrev pub default_queues : ServiceOptions → ServiceOptions
default_queues o = record o {
  qp_send_queue_size = 2048;
  qp_receive_queue_size = 2048;
  pre_post_receive_size_per_qp = 1024;
  completion_queue_depth = 8192;
}

-- The part behind the numbers: queues, port range, address mask.
unfoldable pub set_addresses : ConfigMap → Bytes → M ℤ
set_addresses m ip_mask = do
  set_options default_queues
  range ← copy_field 16 (λ o. o.oob_port_range) put_port_range (port_range m)
  unless_ok range ock_rpc_err (copy_field 256 (λ o. o.net_device_ip_mask) put_ip_mask ip_mask)

unfoldable pub set_segment_count : ConfigMap → Bytes → M ℤ
set_segment_count m ip_mask =
    or_return (string_2_num m segment_count_key ock_max_messag_count) ock_rpc_err λ count. do
      set_options (λ o. record o { mr_send_receive_seg_count = count })
      set_addresses m ip_mask

unfoldable pub set_segments : ConfigMap → Bytes → M ℤ
set_segments m ip_mask = do
  set_options (λ o. record o {
    mr_send_receive_seg_size = ock_max_messag_size;
    mr_send_receive_seg_count = ock_max_messag_count;
  })
  or_return (string_2_num m segment_size_key ock_max_messag_size) ock_rpc_err λ size. do
    set_options (λ o. record o { mr_send_receive_seg_size = size })
    set_segment_count m ip_mask

unfoldable pub default_option_init : ConfigMap → Bytes → M ℤ
default_option_init m ip = do
  mask ← ask (write_text 64 [] (ip ++ codes "/24"))
  if is_negative mask.ret then pure ock_rpc_err_invalid_param else set_segments m (buffer mask)
