-- ===== src/Server/Kept/Steps.antt =====
-- The registration of handlers and the options of a server in src/hcom4db.cpp keep the maps.
use hcom4db.Base.{ℕ, Bool}
use hcom4db.Config.{ConfigMap, CreateConfig}
use hcom4db.Base.Maps.{bytes_key}
use hcom4db.Hcom.Types.{Bytes, ServiceOptions, TlsFuncs, Func}
use hcom4db.Hcom.Service.{
  service_register_allocate_handler, service_register_channel_handler,
  service_register_free_handler, service_register_op_handler, service_register_rndv_op_handler,
  service_register_tls_cb, service_set_external_logger, service_set_oob_ip_and_port,
}
use hcom4db.Hcom.World.{World, modify}
use hcom4db.Server.Options.{
  set_options, copy_field, copy_entry, set_work_thread_configs, set_addresses, set_segment_count,
  set_segments, default_option_init,
}
use hcom4db.Server.Features.{
  register_rndv, set_rndv_op_handler, register_tls, set_tls_configs, enable_rndv, set_rndv,
  set_heartbeat, set_workers, expand_option_init,
}
use hcom4db.Server.Create.{register_channel_handle, register_handlers, set_logger}
use hcom4db.Server.Kept.{others, others-Keeps, Keeps, keeping}

set_options-Keeps : (f : ServiceOptions → ServiceOptions) → Keeps (set_options f)
set_options-Keeps f = others-Keeps (λ w. record (others w) { options = f w.options })

tls_func-Keeps : (f : World → TlsFuncs) → Keeps (modify (λ w. record w { tls_func = f w }))
tls_func-Keeps f = others-Keeps (λ w. record (others w) { tls_func = f w })

ruleset steps = (keeping, set_options-Keeps, tls_func-Keeps)

copy_field-Keeps :
    (room : ℕ) (field : ServiceOptions → Bytes) (put : Bytes → ServiceOptions → ServiceOptions)
    (text : Bytes)
    → Keeps (copy_field room field put text)
unfolding copy_field
copy_field-Keeps room field put text = search steps

copy_entry-Keeps :
    (m : ConfigMap) (key : Bytes) (room : ℕ) (field : ServiceOptions → Bytes)
    (put : Bytes → ServiceOptions → ServiceOptions)
    → Keeps (copy_entry m key room field put)
unfolding copy_entry
copy_entry-Keeps m key room field put = search (steps, copy_field-Keeps)

set_work_thread_configs-Keeps : (m : ConfigMap) → Keeps (set_work_thread_configs m)
unfolding set_work_thread_configs
set_work_thread_configs-Keeps m = search (steps, copy_entry-Keeps) depth 12

set_addresses-Keeps : (m : ConfigMap) (mask : Bytes) → Keeps (set_addresses m mask)
unfolding set_addresses
set_addresses-Keeps m mask = search (steps, copy_field-Keeps)

set_segment_count-Keeps : (m : ConfigMap) (mask : Bytes) → Keeps (set_segment_count m mask)
unfolding set_segment_count
set_segment_count-Keeps m mask = search (steps, set_addresses-Keeps)

set_segments-Keeps : (m : ConfigMap) (mask : Bytes) → Keeps (set_segments m mask)
unfolding set_segments
set_segments-Keeps m mask = search (steps, set_segment_count-Keeps)

pub default_option_init-Keeps : (m : ConfigMap) (ip : Bytes) → Keeps (default_option_init m ip)
unfolding default_option_init
default_option_init-Keeps m ip = search (steps, set_segments-Keeps)

register_rndv-Keeps : (service a r : ℕ) → Keeps (register_rndv service a r)
unfolding register_rndv service_register_allocate_handler service_register_free_handler
    service_register_rndv_op_handler
register_rndv-Keeps service a r = search (steps)

set_rndv_op_handler-Keeps : (service : ℕ) (m : ConfigMap) → Keeps (set_rndv_op_handler service m)
unfolding set_rndv_op_handler
set_rndv_op_handler-Keeps service m = search (steps, register_rndv-Keeps)

enable_rndv-Keeps : (service : ℕ) (m : ConfigMap) → Keeps (enable_rndv service m)
unfolding enable_rndv
enable_rndv-Keeps service m = search (steps, set_rndv_op_handler-Keeps)

set_rndv-Keeps : (service : ℕ) (m : ConfigMap) → Keeps (set_rndv service m)
unfolding set_rndv
set_rndv-Keeps service m = search (steps, enable_rndv-Keeps)

set_heartbeat-Keeps : (m : ConfigMap) → Keeps (set_heartbeat m)
unfolding set_heartbeat
set_heartbeat-Keeps m = search (steps)

set_workers-Keeps : (c : CreateConfig) (m : ConfigMap) → Keeps (set_workers c m)
unfolding set_workers
set_workers-Keeps c m = search (steps, set_work_thread_configs-Keeps)

register_tls-Keeps : (service : ℕ) (c : CreateConfig) (b : Bool) → Keeps (register_tls service c b)
unfolding register_tls service_register_tls_cb
register_tls-Keeps service c b = search steps

set_tls_configs-Keeps :
    (service : ℕ) (c : CreateConfig) (m : ConfigMap) → Keeps (set_tls_configs service c m)
unfolding set_tls_configs
set_tls_configs-Keeps service c m = search (steps, register_tls-Keeps)

pub expand_option_init-Keeps :
    (service : ℕ) (c : CreateConfig) (m : ConfigMap) → Keeps (expand_option_init service c m)
unfolding expand_option_init
expand_option_init-Keeps service c m =
    search (steps, set_workers-Keeps, set_heartbeat-Keeps, set_rndv-Keeps, set_tls_configs-Keeps)
      depth 12

register_channel_handle-Keeps :
    (service : ℕ) (m : ConfigMap) → Keeps (register_channel_handle service m)
unfolding register_channel_handle service_register_channel_handler
register_channel_handle-Keeps service m = search (steps)

pub register_handlers-Keeps :
    (service : ℕ) (ip : Bytes) (port : ℕ) (m : ConfigMap)
    → Keeps (register_handlers service ip port m)
unfolding register_handlers service_set_oob_ip_and_port service_register_op_handler
register_handlers-Keeps service ip port m = search (steps, register_channel_handle-Keeps) depth 14

log_func-Keeps : (f : World → Func) → Keeps (modify (λ w. record w { log_func = f w }))
log_func-Keeps f = others-Keeps (λ w. record (others w) { log_func = f w })

pub set_logger-Keeps : Keeps set_logger
unfolding set_logger service_set_external_logger
set_logger-Keeps = search (keeping, log_func-Keeps)
