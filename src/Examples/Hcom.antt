-- ===== src/Examples/Hcom.antt =====
-- Loading libhcom.so, at concrete inputs.
use hcom4db.Base.{◌≡◌, refl, true, none, some, arith}
use hcom4db.Hcom.Call.{Call, symbol}
use hcom4db.Hcom.Types.{Bytes, codes, ock_rpc_ok, ock_rpc_err}
use hcom4db.Hcom.Channel.{channel_post_response_raw_sgl}
use hcom4db.Hcom.World.{is_bound, no_reply}
use hcom4db.Hcom.Loader.{init_ock_rpc_dl}
use hcom4db.Hcom.Loader.Bound.{Resolves}
use hcom4db.Hcom.Loader.Init.{
  IsFresh, Opens, init_ock_rpc_dl-ok, init_ock_rpc_dl-binds, channel_post_response_raw_sgl_dead,
}
use hcom4db.Client.Pack.Packed.{empty_request}
use hcom4db.Examples.Answers.{answers, start}

abbrev path : Bytes
path = codes "libhcom.so"

start-IsFresh : IsFresh start
start-IsFresh = record { no_handle = refl; no_functions = refl }

start-Opens : Opens start path
start-Opens = λ e. absurd (omega arith)

answers-Resolves : Resolves answers
answers-Resolves h s t = (refl, λ e. absurd (omega arith))

init_ock_rpc_dl-ok_example : (init_ock_rpc_dl (some path) 4096 start).0 ≡ ock_rpc_ok
init_ock_rpc_dl-ok_example = init_ock_rpc_dl-ok path 4095 start start-IsFresh start-Opens

init_ock_rpc_dl-binds_example :
    is_bound (symbol (Call.service_stop 7)) (init_ock_rpc_dl (some path) 4096 start).1.hcom_func
    ≡ true
init_ock_rpc_dl-binds_example =
    init_ock_rpc_dl-binds path 4095 start start-IsFresh start-Opens answers-Resolves
      (Call.service_stop 7)

channel_post_response_raw_sgl_dead_example :
    let w = (init_ock_rpc_dl (some path) 4096 start).1 in
    channel_post_response_raw_sgl 7 8 empty_request none w ≡ (no_reply ock_rpc_err, w)
channel_post_response_raw_sgl_dead_example =
    channel_post_response_raw_sgl_dead path 4095 start start-IsFresh start-Opens 7 8 empty_request
      none
