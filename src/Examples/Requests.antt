-- ===== src/Examples/Requests.antt =====
-- RPC structures made and freed.
use libnetconf.Common.{ℕ, refl, [], ◌∷◌, some}
use libnetconf.Common.Bytes.{codes, Bytes}
use libnetconf.Client.Rpc.Memory.{Heap, Ptr}
use libnetconf.Client.Rpc.{param_dup_and_free, ds_running, wd_unknown}
use libnetconf.Client.Rpc.Released.{Balanced}
use libnetconf.Client.Rpc.Calls.{call_getconfig, make, make-Balanced}

abbrev heap : Heap
heap = record { next = 8; live = 7 ∷ [] }

abbrev an_url : Ptr Bytes
an_url = record { block = 7; value = codes "file://x" }

make-Balanced_example :
    Balanced {Data = ℕ} heap
      (make (call_getconfig ds_running (some an_url) wd_unknown) param_dup_and_free heap)
make-Balanced_example =
    make-Balanced ℕ (call_getconfig ds_running (some an_url) wd_unknown) param_dup_and_free heap
      (λ e. absurd cc) refl
