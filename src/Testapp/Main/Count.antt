-- ===== src/Testapp/Main/Count.antt =====
-- examples/xdma_testapp/testapp_count.c: its port functions, which are those of testapp_inter.c line
-- by line, with `port_init` for `port_init_xdma`, and its `main`.
use xdma_dpdk.Base.{ℕ, List, [], ◌∷◌}
use xdma_dpdk.Base.Int.{ℤ}
use xdma_dpdk.Testapp.Ports.{Call, App, EventType, port_init_xdma}
use xdma_dpdk.Testapp.Ports
use xdma_dpdk.Testapp.Threads.{ThreadArgs}
use xdma_dpdk.Testapp.Main.{
  Act, thread_create, thread_join, Part, ◌>>=◌, ◌>>◌, ask, on, start_app, take_buffers, with_pool,
  end_app,
}

module _ (dpdk : List Call → Call → ℤ) where
  abbrev pub port_close : App ℤ
  port_close = Ports.port_close dpdk

  abbrev pub port_remove : App ℤ
  port_remove = Ports.port_remove dpdk

  abbrev pub port_init : (num_queues st_queues nb_descs buff_size : ℕ) → App ℤ
  port_init = port_init_xdma dpdk

  abbrev pub port_reset : (num_queues st_queues nb_descs buff_size : ℕ) → App ℤ
  port_reset = Ports.port_reset dpdk

  abbrev pub dev_remove_callback : EventType → App ℤ
  dev_remove_callback = Ports.dev_remove_callback dpdk

  abbrev pub dev_reset_callback : EventType → App ℤ
  dev_reset_callback = Ports.dev_reset_callback dpdk

-- From port 0 to port 1, with the buffers of `pkts_0`.
abbrev pub args_0 : ThreadArgs
args_0 = record {
  src_port_id = 0;
  src_queue_id = 0;
  dst_port_id = 1;
  dst_queue_id = 0;
  pkts_idx = 0;
}

-- And back, with those of `pkts_1`.
abbrev pub args_1 : ThreadArgs
args_1 = record {
  src_port_id = 1;
  src_queue_id = 0;
  dst_port_id = 0;
  dst_queue_id = 0;
  pkts_idx = 1;
}

-- `main` of testapp_count.c.
unfoldable pub count_main : (answer : List Act → Act → ℤ) → Part ℤ
unfolding start_app take_buffers end_app
count_main answer = do
  num_ports ← start_app answer
  on answer 0 (λ dpdk. port_init dpdk 4 4 1 1024)
  on answer 1 (λ dpdk. port_init dpdk 4 4 1 1024)
  with_pool answer 0 (do
    take_buffers answer 0 (0 ∷ 1 ∷ []) 32
    ask answer (thread_create args_0)
    ask answer (thread_create args_1)
    ask answer (thread_join 0)
    ask answer (thread_join 1)
    end_app answer num_ports)
