-- ===== src/Testapp/Main/Locks.antt =====
-- The functions of a port that the main functions call leave its lock free.
use xdma_dpdk.Base.{ℕ, zero, suc, ◌+◌, ◌==◌, List, Bool, if◌then◌else◌}
use xdma_dpdk.Base.Int.{ℤ, pos, negsuc, eqb_ℤ}
use xdma_dpdk.Testapp.Ports.{
  Call, get_device, is_valid_port, nic_pool, configure, info_get, rx_queue_setup, tx_queue_setup,
  dev_start, promiscuous_enable, xdma_remove, return, call, must_exist, port_close, nic_queues,
  port_init_nic, main_remove_port,
}
use xdma_dpdk.Testapp.Ports.Lock.{
  Takes, both, either, return_keeps, must_exist_keeps, after_call, after_must, call_keeps,
  port_close_keeps,
}

module _ (dpdk : List Call → Call → ℤ) where
  nic_queues_keep :
      (b : Bool) (setup : ℕ → Call) (left q : ℕ) → Takes b b (nic_queues dpdk setup left q)
  unfolding nic_queues
  nic_queues_keep b setup zero q = return_keeps dpdk b (pos 0)
  nic_queues_keep b setup (suc left) q =
      after_must dpdk b b (setup q) _ λ _. nic_queues_keep b setup left (q + 1)

  pub port_init_nic_keeps :
      (b : Bool) (rx tx nb_descs buff_size : ℕ)
      → Takes b b (port_init_nic dpdk rx tx nb_descs buff_size)
  unfolding port_init_nic
  port_init_nic_keeps b rx tx nb_descs buff_size = after_call dpdk b b is_valid_port _ λ valid.
      either b b (eqb_ℤ valid 0) (return (negsuc 0)) _ (return_keeps dpdk b (negsuc 0)) (
        both b b b (must_exist dpdk (nic_pool (rx + tx) nb_descs buff_size)) _
          (must_exist_keeps dpdk b (nic_pool (rx + tx) nb_descs buff_size))
          λ _. after_must dpdk b b (configure rx tx) _ λ _. after_call dpdk b b info_get _ λ _.
            both b b b (nic_queues dpdk (λ q. rx_queue_setup q nb_descs) rx 0) _
              (nic_queues_keep b (λ q. rx_queue_setup q nb_descs) rx 0)
              λ _.
                both b b b (nic_queues dpdk (λ q. tx_queue_setup q nb_descs) tx 0) _
                  (nic_queues_keep b (λ q. tx_queue_setup q nb_descs) tx 0)
                  λ _.
                    after_must dpdk b b dev_start _ λ _.
                      after_call dpdk b b promiscuous_enable _ λ _. return_keeps dpdk b (pos 0))

  closes_keeps :
      (b : Bool)
      → Takes b b (λ w. (if w.pinfo.num_queues == 0 then return (pos 0) else port_close dpdk) w)
  unfolding Takes
  closes_keeps b = λ w l.
      either b b (w.pinfo.num_queues == 0) (return (pos 0)) (port_close dpdk)
        (return_keeps dpdk b (pos 0)) (port_close_keeps dpdk b) w l

  pub main_remove_port_keeps : (b : Bool) → Takes b b (main_remove_port dpdk)
  unfolding main_remove_port
  main_remove_port_keeps b = both b b b _ _ (closes_keeps b) λ _.
      after_call dpdk b b get_device _ λ dev.
        either b b (eqb_ℤ dev 0) (return (pos 0)) (call dpdk xdma_remove)
          (return_keeps dpdk b (pos 0)) (call_keeps dpdk b xdma_remove)
