-- ===== src/Testapp/Ports.antt =====
-- Ports in examples/xdma_testapp/testapp_inter.c: set-up, closing, removal and reset of a port. What the
-- calls of DPDK and of the driver's public interface answer is a parameter; the model keeps the calls
-- in order. A program ends at `rte_exit`, and a lock that is held makes the next one who takes it
-- spin for ever.
pub mod Lock
use xdma_dpdk.Base.{
  ℕ, zero, suc, ◌+◌, ◌*◌, ◌%◌, ◌^◌, Bool, true, false, not, Option, none, some, List, [], ◌∷◌, max,
  ltb, ◌==◌, if◌then◌else◌, u32,
}
use xdma_dpdk.Base.Int.{ℤ, pos, negsuc, is_neg, eqb_ℤ}

-- A call with its arguments, but for the port, which is always the same. A queue has a number.
pub data Call : Type 0 where
  get_device : Call
  is_valid_port : Call
  pool_create : (elements room : ℕ) → Call
  pool_lookup : Call
  pool_free : Call
  get_bar_details : Call
  configure : (rx_queues tx_queues : ℕ) → Call
  info_get : Call
  tx_queue_setup : (queue descs : ℕ) → Call
  rx_queue_setup : (queue descs : ℕ) → Call
  dev_start : Call
  dev_stop : Call
  dev_reset : Call
  promiscuous_enable : Call
  fp_ops_config : Call
  xdma_close : Call
  xdma_remove : Call

-- `struct port_info` of the port, with the fields that are used.
pub record PortInfo : Type 0 where
  pub num_queues : ℕ
  pub nb_descs : ℕ
  pub st_queues : ℕ
  pub buff_size : ℕ
  pub port_update_lock : Bool

-- The port, with the calls so far, the latest first.
pub record World : Type 0 where
  pub pinfo : PortInfo
  pub calls : List Call

-- How a function ends: it returns, the program exits, or the thread spins on a lock that is held.
pub data Run (A : Type 0) : Type 0 where
  returns : A → World → Run A
  exits : World → Run A
  spins : World → Run A

abbrev pub App : Type 0 → Type 0
App A = World → Run A

abbrev pub bind : {A B : Type 0} → Run A → (A → App B) → Run B
bind (returns a w) f = f a w
bind (exits w) f = exits w
bind (spins w) f = spins w

infixl 5 ◌>>=◌ ◌>>◌
abbrev pub ◌>>=◌ : {A B : Type 0} → App A → (A → App B) → App B
(m >>= f) w = bind (m w) f

abbrev pub ◌>>◌ : {A B : Type 0} → App A → App B → App B
m >> k = m >>= λ _. k

abbrev pub return : {A : Type 0} → A → App A
return a w = returns a w

abbrev pub rte_exit : {A : Type 0} → App A
rte_exit w = exits w

abbrev pub update : (PortInfo → PortInfo) → App ℤ
update f w = returns (pos 0) (record w { pinfo = f w.pinfo })

abbrev pub set_lock : Bool → PortInfo → PortInfo
set_lock b p = record p { port_update_lock = b }

abbrev pub forget_queues : PortInfo → PortInfo
forget_queues p = record p { num_queues = 0 }

abbrev pub with_queues : (num_queues st_queues nb_descs buff_size : ℕ) → PortInfo → PortInfo
with_queues num_queues st_queues nb_descs buff_size p = record p {
  num_queues = num_queues;
  nb_descs = nb_descs;
  st_queues = st_queues;
  buff_size = buff_size;
}

unfoldable pub spinlock_lock : App ℤ
spinlock_lock w =
    if w.pinfo.port_update_lock
    then spins w
    else returns (pos 0) (record w { pinfo = set_lock true w.pinfo })

unfoldable pub spinlock_unlock : App ℤ
spinlock_unlock w = returns (pos 0) (record w { pinfo = set_lock false w.pinfo })

abbrev pub mp_cache_sz : ℕ
mp_cache_sz = 512

abbrev pub num_tx_pkts : ℕ
num_tx_pkts = 32

-- `RTE_PKTMBUF_HEADROOM`
abbrev pub headroom : ℕ
headroom = 128

-- `enum rte_eth_event_type`, as far as the callbacks tell it apart.
pub data EventType : Type 0 where
  intr_rmv : EventType
  intr_reset : EventType
  other_event : EventType

abbrev pub errno_enomsg : ℤ
errno_enomsg = negsuc 41

-- The pools of the two kinds of port.
abbrev pub nic_pool : (queues nb_descs buff_size : ℕ) → Call
nic_pool queues nb_descs buff_size =
    pool_create (max (u32 (nb_descs * queues * 2)) (mp_cache_sz * 2)) (buff_size + headroom)

abbrev pub xdma_pool : (num_queues nb_descs buff_size : ℕ) → Call
xdma_pool num_queues nb_descs buff_size =
    pool_create
      (max (u32 (u32 (nb_descs * num_queues * 2) + num_tx_pkts * num_queues)) (mp_cache_sz * 2))
      (buff_size + headroom)

module _ (dpdk : List Call → Call → ℤ) where
  -- The answer to a call may depend on all calls before it.
  abbrev pub call : Call → App ℤ
  call c w = returns (dpdk w.calls c) (record w { calls = c ∷ w.calls })

  -- `if (ret < 0) rte_exit(...)`
  abbrev pub must : Call → App ℤ
  must c = call c >>= λ ret. if is_neg ret then rte_exit else return ret

  -- `if (pool == NULL) rte_exit(...)`
  abbrev pub must_exist : Call → App ℤ
  must_exist c = call c >>= λ ret. if eqb_ℤ ret 0 then rte_exit else return ret

  unfoldable pub port_close : App ℤ
  port_close = do
    dev ← call get_device
    if eqb_ℤ dev 0 then return (pos 0) else (do
      call dev_stop
      call xdma_close
      update forget_queues
      mp ← call pool_lookup
      if eqb_ℤ mp 0 then return (pos 0) else call pool_free)

  unfoldable pub port_remove : App ℤ
  unfolding port_close spinlock_lock spinlock_unlock
  port_remove = do
    dev ← call get_device
    if eqb_ℤ dev 0
        then return (pos 0)
        else (do spinlock_lock; port_close; ret ← call xdma_remove; spinlock_unlock; return ret)

  -- `for (q = 0; q < n; q++)`, with `left` of its rounds to go.
  unfoldable pub nic_queues : (setup : ℕ → Call) → (left q : ℕ) → App ℤ
  nic_queues setup zero q = return (pos 0)
  nic_queues setup (suc left) q = must (setup q) >> nic_queues setup left (q + 1)

  -- The arguments are `uint16_t`.
  unfoldable pub port_init_nic : (nb_rx_queues nb_tx_queues nb_descs buff_size : ℕ) → App ℤ
  unfolding nic_queues
  port_init_nic nb_rx_queues nb_tx_queues nb_descs buff_size = do
    valid ← call is_valid_port
    if eqb_ℤ valid 0 then return (negsuc 0) else (do
      must_exist (nic_pool (nb_rx_queues + nb_tx_queues) nb_descs buff_size)
      must (configure nb_rx_queues nb_tx_queues)
      call info_get
      nic_queues (λ q. rx_queue_setup q nb_descs) nb_rx_queues 0
      nic_queues (λ q. tx_queue_setup q nb_descs) nb_tx_queues 0
      must dev_start
      call promiscuous_enable
      return (pos 0))

  -- `for (x = 0; x < num_queues; x++)`, with `left` of its rounds to go.
  unfoldable pub xdma_queues : (nb_descs left x : ℕ) → App ℤ
  xdma_queues nb_descs zero x = return (pos 0)
  xdma_queues nb_descs (suc left) x = do
    must (tx_queue_setup x nb_descs)
    must (rx_queue_setup x nb_descs)
    xdma_queues nb_descs left (x + 1)

  -- The arguments are `int`; no caller gives a negative one.
  unfoldable pub port_init_xdma : (num_queues st_queues nb_descs buff_size : ℕ) → App ℤ
  unfolding xdma_queues
  port_init_xdma num_queues st_queues nb_descs buff_size = do
    dev ← call get_device
    if eqb_ℤ dev 0 then return (negsuc 0) else (do
      must_exist (xdma_pool num_queues nb_descs buff_size)
      must get_bar_details
      must (configure num_queues num_queues)
      update (with_queues num_queues st_queues nb_descs buff_size)
      xdma_queues nb_descs num_queues 0
      must dev_start
      call fp_ops_config
      return (pos 0))

  unfoldable pub port_reset : (num_queues st_queues nb_descs buff_size : ℕ) → App ℤ
  unfolding port_close port_init_xdma spinlock_lock spinlock_unlock
  port_reset num_queues st_queues nb_descs buff_size = do
    dev ← call get_device
    if eqb_ℤ dev 0 then return (negsuc 0) else (do
      spinlock_lock
      port_close
      ret ← call dev_reset
      if is_neg ret then (do spinlock_unlock; return (negsuc 0)) else (do
        ret' ← port_init_xdma num_queues st_queues nb_descs buff_size
        spinlock_unlock
        return ret'))

  unfoldable pub dev_remove_callback : EventType → App ℤ
  unfolding port_remove
  dev_remove_callback intr_rmv = port_remove >> return (pos 0)
  dev_remove_callback intr_reset = return errno_enomsg
  dev_remove_callback other_event = return errno_enomsg

  unfoldable pub dev_reset_callback : EventType → App ℤ
  unfolding port_reset
  dev_reset_callback intr_reset w =
      let p = w.pinfo in port_reset p.num_queues p.st_queues p.nb_descs p.buff_size w
  dev_reset_callback intr_rmv w = returns errno_enomsg w
  dev_reset_callback other_event w = returns errno_enomsg w

  -- What `main` does with each port at the end.
  unfoldable pub main_remove_port : App ℤ
  unfolding port_close
  main_remove_port = do
    (λ w. (if w.pinfo.num_queues == 0 then return (pos 0) else port_close) w)
    dev ← call get_device
    if eqb_ℤ dev 0 then return (pos 0) else call xdma_remove
