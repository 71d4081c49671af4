-- ===== src/Ethdev.antt =====
-- Attaching and detaching the driver: `xdma_eth_dev_init` and `xdma_eth_dev_uninit` of
-- drivers/net/xdma/xdma_ethdev.c, with `xdma_dev_ops_init` and `xdma_dev_configure` of
-- xdma_devops.c.
pub mod Mapped
pub mod Attached
pub mod Init
pub mod Uninit
pub mod Info
use xdma_dpdk.Base.{
  ℕ, suc, zero, ◌+◌, Bool, true, false, not, Option, none, some, List, [], ◌∷◌, modify, ◌==◌,
  if◌then◌else◌,
}
use xdma_dpdk.Base.Int.{ℤ, pos, negsuc, is_neg, eqb_ℤ}
use xdma_dpdk.Xdma.{XdmaDev, default_config_bar, bar_id_invalid, xdma_channel_num_max}
use xdma_dpdk.Platform.{Bus}
use xdma_dpdk.Bars.{Resource, resource, KvArgs, xdma_check_kvargs, xdma_identify_bars}
use xdma_dpdk.Device.{Port, Block, xdma_dev_close}

-- A pointer to memory that the driver allocates: not set, to allocated memory with what it holds, or
-- to memory that has been freed.
pub data Ptr (A : Type 0) : Type 0 where
  null : Ptr A
  live : A → Ptr A
  dangling : Ptr A

abbrev pub rte_free : {A : Type 0} → Ptr A → Ptr A
rte_free null = null
rte_free (live x) = dangling
rte_free dangling = dangling

-- `struct rte_eth_dev` with its data. `hw_access` is whether the table of functions is filled in;
-- `ops` says that the device's operations and its two burst functions are set.
pub record EthDev : Type 0 where
  pub port : Port
  pub mac_addrs : Ptr (List ℕ)
  pub hw_access : Ptr Bool
  pub ops : Bool

abbrev pub errno_einval : ℤ
errno_einval = negsuc 21

abbrev pub errno_enomem : ℤ
errno_enomem = negsuc 11

abbrev pub errno_eperm : ℤ
errno_eperm = negsuc 0

abbrev pub trig_mode_user_timer : ℕ
trig_mode_user_timer = 4

abbrev pub set_dev : (XdmaDev → XdmaDev) → EthDev → EthDev
set_dev f eth = let port = eth.port in record eth { port = record port { dev = f port.dev } }

unfoldable pub xdma_dev_ops_init : EthDev → EthDev
xdma_dev_ops_init eth = record eth { ops = true }

unfoldable pub xdma_dev_configure : EthDev → ℤ × EthDev
xdma_dev_configure eth = (pos 0, set_dev (λ dev. record dev { dev_configured = true }) eth)

-- `for (i = 0; i < RTE_ETHER_ADDR_LEN; ++i) addr_bytes[i] = 0x15 + i;`
abbrev pub dummy_mac : List ℕ
dummy_mac = 0x15 ∷ 0x16 ∷ 0x17 ∷ 0x18 ∷ 0x19 ∷ 0x1a ∷ []

abbrev pub set_bar : ℤ → ℕ → XdmaDev → XdmaDev
set_bar (pos i) addr dev = record dev { bar = modify dev.bar i (λ _. addr) }
set_bar (negsuc i) addr dev = dev

-- The fields that are set before the device arguments are read.
abbrev pub default_dev : XdmaDev → XdmaDev
default_dev dev = record dev {
  config_bar_idx = default_config_bar;
  bypass_bar_idx = bar_id_invalid;
  user_bar_idx = bar_id_invalid;
  c2h_channel_max = xdma_channel_num_max;
  h2c_channel_max = xdma_channel_num_max;
}

-- `if (idx >= 0) { ...; bar[idx] = baseaddr; }`
abbrev pub store_bar : List Resource → ℤ → XdmaDev → XdmaDev
store_bar mem idx dev = if is_neg idx then dev else set_bar idx (resource mem idx).addr dev

-- What the driver gets from DPDK: whether this is the primary process, the arguments, the resources
-- of the PCI device, and whether its two allocations succeed.
pub record Env (kv : KvArgs) : Type 0 where
  pub primary : Bool
  pub devargs : Option kv.Args
  pub mem_resource : List Resource
  pub mac_alloc : Bool
  pub hw_alloc : Bool

module _ (kv : KvArgs) (env : Env kv) where
  -- From the table of functions on, which `xdma_hw_access_init` fills in and which always succeeds.
  unfoldable pub init_bars : EthDev → ℤ × EthDev
  init_bars eth =
      let (r, dev) = xdma_identify_bars env.mem_resource eth.port.dev in
      let eth1 = set_dev (λ _. dev) eth in
      let dev1 = store_bar env.mem_resource dev.user_bar_idx dev in
      let dev2 = store_bar env.mem_resource dev1.bypass_bar_idx dev1 in
      let eth2 = xdma_dev_ops_init (set_dev (λ _. dev2) eth1) in
      if is_neg r
      then (
        errno_einval,
        record eth1 { hw_access = rte_free eth1.hw_access; mac_addrs = rte_free eth1.mac_addrs },
      )
      else (pos 0, set_dev (λ dev. record dev { trigger_mode = trig_mode_user_timer }) eth2)

  -- From the device arguments on.
  unfoldable pub init_private : EthDev → ℤ × EthDev
  unfolding init_bars
  init_private eth =
      let (ret, dev) = xdma_check_kvargs kv env.devargs (default_dev eth.port.dev) in
      let eth1 = set_dev (λ _. dev) eth in
      let dev1 =
        set_bar dev.config_bar_idx (resource env.mem_resource dev.config_bar_idx).addr dev in
      let eth2 = set_dev (λ _. dev1) eth1 in
      if not (eqb_ℤ ret 0)
      then (errno_einval, record eth1 { mac_addrs = rte_free eth1.mac_addrs })
      else (if not env.hw_alloc
          then (errno_enomem, record eth2 { hw_access = null; mac_addrs = rte_free eth2.mac_addrs })
          else init_bars (record eth2 { hw_access = live true }))

  -- `none` is a NULL among `dev`, its data, its private data and its PCI device.
  unfoldable pub xdma_eth_dev_init : Option EthDev → ℤ × Option EthDev
  unfolding init_private
  xdma_eth_dev_init none = (errno_einval, none)
  xdma_eth_dev_init (some eth) =
      if not env.primary
      then (pos 0, some (xdma_dev_ops_init eth))
      else (if not env.mac_alloc
          then (errno_enomem, some (record eth { mac_addrs = null }))
          else let (r, eth') = init_private (record eth { mac_addrs = live dummy_mac }) in
            (r, some eth'))

-- The result, the blocks of queues that were given back, and the device after it. The outer `none`
-- is a dereference of NULL in `xdma_dev_close`.
unfoldable pub xdma_eth_dev_uninit :
    (primary : Bool) → EthDev → Bus → Option (ℤ × List Block × EthDev × Bus)
xdma_eth_dev_uninit primary eth bus =
    if not primary
    then some (errno_eperm, [], eth, bus)
    else elim (if eth.port.dev.dev_configured
        then xdma_dev_close eth.port bus
        else some ([], eth.port, bus)) [
          | none ↦ none
          | some (freed, port, bus1) ↦ some (
            pos 0,
            freed,
            record {
              port = record port { tx_queues = []; rx_queues = [] };
              mac_addrs = null;
              hw_access = null;
              ops = false;
            },
            bus1,
          )
        ]
