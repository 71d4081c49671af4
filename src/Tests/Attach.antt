-- ===== src/Tests/Attach.antt =====
-- The theorems on attaching, stopping and detaching a device at concrete inputs.
use xdma_dpdk.Base.{
  ℕ, ◌+◌, ◌^◌, ◌<◌, ◌≡◌, ◌≢◌, refl, ◌⊎◌, inl, inr, true, false, none, some, List, [], ◌∷◌, ◌++◌,
  length, arith, if◌then◌else◌, Bool-cases,
}
use xdma_dpdk.Base.Int.{ℤ, pos, negsuc, is_neg}
use xdma_dpdk.Regs.{h2c_channel_ctrl, c2h_channel_ctrl}
use xdma_dpdk.Xdma.{c2h, h2c, XdmaDev, xdma_bar_num}
use xdma_dpdk.Ring.{xdma_desc_ring_init}
use xdma_dpdk.Platform.{Bus}
use xdma_dpdk.Engine.{setup_queue, set_running}
use xdma_dpdk.Engine.Idle.{IsIdle}
use xdma_dpdk.Bars.{
  config_bar_idx_handler, Resource, resource, KvArgs, xdma_check_kvargs, xdma_identify_bars,
}
use xdma_dpdk.Bars.Args.{IsBar, StopsAtFailure, OnlyCalls, xdma_check_kvargs-IsBar}
use xdma_dpdk.Bars.Identify.{IsSpare, xdma_identify_bars_lem}
use xdma_dpdk.Device.{Port, xdma_dev_stop}
use xdma_dpdk.Device.Stop.{EachQueue, IsHalted, xdma_dev_stop-IsIdle}
use xdma_dpdk.Device.Close.{blocks_of}
use xdma_dpdk.Ethdev.{null, EthDev, Env, xdma_eth_dev_init, xdma_eth_dev_uninit}
use xdma_dpdk.Ethdev.Attached.{IsDone}
use xdma_dpdk.Ethdev.Init.{xdma_eth_dev_init-IsDone}
use xdma_dpdk.Ethdev.Uninit.{xdma_eth_dev_uninit_once}
use xdma_dpdk.Load.{Copy, copied, xdma_bar_load}
use xdma_dpdk.Load.Tiles.{Tiles, xdma_bar_load-Tiles}
use xdma_dpdk.Tests.{dev_1, v_1, copies, queue_1, running_1}

-- A parser whose arguments are numbers already, one for each `config_bar=`.
abbrev process_1 : List ℕ → (ℕ → XdmaDev → ℤ × XdmaDev) → XdmaDev → ℤ × XdmaDev
process_1 [] h dev = (pos 0, dev)
process_1 (s ∷ l) h dev =
    let (r, dev') = h s dev in if is_neg r then (negsuc 0, dev') else process_1 l h dev'

abbrev kv_1 : KvArgs
kv_1 = record {
  Str = ℕ;
  Args = List ℕ;
  KvList = List ℕ;
  strtoul = λ s. s;
  parse = λ args. some args;
  count = length;
  process = process_1;
}

kv_1-StopsAtFailure : StopsAtFailure kv_1
kv_1-StopsAtFailure [] h dev some_pair ok = absurd (omega arith)
kv_1-StopsAtFailure (s ∷ []) h dev some_pair ok = elim (Bool-cases (is_neg (h s dev).0)) [
  | inr good ↦ (s, dev, (h s dev).0, rw good refl, good)
  | inl bad ↦ let failed : negsuc 0 ≡ pos 0 = rw bad at ok in absurd (cc failed)
]
kv_1-StopsAtFailure (s ∷ s' ∷ l) h dev some_pair ok = elim (Bool-cases (is_neg (h s dev).0)) [
  | inr good ↦ rw good (kv_1-StopsAtFailure (s' ∷ l) h (h s dev).1 (omega arith) (rw good at ok))
  | inl bad ↦ let failed : negsuc 0 ≡ pos 0 = rw bad at ok in absurd (cc failed)
]

kv_1-OnlyCalls : OnlyCalls kv_1
kv_1-OnlyCalls [] h dev P here step = here
kv_1-OnlyCalls (s ∷ l) h dev P here step = elim (Bool-cases (is_neg (h s dev).0)) [
  | inr good ↦ rw good (kv_1-OnlyCalls l h (h s dev).1 P (step s dev here) step)
  | inl bad ↦ rw bad (step s dev here)
]

xdma_check_kvargs-IsBar_example :
    IsBar (xdma_check_kvargs kv_1 (some (2 ∷ 3 ∷ [])) dev_1).1.config_bar_idx
unfolding xdma_check_kvargs config_bar_idx_handler
xdma_check_kvargs-IsBar_example =
    xdma_check_kvargs-IsBar kv_1 (some (2 ∷ 3 ∷ [])) dev_1 kv_1-StopsAtFailure (omega arith) refl

abbrev bar_1 : ℕ → Resource
bar_1 a = record { phys_addr = a; len = 65536; addr = a + 2 ^ 40 }

abbrev closed_bar : Resource
closed_bar = record { phys_addr = 0; len = 0; addr = 0 }

abbrev pub mem_1 : List Resource
mem_1 = bar_1 100 ∷ bar_1 200 ∷ bar_1 300 ∷ closed_bar ∷ closed_bar ∷ closed_bar ∷ []

xdma_identify_bars_lem_example :
    let (r, dev') = xdma_identify_bars mem_1 dev_1 in
    let Spare = IsSpare mem_1 (pos 0) (pos 1) in
    ((resource mem_1 (pos 1)).len ≡ 0) × (r ≡ negsuc 0) × (dev' ≡ dev_1)
    ⊎ ((r ≡ pos 0)
        × ((resource mem_1 (pos 1)).len ≢ 0)
        × (dev'.config_bar_idx ≡ pos 1)
        × (dev'.bar ≡ dev_1.bar)
        × (dev'.user_bar_idx ≡ pos 0)
        × (((k : ℕ) × (dev'.bypass_bar_idx ≡ pos k)
              × (k < xdma_bar_num)
              × Spare k
              × ((j : ℕ) → j < k → ¬ (Spare j)))
            ⊎ ((dev'.bypass_bar_idx ≡ negsuc 0) × ((j : ℕ) → j < xdma_bar_num → ¬ (Spare j)))))
xdma_identify_bars_lem_example = xdma_identify_bars_lem mem_1 dev_1

abbrev pub port_1 : Port
port_1 = record {
  dev = dev_1;
  engine_h2c = copies 4 none;
  engine_c2h = copies 4 none;
  tx_queues = some (set_running true (queue_1 h2c)) ∷ [];
  rx_queues = some (set_running true (queue_1 c2h)) ∷ [];
  dev_started = false;
}

xdma_dev_stop-IsIdle_example :
    (port' : Port) × (bus' : Bus) × (xdma_dev_stop port_1 [] ≡ some (port', bus'))
    × EachQueue (λ q. IsIdle v_1 h2c q × IsHalted dev_1 h2c_channel_ctrl bus' q) port'.tx_queues
    × EachQueue (λ q. IsIdle v_1 c2h q × IsHalted dev_1 c2h_channel_ctrl bus' q) port'.rx_queues
    × (length port'.tx_queues ≡ 1)
    × (length port'.rx_queues ≡ 1)
xdma_dev_stop-IsIdle_example =
    xdma_dev_stop-IsIdle v_1 port_1 [] (running_1 h2c, tt) (running_1 c2h, tt)

abbrev pub eth_1 : EthDev
eth_1 = record { port = port_1; mac_addrs = null; hw_access = null; ops = false }

abbrev env_1 : Env kv_1
env_1 = record {
  primary = true;
  devargs = some (2 ∷ []);
  mem_resource = mem_1;
  mac_alloc = true;
  hw_alloc = true;
}

xdma_eth_dev_init-IsDone_example :
    let (r, after) = xdma_eth_dev_init kv_1 env_1 (some eth_1) in
    (eth' : EthDev) × (after ≡ some eth') × IsDone mem_1 (r, eth')
xdma_eth_dev_init-IsDone_example =
    xdma_eth_dev_init-IsDone kv_1 env_1 eth_1 refl kv_1-StopsAtFailure kv_1-OnlyCalls refl refl refl

xdma_eth_dev_uninit_once_example :
    let freed = blocks_of c2h 0 port_1.rx_queues ++ blocks_of h2c 0 port_1.tx_queues in
    (eth' : EthDev) × (xdma_eth_dev_uninit true eth_1 [] ≡ some (pos 0, freed, eth', []))
    × (xdma_eth_dev_uninit true eth' [] ≡ some (pos 0, [], eth', []))
    × (eth'.mac_addrs ≡ null)
    × (eth'.hw_access ≡ null)
    × (eth'.ops ≡ false)
unfolding setup_queue xdma_desc_ring_init
xdma_eth_dev_uninit_once_example =
    xdma_eth_dev_uninit_once eth_1 [] refl refl ((refl, omega arith, omega arith), tt)
      ((refl, omega arith, omega arith), tt)

-- A file of 100 MB, of which 70 MB are loaded in two chunks.
xdma_bar_load-Tiles_example :
    (cs : List Copy) × (xdma_bar_load 70000001
        (some 100000000)
        (λ o s. true)
        dev_1
        256
        70000000
        (pos 1)
      ≡ copied (some cs))
    × Tiles (2 ^ 32 + 256) 70000000 0 cs
xdma_bar_load-Tiles_example =
    xdma_bar_load-Tiles 70000001 100000000 (λ o s. true) dev_1 256 70000000 (pos 1) (λ o s. refl)
      (omega arith)
