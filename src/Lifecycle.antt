-- ===== src/Lifecycle.antt =====
-- A port from its first queue on: the calls of drivers/net/xdma/xdma_access_common.c and xdma_rxtx.c
-- that its user makes, in any order, as steps. A call that does not return is no step.
pub mod Queues
pub mod Transmit
pub mod Receive
pub mod Setup
pub mod Invariant
pub mod Calls
use xdma_dpdk.Base.{
  ℕ, ◌+◌, ◌-◌, ◌*◌, ◌^◌, ◌<◌, ◌≤◌, ◌≡◌, Bool, Option, none, some, List, [], ◌∷◌, length, get_elem?,
  modify, u64,
}
use xdma_dpdk.Xdma.{Queue, StreamWb, XdmaDev, xdma_desc_max}
use xdma_dpdk.Platform.{Bus}
use xdma_dpdk.Engine.{Zone, sizeof_pointer, xdma_tx_engine_setup, xdma_rx_engine_setup}
use xdma_dpdk.Engine.Setup.{GivesRoom}
use xdma_dpdk.Device.{Port, install_tx, install_rx, xdma_dev_start, xdma_dev_stop}
use xdma_dpdk.Tx.{Packet, xdma_xmit_pkts}
use xdma_dpdk.Tx.Burst.{HaveSegs}
use xdma_dpdk.Rx.{Mbuf, Outcome, poll_count, recv_rounds, xdma_recv_pkts}

-- The device counts on from the buffers that were handed over, to 32 at most.
abbrev pub CountsOn : (ℕ → ℕ) → Queue → Type 0
CountsOn loads q =
    (old : ℕ)
    → poll_count recv_rounds loads q.engine.desc_used 0 ≡ some old
    → (q.engine.desc_used < old) × (old ≤ xdma_desc_max)

-- The queue that a pointer of the port's array leads to, with its new state.
abbrev pub set_tx : ℕ → Queue → Port → Port
set_tx i q port = record port { tx_queues = modify port.tx_queues i (λ _. some q) }

abbrev pub set_rx : ℕ → Queue → Port → Port
set_rx i q port = record port { rx_queues = modify port.rx_queues i (λ _. some q) }

abbrev pub World : Type 0
World = Port × Bus

-- One call. Bursts have packets with segments, and full arrays of buffers.
pub data Step (v : ℕ → ℕ) : World → World → Type 0 where
  setup_tx :
      {port : Port} {bus : Bus} (engine_mem : Bool) (reserve : ℕ → Option Zone) (zmalloc : ℕ → ℕ)
      (ch : ℕ) {q : Queue}
      → GivesRoom reserve
      → xdma_tx_engine_setup v engine_mem reserve zmalloc ch ≡ some q
      → Step v (port, bus) (install_tx ch q port, bus)
  setup_rx :
      {port : Port} {bus : Bus} (engine_mem : Bool) (reserve : ℕ → Option Zone) (zmalloc : ℕ → ℕ)
      (ch : ℕ) {q : Queue}
      → GivesRoom reserve
      → xdma_rx_engine_setup v engine_mem reserve zmalloc ch ≡ some q
      → Step v (port, bus) (install_rx ch q port, bus)
  start : {port : Port} {bus : Bus} → Step v (port, bus) (port, (xdma_dev_start port bus).1)
  transmit :
      {port : Port} {bus : Bus} (i fuel n : ℕ) (loads : ℕ → ℕ) (ps : List Packet) (q : Queue)
      {q' : Queue} {bus' : Bus}
      → get_elem? port.tx_queues i ≡ some (some q)
      → HaveSegs ps
      → xdma_xmit_pkts fuel loads port.dev ps q bus ≡ some (n, q', bus')
      → Step v (port, bus) (set_tx i q' port, bus')
  receive :
      {port : Port} {bus : Bus} (i : ℕ) (loads : ℕ → ℕ) (stream : ℕ → ℕ → StreamWb)
      (bufs : List Mbuf) (q : Queue) {o : Outcome}
      → get_elem? port.rx_queues i ≡ some (some q)
      → xdma_desc_max ≤ length bufs
      → CountsOn loads q
      → xdma_recv_pkts loads stream port.dev 32 bufs q bus ≡ o
      → Step v (port, bus) (set_rx i o.queue port, o.bus)
  stop :
      {port port' : Port} {bus bus' : Bus}
      → xdma_dev_stop port bus ≡ some (port', bus')
      → Step v (port, bus) (port', bus')

-- No queue is set up yet.
abbrev pub AllUnset : List (Option Queue) → Type 0
AllUnset [] = Unit {0}
AllUnset (none ∷ queues) = AllUnset queues
AllUnset (some q ∷ queues) = ⊥

pub data Reachable (v : ℕ → ℕ) (dev : XdmaDev) : World → Type 0 where
  at_first :
      {port : Port} {bus : Bus}
      → port.dev ≡ dev
      → AllUnset port.tx_queues
      → AllUnset port.rx_queues
      → Reachable v dev (port, bus)
  then : {x y : World} → Reachable v dev x → Step v x y → Reachable v dev y
