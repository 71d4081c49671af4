-- ===== src/Device/Close.antt =====
-- What closing a device gives back.
use xdma_dpdk.Base.{
  ℕ, ◌+◌, ◌≡◌, ◌≢◌, refl, Bool, true, false, Option, none, some, List, [], ◌∷◌, ◌++◌, arith,
}
use xdma_dpdk.Xdma.{Direction, h2c, c2h, Queue}
use xdma_dpdk.Platform.{Bus}
use xdma_dpdk.Ring.{is_h2c}
use xdma_dpdk.Device.{
  Port, Block, sw_ring_block, zone_block, engine_block, is_c2h, close_all, xdma_dev_close,
}
use xdma_dpdk.Device.Stop.{EachQueue}

-- An engine as set-up leaves it, with all its memory.
abbrev pub HasMemory : (Direction → Bool) → Queue → Type 0
HasMemory wanted q = (wanted q.engine.dir ≡ true) × (q.engine.sw_ring ≢ 0) × (q.engine.mz ≢ 0)

-- The blocks of the queues of an array from index `i` on.
abbrev pub blocks_of : Direction → ℕ → List (Option Queue) → List Block
blocks_of dir i [] = []
blocks_of dir i (none ∷ queues) = blocks_of dir (i + 1) queues
blocks_of dir i (some q ∷ queues) =
    sw_ring_block q.engine.sw_ring
    ∷ zone_block q.engine.mz
    ∷ engine_block dir i
    ∷ blocks_of dir (i + 1) queues

close_all_lem :
    (wanted : Direction → Bool) (dir : Direction) (i : ℕ) (queues : List (Option Queue))
    → EachQueue (HasMemory wanted) queues
    → close_all wanted dir i queues ≡ some (blocks_of dir i queues)
unfolding close_all
close_all_lem wanted dir i [] all = refl
close_all_lem wanted dir i (none ∷ queues) all = absurd all
close_all_lem wanted dir i (some q ∷ queues) (h, all) =
    ground (arith, h.0, h.1, h.2, close_all_lem wanted dir (i + 1) queues all)

-- `xdma_dev_close` on a port that is not started gives back the software ring, the zone and the
-- engine of each receive queue, and then of each transmit queue, if all of these were allocated. It
-- changes nothing in the port: the pointers to the freed memory and the numbers of queues stay, so
-- that another call gives back the same blocks again.
pub xdma_dev_close_again :
    (port : Port) (bus : Bus)
    → port.dev_started ≡ false
    → EachQueue (HasMemory is_c2h) port.rx_queues
    → EachQueue (HasMemory is_h2c) port.tx_queues
    → xdma_dev_close port bus
      ≡ some (blocks_of c2h 0 port.rx_queues ++ blocks_of h2c 0 port.tx_queues, port, bus)
unfolding xdma_dev_close
xdma_dev_close_again port bus idle rx tx = ground (
  arith,
  idle,
  close_all_lem is_c2h c2h 0 port.rx_queues rx,
  close_all_lem is_h2c h2c 0 port.tx_queues tx,
)
