-- ===== src/Device.antt =====
-- The port of drivers/net/xdma/xdma_access_common.c: the queues that set-up installs in it, and
-- starting, stopping and closing the whole device.
pub mod Stop
pub mod Close
use xdma_dpdk.Base.{
  ℕ, ◌+◌, Bool, true, false, Option, none, some, List, [], ◌∷◌, ◌++◌, modify, ◌==◌, if◌then◌else◌,
}
use xdma_dpdk.Base.Int.{ℤ, pos}
use xdma_dpdk.Xdma.{Direction, c2h, h2c, unknown, Engine, Queue, XdmaDev}
use xdma_dpdk.Platform.{Bus}
use xdma_dpdk.Ring.{is_h2c}
use xdma_dpdk.Engine.{
  Zone, user_interrupts_enable, channel_interrupts_enable, xdma_tx_engine_setup,
  xdma_rx_engine_setup, xdma_tx_engine_stop, xdma_rx_engine_stop,
}

-- `dev->data` as far as the driver uses it. A queue stands for the engine that the array's pointer
-- leads to; `none` is a pointer that is not set.
pub record Port : Type 0 where
  pub dev : XdmaDev
  pub engine_h2c : List (Option Engine)
  pub engine_c2h : List (Option Engine)
  pub tx_queues : List (Option Queue)
  pub rx_queues : List (Option Queue)
  pub dev_started : Bool

-- The end of `xdma_tx_engine_setup`: a copy of the engine goes into the device, and its address into
-- the port's array. Indices behind the arrays, which C leaves undefined, change nothing.
unfoldable pub install_tx : ℕ → Queue → Port → Port
install_tx channel_id q port = record port {
  engine_h2c = modify port.engine_h2c channel_id (λ _. some q.engine);
  tx_queues = modify port.tx_queues channel_id (λ _. some q);
}

unfoldable pub install_rx : ℕ → Queue → Port → Port
install_rx channel_id q port = record port {
  engine_c2h = modify port.engine_c2h channel_id (λ _. some q.engine);
  rx_queues = modify port.rx_queues channel_id (λ _. some q);
}

unfoldable pub xdma_dev_start : Port → Bus → ℤ × Bus
xdma_dev_start port bus =
    (pos 0, channel_interrupts_enable port.dev (user_interrupts_enable port.dev bus))

-- The two loops of `xdma_dev_stop`. `none` is a dereference of a pointer that is not set.
unfoldable pub stop_all :
    (XdmaDev → Queue → Bus → Queue × Bus)
    → XdmaDev
    → List (Option Queue)
    → Bus
    → Option (List (Option Queue) × Bus)
stop_all stop dev [] bus = some ([], bus)
stop_all stop dev (none ∷ queues) bus = none
stop_all stop dev (some q ∷ queues) bus =
    let (q', bus') = stop dev q bus in
    elim (stop_all stop dev queues bus') [
      | none ↦ none
      | some (rest, bus'') ↦ some (some q' ∷ rest, bus'')
    ]

unfoldable pub xdma_dev_stop : Port → Bus → Option (Port × Bus)
unfolding stop_all
xdma_dev_stop port bus = elim (stop_all xdma_tx_engine_stop port.dev port.tx_queues bus) [
  | none ↦ none
  | some (tx, bus1) ↦ elim (stop_all xdma_rx_engine_stop port.dev port.rx_queues bus1) [
    | none ↦ none
    | some (rx, bus2) ↦ some (record port { tx_queues = tx; rx_queues = rx }, bus2)
  ]
]

-- A block of memory that is given back: a software ring, a zone with a ring of descriptors, or the
-- engine of a queue.
pub data Block : Type 0 where
  sw_ring_block : ℕ → Block
  zone_block : ℕ → Block
  engine_block : (dir : Direction) → (index : ℕ) → Block

-- What one round of a loop of `xdma_dev_close` gives back. A NULL pointer is not freed.
abbrev pub free_engine : Direction → ℕ → Engine → List Block
free_engine dir i engine =
    let ring = if engine.sw_ring == 0 then [] else sw_ring_block engine.sw_ring ∷ [] in
    let zone = if engine.mz == 0 then [] else zone_block engine.mz ∷ [] in
    ring ++ (zone ++ (engine_block dir i ∷ []))

-- A loop of `xdma_dev_close` from index `i` on, with `wanted` its test of `engine->dir`.
unfoldable pub close_all :
    (wanted : Direction → Bool) → Direction → ℕ → List (Option Queue) → Option (List Block)
close_all wanted dir i [] = some []
close_all wanted dir i (none ∷ queues) = none
close_all wanted dir i (some q ∷ queues) =
    let freed = if wanted q.engine.dir then free_engine dir i q.engine else [] in
    elim (close_all wanted dir (i + 1) queues) [ none ↦ none | some rest ↦ some (freed ++ rest) ]

abbrev pub is_c2h : Direction → Bool
is_c2h c2h = true
is_c2h h2c = false
is_c2h unknown = false

-- The pointers in the arrays stay as they are.
unfoldable pub xdma_dev_close : Port → Bus → Option (List Block × Port × Bus)
unfolding xdma_dev_stop close_all
xdma_dev_close port bus =
    elim (if port.dev_started then xdma_dev_stop port bus else some (port, bus)) [
      | none ↦ none
      | some (port1, bus1) ↦ elim (close_all is_c2h c2h 0 port1.rx_queues) [
        | none ↦ none
        | some rx ↦ elim (close_all is_h2c h2c 0 port1.tx_queues) [
          | none ↦ none
          | some tx ↦ some (rx ++ tx, port1, bus1)
        ]
      ]
    ]
