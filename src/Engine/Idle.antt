-- ===== src/Engine/Idle.antt =====
-- Idle queues, and the stop functions, which leave them.
use xdma_dpdk.Base.{ℕ, ◌+◌, ◌%◌, ◌==◌, Bool, ◌<◌, ◌≡◌, refl, ◌⊎◌, true, false, arith, if◌then◌else◌}
use xdma_dpdk.Xdma.{Direction, c2h, h2c, Desc, Queue, XdmaDev, xdma_desc_max}
use xdma_dpdk.Platform.{Bus}
use xdma_dpdk.Ring.{desc_at, is_h2c, desc_control_idle, desc_control_last, xdma_desc_ring_clear}
use xdma_dpdk.Ring.Chain.{IsChained, AllBlank, xdma_desc_ring_clear-IsChained}
use xdma_dpdk.Desc.Control.{flags_of}
use xdma_dpdk.Engine.{rest_queue, xdma_tx_engine_stop, xdma_rx_engine_stop}

-- A queue between two bursts: an intact chain of blank descriptors, all of which are free.
pub record IsIdle (virt2phy : ℕ → ℕ) (dir : Direction) (q : Queue) : Type 0 where
  pub chained : IsChained virt2phy q
  pub blank : AllBlank q
  pub stopped : q.engine.running ≡ false
  pub unused : q.engine.desc_used ≡ 0
  pub max : q.engine.desc_max ≡ xdma_desc_max
  pub direction : q.engine.dir ≡ dir
  pub port : q.engine.port_id ≡ 0

-- The control word of a transmit descriptor that no burst uses: all flags off, or those of the
-- chain's end, and no adjacent descriptors.
abbrev pub IsFreeControl : ℕ → Type 0
IsFreeControl c = (c ≡ desc_control_idle) ⊎ (c ≡ desc_control_last)

abbrev pub AllFree : Queue → Type 0
AllFree q = (i : ℕ) → i < q.engine.desc_max → IsFreeControl (desc_at q i).control

-- Only the last descriptor of the ring may have the flag that ends the chain.
abbrev pub FrontIdle : Queue → Type 0
FrontIdle q = (i : ℕ) → i + 1 < xdma_desc_max → (desc_at q i).control ≡ desc_control_idle

-- The flag STOPPED of a descriptor's control word.
abbrev pub stops : Desc → Bool
stops d = flags_of d % 2 == 1

-- The last descriptor of the ring is the one that stops the device.
abbrev pub StopsAtEnd : Queue → Type 0
StopsAtEnd q = (i : ℕ) → i < xdma_desc_max → stops (desc_at q i) ≡ (i + 1 == xdma_desc_max)

-- What a queue keeps while its engine runs.
pub record IsWhole (virt2phy : ℕ → ℕ) (dir : Direction) (q : Queue) : Type 0 where
  pub chained : IsChained virt2phy q
  pub max : q.engine.desc_max ≡ xdma_desc_max
  pub direction : q.engine.dir ≡ dir
  pub port : q.engine.port_id ≡ 0

pub IsIdle-IsWhole : {v : ℕ → ℕ} {dir : Direction} {q : Queue} → IsIdle v dir q → IsWhole v dir q
IsIdle-IsWhole i = record {
  chained = i.chained;
  max = i.max;
  direction = i.direction;
  port = i.port;
}

pub rest_queue-IsIdle :
    (v : ℕ → ℕ) (dir : Direction) (q : Queue)
    → IsWhole v dir q
    → IsIdle v dir (rest_queue q) × ((is_h2c dir ≡ true) → AllFree (rest_queue q))
unfolding xdma_desc_ring_clear
rest_queue-IsIdle v dir q w = (
  record {
    chained = record { size = all.0.size; links = all.0.links };
    blank = all.1;
    stopped = refl;
    unused = refl;
    max = w.max;
    direction = w.direction;
    port = w.port;
  },
  λ h i p. ground (arith, all.2 i p, w.direction),
)
  where
    all :
        let q' = xdma_desc_ring_clear q in
        IsChained v q'
        × AllBlank q'
        × ((i : ℕ)
            → i < q.engine.desc_max
            → (desc_at q' i).control
              ≡ (if is_h2c q.engine.dir then desc_control_idle else (desc_at q i).control))
    all = xdma_desc_ring_clear-IsChained v q w.chained

pub rest_queue-FrontIdle : (v : ℕ → ℕ) (q : Queue) → IsWhole v h2c q → FrontIdle (rest_queue q)
unfolding xdma_desc_ring_clear
rest_queue-FrontIdle v q w i p =
    ground (
      arith,
      (xdma_desc_ring_clear-IsChained v q w.chained).2 i (omega (arith, w.max)),
      w.direction,
    )

pub rest_queue-StopsAtEnd :
    (v : ℕ → ℕ) (q : Queue) → IsWhole v c2h q → StopsAtEnd q → StopsAtEnd (rest_queue q)
unfolding xdma_desc_ring_clear
rest_queue-StopsAtEnd v q w ends i p =
    rw ((xdma_desc_ring_clear-IsChained v q w.chained).2 i (omega (arith, w.max)))
      (rw w.direction (ends i p))

-- Stopping a whole transmit queue makes it idle again, with all its control words free and the
-- completion count stored as 0.
pub xdma_tx_engine_stop-IsIdle :
    (v : ℕ → ℕ) (dev : XdmaDev) (q : Queue) (bus : Bus)
    → IsWhole v h2c q
    → let (q', _) = xdma_tx_engine_stop dev q bus in
      IsIdle v h2c q' × AllFree q' × (q'.completed_desc_count ≡ 0)
unfolding xdma_tx_engine_stop
xdma_tx_engine_stop-IsIdle v dev q bus w =
    ((rest_queue-IsIdle v h2c q w).0, (rest_queue-IsIdle v h2c q w).1 refl, refl)

-- Stopping a whole receive queue makes it idle again, with the completion count stored as 0.
pub xdma_rx_engine_stop-IsIdle :
    (v : ℕ → ℕ) (dev : XdmaDev) (q : Queue) (bus : Bus)
    → IsWhole v c2h q
    → let (q', _) = xdma_rx_engine_stop dev q bus in IsIdle v c2h q' × (q'.completed_desc_count ≡ 0)
unfolding xdma_rx_engine_stop
xdma_rx_engine_stop-IsIdle v dev q bus w = ((rest_queue-IsIdle v c2h q w).0, refl)
