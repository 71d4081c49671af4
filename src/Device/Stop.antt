-- ===== src/Device/Stop.antt =====
-- What stopping a device leaves.
use xdma_dpdk.Base.{
  ℕ, suc, ◌+◌, ◌%◌, ◌≡◌, refl, ap, sym, subst, Option, none, some, List, [], ◌∷◌, length, arith,
  ◌==◌, u64, u32, inl, inr, Bool-cases,
}
use xdma_dpdk.Regs.{h2c_channel_ctrl, c2h_channel_ctrl}
use xdma_dpdk.Xdma.{Direction, h2c, c2h, Queue, XdmaDev}
use xdma_dpdk.Platform.{Bus, wmb, xdma_reg_write, bar_addr, last_store}
use xdma_dpdk.Ring.{xdma_desc_ring_clear}
use xdma_dpdk.Engine.{
  channel_reg, with_ctrl_bits, xdma_tx_engine_stop, xdma_rx_engine_stop, rest_queue,
}
use xdma_dpdk.Engine.Idle.{IsIdle, IsWhole, rest_queue-IsIdle}
use xdma_dpdk.Device.{Port, stop_all, xdma_dev_stop}

-- Every queue of an array is set and has a property.
abbrev pub EachQueue : (Queue → Type 0) → List (Option Queue) → Type 0
EachQueue P [] = Unit {0}
EachQueue P (none ∷ queues) = ⊥
EachQueue P (some q ∷ queues) = P q × EachQueue P queues

pub EachQueue-map :
    {P Q : Queue → Type 0}
    → ((q : Queue) → P q → Q q)
    → (queues : List (Option Queue)) → EachQueue P queues
    → EachQueue Q queues
EachQueue-map f [] all = tt
EachQueue-map f (none ∷ queues) all = all
EachQueue-map f (some q ∷ queues) all = (f q all.0, EachQueue-map f queues all.1)

-- The last store to a control register cleared the run bit.
abbrev pub IsHalted : XdmaDev → ℕ → Bus → Queue → Type 0
IsHalted dev reg bus q =
    (v : ℕ) × (last_store bus
        (u64 (bar_addr dev dev.config_bar_idx + channel_reg reg q.engine.channel))
      ≡ some v)
    × (v % 2 ≡ 0)

-- What both stop functions do to the bus.
abbrev halt : XdmaDev → ℕ → Queue → Bus → Bus
halt dev reg q bus =
    xdma_reg_write dev (channel_reg reg q.engine.channel) (with_ctrl_bits 0) (wmb ∷ bus)

halt_here :
    (dev : XdmaDev) (reg : ℕ) (q : Queue) (bus : Bus) → IsHalted dev reg (halt dev reg q bus) q
unfolding xdma_reg_write
halt_here dev reg q bus = (u32 (with_ctrl_bits 0), ground arith, refl)

-- Stopping one engine starts no other.
halt_keeps :
    (dev : XdmaDev) (reg reg' : ℕ) (q q' : Queue) (bus : Bus)
    → IsHalted dev reg' bus q'
    → IsHalted dev reg' (halt dev reg q bus) q'
unfolding xdma_reg_write
halt_keeps dev reg reg' q q' bus (v, e, even) =
    elim (Bool-cases (
      u64 (bar_addr dev dev.config_bar_idx + channel_reg reg q.engine.channel)
      == u64 (bar_addr dev dev.config_bar_idx + channel_reg reg' q'.engine.channel))) [
        | inl here ↦ (u32 (with_ctrl_bits 0), rw here refl, refl)
        | inr there ↦ (v, rw there e, even)
      ]

module _ (v : ℕ → ℕ) (dev : XdmaDev) (dir : Direction) (reg : ℕ) where
  stop : XdmaDev → Queue → Bus → Queue × Bus
  stop dev q bus = (rest_queue q, halt dev reg q bus)

  -- The loop ends with every queue idle and halted, and what was halted before stays so.
  stop_all_lem :
      (queues : List (Option Queue)) (bus : Bus)
      → EachQueue (IsWhole v dir) queues
      → (rest : List (Option Queue)) × (bus' : Bus) × (stop_all stop dev queues bus
          ≡ some (rest, bus'))
        × EachQueue (λ q. IsIdle v dir q × IsHalted dev reg bus' q) rest
        × (length rest ≡ length queues)
        × ((reg' : ℕ) (q' : Queue) → IsHalted dev reg' bus q' → IsHalted dev reg' bus' q')
  unfolding stop_all stop xdma_desc_ring_clear
  stop_all_lem [] bus w = ([], bus, refl, tt, refl, λ reg' q' h. h)
  stop_all_lem (none ∷ queues) bus w = absurd w
  stop_all_lem (some q ∷ queues) bus (w, ws) =
      let (rest, bus', e, all, size, keeps) = stop_all_lem queues (halt dev reg q bus) ws in
      (
        some (rest_queue q) ∷ rest,
        bus',
        rw e refl,
        (
          ((rest_queue-IsIdle v dir q w).0, keeps reg (rest_queue q) (halt_here dev reg q bus)),
          all,
        ),
        ap suc size,
        λ reg' q' h. keeps reg' q' (halt_keeps dev reg reg' q q' bus h),
      )

two_loops :
    (port : Port) (bus : Bus) (tx : List (Option Queue)) (bus1 : Bus) (rx : List (Option Queue))
    (bus2 : Bus)
    → stop_all xdma_tx_engine_stop port.dev port.tx_queues bus ≡ some (tx, bus1)
    → stop_all xdma_rx_engine_stop port.dev port.rx_queues bus1 ≡ some (rx, bus2)
    → xdma_dev_stop port bus ≡ some (record port { tx_queues = tx; rx_queues = rx }, bus2)
unfolding xdma_dev_stop
two_loops port bus tx bus1 rx bus2 e1 e2 =
    subst (λ s. after s ≡ some (record port { tx_queues = tx; rx_queues = rx }, bus2)) (sym e1)
      (subst (λ s. after_rx tx s ≡ some (record port { tx_queues = tx; rx_queues = rx }, bus2))
        (sym e2) refl)
  where
    after_rx : List (Option Queue) → Option (List (Option Queue) × Bus) → Option (Port × Bus)
    after_rx tx done = elim done [
      | none ↦ none
      | some (rx, bus2) ↦ some (record port { tx_queues = tx; rx_queues = rx }, bus2)
    ]

    after : Option (List (Option Queue) × Bus) → Option (Port × Bus)
    after done = elim done [
      | none ↦ none
      | some (tx, bus1) ↦ after_rx tx (stop_all xdma_rx_engine_stop port.dev port.rx_queues bus1)
    ]

-- `xdma_dev_stop` on a port whose queues are all set and whole leaves every queue idle, with the
-- run bit of its control register cleared by the last store to it, and no queue is lost.
pub xdma_dev_stop-IsIdle :
    (v : ℕ → ℕ) (port : Port) (bus : Bus)
    → EachQueue (IsWhole v h2c) port.tx_queues
    → EachQueue (IsWhole v c2h) port.rx_queues
    → (port' : Port) × (bus' : Bus) × (xdma_dev_stop port bus ≡ some (port', bus'))
      × EachQueue (λ q. IsIdle v h2c q × IsHalted port.dev h2c_channel_ctrl bus' q) port'.tx_queues
      × EachQueue (λ q. IsIdle v c2h q × IsHalted port.dev c2h_channel_ctrl bus' q) port'.rx_queues
      × (length port'.tx_queues ≡ length port.tx_queues)
      × (length port'.rx_queues ≡ length port.rx_queues)
unfolding xdma_dev_stop stop xdma_tx_engine_stop xdma_rx_engine_stop
xdma_dev_stop-IsIdle v port bus tx rx =
    let (txs, bus1, e1_, all1, size1, _) =
      stop_all_lem v port.dev h2c h2c_channel_ctrl port.tx_queues bus tx in
    let e1 : stop_all xdma_tx_engine_stop port.dev port.tx_queues bus ≡ some (txs, bus1) = e1_ in
    let (rxs, bus2, e2_, all2, size2, keeps) =
      stop_all_lem v port.dev c2h c2h_channel_ctrl port.rx_queues bus1 rx in
    let e2 : stop_all xdma_rx_engine_stop port.dev port.rx_queues bus1 ≡ some (rxs, bus2) = e2_ in
    (
      record port { tx_queues = txs; rx_queues = rxs },
      bus2,
      two_loops port bus txs bus1 rxs bus2 e1 e2,
      EachQueue-map (λ q h. (h.0, keeps h2c_channel_ctrl q h.1)) txs all1,
      all2,
      size1,
      size2,
    )
