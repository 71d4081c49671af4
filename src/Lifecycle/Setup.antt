-- ===== src/Lifecycle/Setup.antt =====
-- Queues as set-up returns them.
use xdma_dpdk.Base.{ℕ, ◌≡◌, refl, subst, Bool, true, false, Option, none, some, arith, inl, inr}
use xdma_dpdk.Xdma.{Direction, c2h, h2c, Queue, xdma_desc_max}
use xdma_dpdk.Ring.{xdma_desc_ring_init}
use xdma_dpdk.Engine.{
  Zone, tx_zone_size, rx_zone_size, setup_queue, xdma_tx_engine_setup, xdma_rx_engine_setup,
}
use xdma_dpdk.Engine.Idle.{AllFree}
use xdma_dpdk.Engine.Setup.{
  GivesRoom, setup_queue-IsIdle, setup_queue-FrontIdle, setup_queue-StopsAtEnd,
}
use xdma_dpdk.Rx.Post.{AllRx}
use xdma_dpdk.Rx.Receiver.{idle}
use xdma_dpdk.Lifecycle.Transmit.{IsSendable}
use xdma_dpdk.Lifecycle.Receive.{IsReceptive}

free-AllRx : (q : Queue) → q.engine.desc_max ≡ xdma_desc_max → AllFree q → AllRx q
free-AllRx q max free i h = elim (free i (omega (arith, max))) [
  | inl e ↦ inl e
  | inr e ↦ inr (inl e)
]

module _ (v : ℕ → ℕ) (engine_mem : Bool) (reserve : ℕ → Option Zone) (zmalloc : ℕ → ℕ) (ch : ℕ)
    (room : GivesRoom reserve) where
  built : Direction → Zone → Queue
  built dir zone = setup_queue v engine_mem reserve zmalloc dir ch zone

  -- Both set-up functions behind their allocations.
  attempt : Direction → Bool → Option Zone → Option Queue
  attempt dir mem found = elim mem [
    | false ↦ none
    | true ↦ elim found [ none ↦ none | some zone ↦ some (built dir zone) ]
  ]

  attempt-some :
      (dir : Direction) (P : Queue → Type 0) (mem : Bool) (found : Option Zone) (q : Queue)
      → ((zone : Zone) → found ≡ some zone → P (built dir zone))
      → attempt dir mem found ≡ some q
      → P q
  unfolding attempt
  attempt-some dir P false found q holds e = absurd (cc e)
  attempt-some dir P true none q holds e = absurd (cc e)
  attempt-some dir P true (some zone) q holds e =
      let same : built dir zone ≡ q = cc e in subst P same (holds zone refl)

  -- What a set-up function returns can be used at once.
  pub xdma_tx_engine_setup-IsSendable :
      (q : Queue) → xdma_tx_engine_setup v engine_mem reserve zmalloc ch ≡ some q → IsSendable v q
  unfolding xdma_tx_engine_setup attempt built setup_queue xdma_desc_ring_init
  xdma_tx_engine_setup-IsSendable q e =
      attempt-some h2c (IsSendable v) engine_mem (reserve tx_zone_size) q
        (λ zone found.
          let size = (room tx_zone_size zone found).0 in
          let idle = setup_queue-IsIdle v engine_mem reserve zmalloc h2c ch zone size in
          record {
            idle = idle.0;
            free = idle.1;
            front = setup_queue-FrontIdle v engine_mem reserve zmalloc h2c ch zone size;
            offset = refl;
            channel = omega arith;
          })
        e

  pub xdma_rx_engine_setup-IsReceptive :
      (q : Queue) → xdma_rx_engine_setup v engine_mem reserve zmalloc ch ≡ some q → IsReceptive v q
  unfolding xdma_rx_engine_setup attempt built setup_queue xdma_desc_ring_init
  xdma_rx_engine_setup-IsReceptive q e =
      attempt-some c2h (IsReceptive v) engine_mem (reserve rx_zone_size) q
        (λ zone found.
          let size = (room rx_zone_size zone found).0 in
          let fresh = setup_queue-IsIdle v engine_mem reserve zmalloc c2h ch zone size in
          record {
            state = idle;
            implements = (fresh.0, free-AllRx (built c2h zone) fresh.0.max fresh.1);
            anchored = record {
              ends = setup_queue-StopsAtEnd v engine_mem reserve zmalloc c2h ch zone size;
              offset = refl;
              channel = omega arith;
            };
          })
        e
