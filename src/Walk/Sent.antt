-- ===== src/Walk/Sent.antt =====
-- The device's registers and the ring after `start_xmit`: what the device sends.
use xdma_dpdk.Base.{
  ℕ, ◌+◌, ◌*◌, ◌<◌, ◌≡◌, ap, sym, subst, ◌∙◌, Bool, true, List, [], ◌∷◌, ◌++◌, map, length, get_or,
  u64,
}
use xdma_dpdk.Base.Int.{sub_ℕ}
use xdma_dpdk.Regs.{h2c_sgdma_desc_lo_addr, h2c_sgdma_desc_hi_addr}
use xdma_dpdk.Xdma.{h2c, Desc, Engine, Queue, XdmaDev, sizeof_desc, xdma_desc_max}
use xdma_dpdk.Platform.{Bus}
use xdma_dpdk.Ring.{desc_addr}
use xdma_dpdk.Engine.{set_running, xdma_tx_engine_start}
use xdma_dpdk.Engine.Idle.{IsIdle, AllFree, FrontIdle}
use xdma_dpdk.Engine.Start.{reg_addr, HoldsWord, IsMapped, xdma_tx_engine_start_lem}
use xdma_dpdk.Fill.{engine-put}
use xdma_dpdk.Tx.{Packet, start_xmit}
use xdma_dpdk.Tx.Put.{Mark, no_mark, described}
use xdma_dpdk.Tx.Post.{fitting, all_marks}
use xdma_dpdk.Tx.Burst.{HaveSegs}
use xdma_dpdk.Tx.Posted.{filled_as}
use xdma_dpdk.Tx.Xmit.{started-IsLive}
use xdma_dpdk.Walk.{walk, InRam}
use xdma_dpdk.Walk.Send.{Fetch, fetch, wanted, ring, ring-walk, ring-walk_full}

module _ (v : ℕ → ℕ) (dev : XdmaDev) (ps : List Packet) (q : Queue) (bus : Bus)
    (idle : IsIdle v h2c q) (free : AllFree q) (segs : HaveSegs ps) (front : FrontIdle q) where
  abbrev ms : List Mark
  ms = all_marks (fitting xdma_desc_max ps)

  -- The device is told the ring's address moved by the engine's offset. From the ring's physical
  -- address on, memory reads as `seen`.
  abbrev pub Reads : (ℕ → Desc) → ℕ → List Fetch → Type 0
  Reads ram fuel seen =
      let reg = λ (r : ℕ). reg_addr dev r q.engine.channel in
      HoldsWord (start_xmit dev ps q bus).1 (reg h2c_sgdma_desc_lo_addr)
        (reg h2c_sgdma_desc_hi_addr) (u64 (desc_addr q 0 + q.engine.virt2phy_offset))
      × (map fetch (walk ram fuel (u64 (v (desc_addr q 0)))) ≡ seen)

  abbrev sent : Queue
  sent =
      ring v ps (set_running true q) (started-IsLive v dev ps q bus idle free segs) free idle.unused
        segs front

  engine_kept :
      sent.engine
      ≡ (let e = q.engine in record e { running = true; desc_used = sent.engine.desc_used })
  engine_kept = engine-put described ms (set_running true q)

  start_as :
      start_xmit dev ps q bus
      ≡ xdma_tx_engine_start dev (desc_addr sent 0) (sub_ℕ (length (fitting 32 ps)) 2) sent bus
  unfolding start_xmit
  start_as =
      ap (λ (r : ℕ × Queue). xdma_tx_engine_start dev (desc_addr r.1 0) (sub_ℕ r.0 2) r.1 bus)
        (filled_as v ps (set_running true q) (started-IsLive v dev ps q bus idle free segs) free
          idle.unused segs)

  -- Of the engine only `running` and the next descriptor change.
  pub start_xmit-engine :
      (start_xmit dev ps q bus).0.engine
      ≡ (let e = q.engine in record e { running = true; desc_used = sent.engine.desc_used })
  unfolding xdma_tx_engine_start
  start_xmit-engine =
      ap (λ (r : Queue × Bus). r.0.engine) start_as
      ∙ ap (λ (e : Engine). record e { running = true }) engine_kept

  InRam-sent : (ram : ℕ → Desc) → InRam v ram (start_xmit dev ps q bus).0 → InRam v ram sent
  unfolding xdma_tx_engine_start
  InRam-sent ram in_ram i h = subst (λ (r : Queue × Bus). InRam v ram r.0) start_as in_ram i h

  At : Engine → Type 0
  At e =
      HoldsWord
        (xdma_tx_engine_start dev (desc_addr sent 0) (sub_ℕ (length (fitting 32 ps)) 2) sent bus).1
        (reg_addr dev h2c_sgdma_desc_lo_addr e.channel)
        (reg_addr dev h2c_sgdma_desc_hi_addr e.channel) (u64 (desc_addr sent 0 + e.virt2phy_offset))

  told : IsMapped dev q → At q.engine
  unfolding At
  told mapped =
      subst At engine_kept
        (xdma_tx_engine_start_lem dev (desc_addr sent 0) (sub_ℕ (length (fitting 32 ps)) 2) sent bus
          (mapped.0, subst (λ (e : Engine). e.channel < 4) (sym engine_kept) mapped.1)).0

  same_start : desc_addr sent 0 ≡ desc_addr q 0
  same_start = ap (λ (e : Engine). u64 (e.desc_ring + sizeof_desc * 0)) engine_kept

  reads :
      (ram : ℕ → Desc) (fuel : ℕ) (seen : List Fetch)
      → IsMapped dev q
      → map fetch (walk ram fuel (u64 (v (desc_addr sent 0)))) ≡ seen
      → Reads ram fuel seen
  unfolding At
  reads ram fuel seen mapped e = (
    subst
        (λ (r : Queue × Bus).
          HoldsWord r.1 (reg_addr dev h2c_sgdma_desc_lo_addr q.engine.channel)
            (reg_addr dev h2c_sgdma_desc_hi_addr q.engine.channel)
            (u64 (desc_addr q 0 + q.engine.virt2phy_offset)))
        (sym start_as)
        (subst
          (λ a.
            HoldsWord
              (xdma_tx_engine_start dev (desc_addr sent 0) (sub_ℕ (length (fitting 32 ps)) 2) sent
                bus).1
              (reg_addr dev h2c_sgdma_desc_lo_addr q.engine.channel)
              (reg_addr dev h2c_sgdma_desc_hi_addr q.engine.channel)
              (u64 (a + q.engine.virt2phy_offset)))
          same_start (told mapped)),
    ap (λ a. map fetch (walk ram fuel (u64 (v a)))) (sym same_start) ∙ e,
  )

  -- On an idle queue `start_xmit` puts the ring's address, moved by the engine's offset, into the
  -- registers. From the ring's physical address on memory reads as the segments of the packets that
  -- fit, in their order, each with its length and bus address and with the flag EOP exactly if it ends
  -- its packet, and then a descriptor with nothing to send that stops the device: if these segments
  -- are fewer than the ring's descriptors.
  pub start_xmit-walk :
      IsMapped dev q
      → (ram : ℕ → Desc) → InRam v ram (start_xmit dev ps q bus).0
      → (fuel : ℕ) → length ms < xdma_desc_max
      → length ms < fuel
      → (ends : Bool) × Reads ram fuel (map wanted ms ++ ((0, 0, ends) ∷ []))
  start_xmit-walk mapped ram in_ram fuel room h =
      let (ends, e) =
        ring-walk v ps (set_running true q) (started-IsLive v dev ps q bus idle free segs) free
          idle.unused segs front ram fuel idle.blank (InRam-sent ram in_ram) h room in
      (ends, reads ram fuel _ mapped e)

  -- On an idle transmit queue whose descriptors are all free and of which only the last may have
  -- the flags that end a chain: if the packets have segments, and those of the packets that fit
  -- fill the whole ring, then `start_xmit` of `xdma_xmit_pkts` puts the virtual address of the
  -- ring, moved by the engine's offset, into the channel's registers; and from the ring's physical
  -- address on, a walk along the links of the descriptors reads the first segment alone, since the
  -- flags that stop it stand round the ring, in the first descriptor; if the configuration BAR is
  -- mapped, the channel is below 4, and the descriptors are in memory at the physical addresses
  -- that DPDK gives for them.
  pub start_xmit-walk_full :
      IsMapped dev q
      → (ram : ℕ → Desc) → InRam v ram (start_xmit dev ps q bus).0
      → (fuel : ℕ) → length ms ≡ xdma_desc_max
      → 0 < fuel
      → Reads ram fuel (wanted (get_or ms 0 no_mark) ∷ [])
  start_xmit-walk_full mapped ram in_ram fuel full h = reads ram fuel _ mapped (
      ring-walk_full v ps (set_running true q) (started-IsLive v dev ps q bus idle free segs) free
        idle.unused segs front ram fuel (InRam-sent ram in_ram) h full)
