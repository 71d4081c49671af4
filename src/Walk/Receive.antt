-- ===== src/Walk/Receive.antt =====
-- The receive ring with all its buffers, as the device reads it: the ring that `xdma_recv_pkts` of drivers/net/xdma/xdma_rxtx.c leaves.
use xdma_dpdk.Base.{
  ℕ, ◌+◌, ◌-◌, ◌^◌, ◌<◌, ◌≤◌, ◌≡◌, refl, ap, sym, subst, ◌∙◌, inl, inr, false, List, [], ◌∷◌, ◌++◌,
  map, length, get_or, take, take-suc, get_or-take, length-take_of_le, length-map, get_or-map, ◌==◌,
  arith, u64, join_halves, join_halves-u64, ap₂,
}
use xdma_dpdk.Xdma.{c2h, Desc, Queue, XdmaDev, xdma_desc_max}
use xdma_dpdk.Platform.{Bus}
use xdma_dpdk.Ring.{desc_at, desc_addr}
use xdma_dpdk.Desc.{xdma_desc_control_set}
use xdma_dpdk.Engine.Idle.{IsIdle, stops, StopsAtEnd}
use xdma_dpdk.Fill.{put, put-IsLive, IsLive, desc_at-put_in}
use xdma_dpdk.Rx.{Mbuf, fill_c2h, stream_wb_addr, set_status}
use xdma_dpdk.Rx.Post.{taken, link-taken, IsRxControl, AllRx, no_mbuf}
use xdma_dpdk.Rx.Receiver.{fresh-IsLive}
use xdma_dpdk.Walk.{walk, InRam, walk_lem}

-- What the device learns of a descriptor: how many bytes to store, where, and where to read the
-- source, which for a stream is the address of its status.
abbrev pub Slot : Type 0
Slot = ℕ × ℕ × ℕ

abbrev pub slot : Desc → Slot
slot d = (d.len, join_halves d.dst_addr_lo d.dst_addr_hi, join_halves d.src_addr_lo d.src_addr_hi)

-- A buffer with room for 64 bytes at its bus address, and the address of the stream status, moved by
-- the distance of the buffer's bus address from its virtual one.
abbrev pub offered : (wb_addr : ℕ) → Mbuf → Slot
offered wb_addr mb =
    (64, u64 (mb.buf_iova + mb.data_off), u64 (wb_addr + u64 (mb.buf_iova + 2 ^ 64 - mb.buf_addr)))

-- A descriptor that takes a buffer offers it, and stops the device if it did before.
taken-slot :
    (wb_addr : ℕ) (mb : Mbuf) (d : Desc)
    → IsRxControl d.control
    → (slot (taken wb_addr mb d) ≡ offered wb_addr mb) × (stops (taken wb_addr mb d) ≡ stops d)
unfolding xdma_desc_control_set fill_c2h
taken-slot wb_addr mb d control = (
  ap₂ (λ dst src. (64, dst, src)) (join_halves-u64 (mb.buf_iova + mb.data_off))
      (join_halves-u64 (wb_addr + u64 (mb.buf_iova + 2 ^ 64 - mb.buf_addr))),
  kept control,
)
  where
    kept : IsRxControl d.control → stops (taken wb_addr mb d) ≡ stops d
    kept (inl e) = rw e refl
    kept (inr (inl e)) = rw e refl
    kept (inr (inr e)) = rw e refl

module _ (v : ℕ → ℕ) (dev : XdmaDev) (bufs : List Mbuf) (q : Queue) (bus : Bus)
    (idle : IsIdle v c2h q) (controls : AllRx q) (ends : StopsAtEnd q)
    (enough : xdma_desc_max ≤ length bufs) where
  abbrev pub wb : ℕ
  wb = stream_wb_addr q.engine

  -- The ring that the driver leaves.
  abbrev pub posted : Queue
  posted = put (taken wb) (take 32 bufs) (set_status 0 q)

  live : IsLive v c2h (set_status 0 q)
  live = fresh-IsLive v q idle

  size : length (take 32 bufs) ≡ 32
  size = length-take_of_le 32 bufs enough

  room : q.engine.desc_used + length (take 32 bufs) ≤ 32
  room = omega (arith, size, idle.unused)

  at : (i : ℕ) → i < 32 → desc_at posted i ≡ taken wb (get_or bufs i no_mbuf) (desc_at q i)
  at i h =
      let e : q.engine.desc_used + i ≡ i = omega (arith, idle.unused) in
      subst (λ j. desc_at posted j ≡ taken wb (get_or (take 32 bufs) i no_mbuf) (desc_at q j)) e
        (desc_at-put_in (taken wb) (link-taken wb) v c2h no_mbuf (take 32 bufs) (set_status 0 q) i
          live room (omega (arith, size)))
      ∙ ap (λ m. taken wb m (desc_at q i)) (get_or-take 32 bufs i no_mbuf h)

  pub posted_at :
      (i : ℕ)
      → i < 32
      → (slot (desc_at posted i) ≡ offered wb (get_or bufs i no_mbuf))
        × (stops (desc_at posted i) ≡ (i + 1 == 32))
  posted_at i h =
      let (shown, same) = taken-slot wb (get_or bufs i no_mbuf) (desc_at q i) (controls i h) in
      (ap slot (at i h) ∙ shown, ap stops (at i h) ∙ (same ∙ ends i h))

  abbrev pub offers : List Slot
  offers = map (offered wb) bufs

  length-offers : length offers ≡ length bufs
  length-offers = length-map (offered wb) bufs

  abbrev nowhere : Slot
  nowhere = offered wb no_mbuf

  shown :
      (i : ℕ)
      → i < 31
      → (slot (desc_at posted (0 + i)) ≡ get_or (take 31 offers) i nowhere)
        × (stops (desc_at posted (0 + i)) ≡ false)
  shown i h =
      let z : 0 + i ≡ i = omega arith in
      let (offer, stop) = posted_at i (omega arith) in
      rw z (
        offer
            ∙ (sym (get_or-map (offered wb) bufs i no_mbuf)
                ∙ sym (get_or-take 31 offers i nowhere h)),
        stop ∙ ground arith,
      )

  -- The device reads the first 32 buffers in order.
  pub receive_walk :
      (ram : ℕ → Desc) (fuel : ℕ)
      → InRam v ram posted
      → xdma_desc_max ≤ fuel
      → map slot (walk ram fuel (u64 (v (desc_addr posted 0)))) ≡ take xdma_desc_max offers
  receive_walk ram fuel in_ram h =
      let whole =
        (put-IsLive (taken wb) (link-taken wb) v c2h (take 32 bufs) (set_status 0 q) live).whole in
      let n : length (take 31 offers) ≡ 31 =
        length-take_of_le 31 offers (omega (arith, length-offers, enough)) in
      let last : 0 + length (take 31 offers) ≡ 31 = omega (arith, n) in
      let (offer, stop) = posted_at 31 (omega arith) in
      walk_lem slot v ram posted whole.chained whole.max in_ram nowhere fuel 0 (take 31 offers)
        (omega (arith, n)) (omega (arith, n)) (λ j p. shown j (omega (arith, n))) (rw last stop)
      ∙ rw last (
          ap (λ o. take 31 offers ++ (o ∷ []))
            (offer ∙ sym (get_or-map (offered wb) bufs 31 no_mbuf))
          ∙ sym (take-suc 31 offers nowhere (omega (arith, length-offers, enough))))
