-- ===== src/Rx/Post.antt =====
-- The receive ring after a burst of buffers has been posted.
use xdma_dpdk.Base.{
  ℕ, zero, suc, ◌+◌, ◌%◌, ◌<◌, ◌≤◌, ◌≡◌, refl, ap, ◌∙◌, sym, subst, List, [], ◌∷◌, ◌⊎◌, inl, inr,
  length, get_or, arith, join_halves, u64, bit_and, take, modify-modify, length-take_of_le,
  get_or-take,
}
use native.Mathlib.Decide.{dec_lt}
use xdma_dpdk.Xdma.{c2h, Desc, Queue, xdma_desc_max}
use xdma_dpdk.Ring.{desc_at, desc_control_idle, desc_control_last}
use xdma_dpdk.Ring.Chain.{link}
use xdma_dpdk.Desc.{get_desc, xdma_desc_control_set, edit}
use xdma_dpdk.Desc.Control.{flags_of}
use xdma_dpdk.Fill.{advance, put, IsLive, put-IsLive, used-put, desc_at-put_in, desc_at-put_out}
use xdma_dpdk.Rx.{Mbuf, fill_c2h, xdma_c2h_desc_set, post_buffers, stream_wb_addr}

-- What a descriptor becomes when it takes a buffer.
abbrev pub taken : (wb_addr : ℕ) → Mbuf → Desc → Desc
taken wb_addr mb d = xdma_desc_control_set 2 (fill_c2h wb_addr mb d)

pub link-taken : (wb_addr : ℕ) (mb : Mbuf) (d : Desc) → link (taken wb_addr mb d) ≡ link d
unfolding xdma_desc_control_set fill_c2h
link-taken wb_addr mb d = refl

post_one :
    (mb : Mbuf) (q : Queue)
    → xdma_c2h_desc_set mb q
      ≡ edit (advance q) q.engine.desc_used (taken (stream_wb_addr q.engine) mb)
unfolding xdma_c2h_desc_set get_desc
post_one mb q =
    ap (λ ds. record (advance q) { descs = ds })
      (modify-modify q.descs q.engine.desc_used (fill_c2h (stream_wb_addr q.engine) mb)
        (xdma_desc_control_set 2))

-- The loop puts the front of the array into the ring.
pub post_buffers_lem :
    (n : ℕ) (bufs : List Mbuf) (q : Queue)
    → post_buffers n bufs q ≡ put (taken (stream_wb_addr q.engine)) (take n bufs) q
unfolding post_buffers
post_buffers_lem zero bufs q = refl
post_buffers_lem (suc n) [] q = refl
post_buffers_lem (suc n) (mb ∷ bufs) q =
    ap (post_buffers n bufs) (post_one mb q)
    ∙ post_buffers_lem n bufs
        (edit (advance q) q.engine.desc_used (taken (stream_wb_addr q.engine) mb))

-- The control words of a receive ring, from set-up on.
abbrev pub IsRxControl : ℕ → Type 0
IsRxControl c = (c ≡ desc_control_idle) ⊎ ((c ≡ desc_control_last) ⊎ (c ≡ 0xad4b0002))

abbrev pub AllRx : Queue → Type 0
AllRx q = (i : ℕ) → i < xdma_desc_max → IsRxControl (desc_at q i).control

-- A descriptor offers a buffer to the device: 64 bytes at the buffer's bus address, with the flag
-- COMPLETED.
pub record Offers (mb : Mbuf) (d : Desc) : Type 0 where
  pub len : d.len ≡ 64
  pub address : join_halves d.dst_addr_lo d.dst_addr_hi ≡ u64 (mb.buf_iova + mb.data_off)
  pub completed : bit_and (flags_of d) 2 ≡ 2

taken_lem :
    (wb_addr : ℕ) (mb : Mbuf) (d : Desc)
    → IsRxControl d.control
    → Offers mb (taken wb_addr mb d) × IsRxControl (taken wb_addr mb d).control
unfolding xdma_desc_control_set fill_c2h
taken_lem wb_addr mb d (inl e) =
    (record { len = refl; address = omega arith; completed = rw e refl }, rw e (inr (inr refl)))
taken_lem wb_addr mb d (inr (inl e)) =
    (record { len = refl; address = omega arith; completed = rw e refl }, rw e (inr (inl refl)))
taken_lem wb_addr mb d (inr (inr e)) =
    (record { len = refl; address = omega arith; completed = rw e refl }, rw e (inr (inr refl)))

-- A buffer for reads outside an array.
abbrev pub no_mbuf : Mbuf
no_mbuf = record {
  buf_addr = 0;
  buf_iova = 0;
  data_off = 0;
  nb_segs = 0;
  pkt_len = 0;
  data_len = 0;
  packet_type = 0;
  ol_flags = 0;
  port = 0;
  vlan_tci = 0;
  rss = 0;
  next = 0;
}

-- The ring after `n` buffers have been posted from its start.
pub record IsOffered (v : ℕ → ℕ) (n : ℕ) (bufs : List Mbuf) (q : Queue) : Type 0 where
  pub live : IsLive v c2h q
  pub used : q.engine.desc_used ≡ n % xdma_desc_max
  pub offers : (k : ℕ) → k < n → Offers (get_or bufs k no_mbuf) (desc_at q k)
  pub controls : AllRx q

-- `xdma_recv_pkts` offers its first `n` buffers in order in the first `n` descriptors, if no
-- descriptor is in use, the array has `n` buffers and the ring `n` descriptors.
pub post_buffers-IsOffered :
    (v : ℕ → ℕ) (n : ℕ) (bufs : List Mbuf) (q : Queue)
    → IsLive v c2h q
    → q.engine.desc_used ≡ 0
    → AllRx q
    → n ≤ xdma_desc_max
    → n ≤ length bufs
    → IsOffered v n bufs (post_buffers n bufs q)
post_buffers-IsOffered v n bufs q live unused rx few enough =
    subst (IsOffered v n bufs) (sym (post_buffers_lem n bufs q)) (record {
      live = put-IsLive f (link-taken wb) v c2h (take n bufs) q live;
      used = used-put f (link-taken wb) v c2h (take n bufs) q live room ∙ omega (arith, size);
      offers = λ k h.
          rw (at_in k h)
            (taken_lem wb (get_or bufs k no_mbuf) (desc_at q k) (rx k (omega arith))).0;
      controls = λ k h. elim (dec_lt k n) [
        | yes p ↦
            rw (at_in k p)
              (taken_lem wb (get_or bufs k no_mbuf) (desc_at q k) (rx k (omega arith))).1
        | no p ↦
            rw
              (desc_at-put_out f (link-taken wb) v c2h (take n bufs) q k live room
                (inr (omega (arith, size))))
              (rx k h)
      ];
    })
  where
    wb : ℕ
    wb = stream_wb_addr q.engine

    f : Mbuf → Desc → Desc
    f = taken wb

    size : length (take n bufs) ≡ n
    size = length-take_of_le n bufs enough

    room : q.engine.desc_used + length (take n bufs) ≤ 32
    room = omega (arith, size)

    at_in :
        (k : ℕ)
        → k < n
        → desc_at (put f (take n bufs) q) k ≡ f (get_or bufs k no_mbuf) (desc_at q k)
    at_in k h =
        let e : q.engine.desc_used + k ≡ k = omega arith in
        subst
          (λ j.
            desc_at (put f (take n bufs) q) j ≡ f (get_or (take n bufs) k no_mbuf) (desc_at q j))
          e
          (desc_at-put_in f (link-taken wb) v c2h no_mbuf (take n bufs) q k live room
            (omega (arith, size)))
        ∙ ap (λ m. f m (desc_at q k)) (get_or-take n bufs k no_mbuf h)
