-- ===== src/Rx/Prepare.antt =====
-- Which buffers `prepare_packets` fills.
use xdma_dpdk.Base.{
  ℕ, zero, suc, ◌+◌, ◌-◌, ◌^◌, ◌<◌, ◌≤◌, ◌≡◌, refl, ap₂, sym, subst, ◌∙◌, List, length, get_or,
  modify, modify_range, length-modify_range, get_or-modify_range_in, get_or-modify_range_out, arith,
  ◌⊎◌, u16,
}
use xdma_dpdk.Xdma.{Engine, StreamWb}
use xdma_dpdk.Rx.{Mbuf, prepare_segmented_packet, prepare_loop, prepare_packets}
use xdma_dpdk.Rx.Post.{no_mbuf}

prepare_loop_lem :
    (engine : Engine) (wb : ℕ → StreamWb) (left i : ℕ) (bufs : List Mbuf)
    → prepare_loop engine wb left i bufs
      ≡ modify_range left i (λ k. prepare_segmented_packet engine (wb k)) bufs
unfolding prepare_loop modify_range
prepare_loop_lem engine wb zero i bufs = refl
prepare_loop_lem engine wb (suc left) i bufs =
    prepare_loop_lem engine wb left (i + 1) (modify bufs i (prepare_segmented_packet engine (wb i)))

-- Between `before` and `after` exactly the buffers from `lo` up to `hi` have been prepared, each
-- with the status that stood when its turn came.
pub record IsPrepared (engine : Engine) (wb : ℕ → StreamWb) (lo hi : ℕ) (before after : List Mbuf)
    : Type 0 where
  pub size : length after ≡ length before
  pub inside :
      (k : ℕ)
      → lo ≤ k
      → k < hi
      → get_or after k no_mbuf ≡ prepare_segmented_packet engine (wb k) (get_or before k no_mbuf)
  pub outside : (k : ℕ) → (k < lo) ⊎ (hi ≤ k) → get_or after k no_mbuf ≡ get_or before k no_mbuf

-- `prepare_packets` prepares the buffers between its two counts, and no other, if the counts fit
-- 16 bits and the array.
pub prepare_packets-IsPrepared :
    (engine : Engine) (wb : ℕ → StreamWb) (bufs : List Mbuf) (hi lo : ℕ)
    → lo ≤ hi
    → hi ≤ length bufs
    → hi < 2 ^ 16
    → IsPrepared engine wb lo hi bufs (prepare_packets engine wb bufs hi lo)
unfolding prepare_packets
prepare_packets-IsPrepared engine wb bufs hi lo le fits small =
    subst (IsPrepared engine wb lo hi bufs)
      (ranges ∙ sym (prepare_loop_lem engine wb (u16 hi - u16 lo) (u16 lo) bufs))
      (record {
        size = length-modify_range (hi - lo) lo f bufs;
        inside = λ k p q.
            get_or-modify_range_in (hi - lo) lo k f bufs no_mbuf (omega arith) p (omega arith);
        outside = λ k out.
            get_or-modify_range_out (hi - lo) lo k f bufs no_mbuf (omega arith) (omega arith);
      })
  where
    f : ℕ → Mbuf → Mbuf
    f k = prepare_segmented_packet engine (wb k)

    ranges : modify_range (hi - lo) lo f bufs ≡ modify_range (u16 hi - u16 lo) (u16 lo) f bufs
    ranges = ap₂ (λ n i. modify_range n i f bufs) (omega arith) (omega arith)
