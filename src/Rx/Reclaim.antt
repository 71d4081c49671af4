-- ===== src/Rx/Reclaim.antt =====
-- `reclaim_engine_mbuf` of drivers/net/xdma/xdma_rxtx.c, which gives buffers of the software ring back
-- to their pool.
use xdma_dpdk.Base.{
  ℕ, zero, suc, ◌^◌, ◌<◌, ◌≤◌, ◌≡◌, refl, sym, subst, inr, false, not, ◌&&◌, Option, none, List, [],
  take, length, get_or, min, ltb, ◌==◌, if◌then◌else◌, u16, arith, modify_range,
  get_or-modify_range_in, get_or-modify_range_out,
}

-- An element of the software ring: the address of a buffer, or NULL.
abbrev pub SwRing : Type 0
SwRing = List (Option ℕ)

-- `fl_desc` behind the test of `free_cnt`.
abbrev pub to_free : (desc_used free_cnt : ℕ) → ℕ
to_free desc_used free_cnt =
    if not (free_cnt == 0) && ltb free_cnt desc_used then free_cnt else desc_used

-- The result, what is given to `rte_pktmbuf_free_bulk`, and the ring. The parameter `desc_used` of the
-- function is not used; here it is the engine's.
unfoldable pub reclaim_engine_mbuf : (desc_used free_cnt : ℕ) → SwRing → ℕ × SwRing × SwRing
reclaim_engine_mbuf desc_used free_cnt sw_ring =
    let fl_desc = to_free desc_used free_cnt in
    let fl_desc_cnt = u16 fl_desc in
    if desc_used == 0
    then (0, [], sw_ring)
    else (fl_desc, take fl_desc_cnt sw_ring, modify_range fl_desc_cnt 0 (λ i b. none) sw_ring)

cleared :
    (n : ℕ) (sw_ring : SwRing)
    → n ≤ length sw_ring
    → let after = modify_range n 0 (λ i b. none) sw_ring in
      ((j : ℕ) → j < n → get_or after j none ≡ none)
      × ((j : ℕ) → n ≤ j → get_or after j none ≡ get_or sw_ring j none)
cleared n sw_ring h = (
  λ j lt.
      get_or-modify_range_in n 0 j (λ i b. none) sw_ring none (omega arith) (omega arith)
        (omega arith),
  λ j le.
      get_or-modify_range_out n 0 j (λ i b. none) sw_ring none (omega arith) (inr (omega arith)),
)

-- What `reclaim_engine_mbuf` does if it frees `n` buffers.
abbrev pub Reclaims : ℕ → SwRing → ℕ × SwRing × SwRing → Type 0
Reclaims n sw_ring (ret, freed, after) =
    (ret ≡ n)
    × (freed ≡ take n sw_ring)
    × ((j : ℕ) → j < n → get_or after j none ≡ none)
    × ((j : ℕ) → n ≤ j → get_or after j none ≡ get_or sw_ring j none)

Reclaims-some :
    (n fl : ℕ) (sw_ring : SwRing)
    → n ≤ length sw_ring
    → u16 n ≡ n
    → fl ≡ n
    → Reclaims n sw_ring (fl, take (u16 fl) sw_ring, modify_range (u16 fl) 0 (λ i b. none) sw_ring)
Reclaims-some n fl sw_ring h small e =
    subst
      (λ k.
        Reclaims n sw_ring (k, take (u16 k) sw_ring, modify_range (u16 k) 0 (λ i b. none) sw_ring))
      (sym e)
      (subst (λ k. Reclaims n sw_ring (n, take k sw_ring, modify_range k 0 (λ i b. none) sw_ring))
        (sym small) (refl, refl, (cleared n sw_ring h).0, (cleared n sw_ring h).1))

-- With fewer than 2 ^ 16 buffers in use, all of them in the software ring, `reclaim_engine_mbuf` gives
-- back the first ones in order, all that are in use or `free_cnt` of them if that is fewer and not 0;
-- it returns their number and clears exactly their elements of the ring.
pub reclaim_engine_mbuf_lem :
    (desc_used free_cnt : ℕ) (sw_ring : SwRing)
    → desc_used < 2 ^ 16
    → desc_used ≤ length sw_ring
    → Reclaims
        (if free_cnt == 0 then desc_used else min free_cnt desc_used)
        sw_ring
        (reclaim_engine_mbuf desc_used free_cnt sw_ring)
unfolding reclaim_engine_mbuf
reclaim_engine_mbuf_lem zero free_cnt sw_ring small inside =
    let none_used : ◌≡◌ {A = ℕ} (if free_cnt == 0 then 0 else min free_cnt 0) 0 = ground arith in
    subst (λ n. Reclaims n sw_ring (0, [], sw_ring)) (sym none_used)
      (refl, refl, λ j lt. absurd (omega arith), λ j le. refl)
reclaim_engine_mbuf_lem (suc used) free_cnt sw_ring small inside =
    let some_used : (suc used == 0) ≡ false = ground arith in
    rw some_used (
      Reclaims-some (if free_cnt == 0 then suc used else min free_cnt (suc used))
        (to_free (suc used) free_cnt) sw_ring (ground (arith, inside)) (ground (arith, small))
        (ground arith))
