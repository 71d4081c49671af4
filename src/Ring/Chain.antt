-- ===== src/Ring/Chain.antt =====
-- The ring as the device reads it: a chain of descriptors, each with the physical address of the
-- one behind it.
use xdma_dpdk.Base.{ℕ, ◌+◌, ◌<◌, ◌≡◌, ◌∙◌, ap, length}
use xdma_dpdk.Base.{◌==◌, ltb, if◌then◌else◌, u64, join_halves, arith}
use xdma_dpdk.Base.{
  length-modify_range, get_or-modify_range_in, join_halves_lem, length-modify, get_or-modify,
  modify,
}
use xdma_dpdk.Xdma.{Desc, Queue}
use xdma_dpdk.Ring.{is_h2c, no_desc, desc_at, desc_addr, desc_control_idle, desc_control_last}
use xdma_dpdk.Ring.{init_desc, clear_desc, xdma_desc_ring_init, xdma_desc_ring_clear}

-- The two halves of a descriptor's link.
abbrev pub link : Desc → ℕ
link d = join_halves d.next_lo d.next_hi

-- What the link of descriptor `i` has to hold: the address of the next one, and 0 in the last.
abbrev pub link_target : (virt2phy : ℕ → ℕ) → Queue → ℕ → ℕ
link_target virt2phy q i =
    if ltb (i + 1) q.engine.desc_max then u64 (virt2phy (desc_addr q (i + 1))) else 0

pub record IsChained (virt2phy : ℕ → ℕ) (q : Queue) : Type 0 where
  pub size : length q.descs ≡ q.engine.desc_max
  pub links : (i : ℕ) → i < q.engine.desc_max → link (desc_at q i) ≡ link_target virt2phy q i

-- Every descriptor is unused: no length and no address.
abbrev pub IsBlank : Desc → Type 0
IsBlank d =
    (d.len ≡ 0)
    × (d.src_addr_lo ≡ 0)
    × (d.src_addr_hi ≡ 0)
    × (d.dst_addr_lo ≡ 0)
    × (d.dst_addr_hi ≡ 0)

abbrev pub AllBlank : Queue → Type 0
AllBlank q = (i : ℕ) → i < q.engine.desc_max → IsBlank (desc_at q i)

-- `xdma_desc_ring_init` links the descriptors of any memory in order and ends the chain, blanks
-- them, and puts the control word with the stop flags into the last one alone.
pub xdma_desc_ring_init-IsChained :
    (virt2phy : ℕ → ℕ) (q : Queue)
    → length q.descs ≡ q.engine.desc_max
    → let q' = xdma_desc_ring_init virt2phy q in
      IsChained virt2phy q'
      × AllBlank q'
      × ((i : ℕ)
          → i < q.engine.desc_max
          → (desc_at q' i).control
            ≡ (if i + 1 == q.engine.desc_max then desc_control_last else desc_control_idle))
unfolding xdma_desc_ring_init
xdma_desc_ring_init-IsChained virt2phy q h = (
  record {
    size = length-modify_range q.engine.desc_max 0 (init_desc virt2phy q) q.descs ∙ h;
    links =
        λ i p. ap link (at i p) ∙ ground (arith, join_halves_lem (virt2phy (desc_addr q (i + 1))));
  },
  λ i p. ground (arith, at i p),
  λ i p. ap (λ (d : Desc). d.control) (at i p) ∙ ground arith,
)
  where
    at :
        (i : ℕ)
        → i < q.engine.desc_max
        → desc_at (xdma_desc_ring_init virt2phy q) i ≡ init_desc virt2phy q i (desc_at q i)
    at i p =
        get_or-modify_range_in q.engine.desc_max 0 i (init_desc virt2phy q) q.descs no_desc
          (omega arith) (omega arith) (omega arith)

-- A change at one index that leaves links alone leaves the chain alone.
pub modify-IsChained :
    (virt2phy : ℕ → ℕ) (q : Queue) (i : ℕ) (f : Desc → Desc)
    → i < q.engine.desc_max
    → ((d : Desc) → link (f d) ≡ link d)
    → IsChained virt2phy q
    → IsChained virt2phy (record q { descs = modify q.descs i f })
modify-IsChained virt2phy q i f h same c = record {
  size = length-modify q.descs i f ∙ c.size;
  links = λ j p.
      ground (arith, get_or-modify q.descs i j f no_desc, c.links j, c.size, same (desc_at q j));
}

-- `xdma_desc_ring_clear` blanks every descriptor, keeps the chain, and resets the control words of
-- a transmit ring, while those of any other ring stay.
pub xdma_desc_ring_clear-IsChained :
    (virt2phy : ℕ → ℕ) (q : Queue)
    → IsChained virt2phy q
    → let q' = xdma_desc_ring_clear q in
      IsChained virt2phy q'
      × AllBlank q'
      × ((i : ℕ)
          → i < q.engine.desc_max
          → (desc_at q' i).control
            ≡ (if is_h2c q.engine.dir then desc_control_idle else (desc_at q i).control))
unfolding xdma_desc_ring_clear
xdma_desc_ring_clear-IsChained virt2phy q c = (
  record {
    size = length-modify_range q.engine.desc_max 0 (λ _. clear_desc q.engine.dir) q.descs ∙ c.size;
    links = λ i p. ap link (at i p) ∙ c.links i p;
  },
  λ i p. ground (arith, at i p),
  λ i p. ap (λ (d : Desc). d.control) (at i p),
)
  where
    at :
        (i : ℕ)
        → i < q.engine.desc_max
        → desc_at (xdma_desc_ring_clear q) i ≡ clear_desc q.engine.dir (desc_at q i)
    at i p =
        get_or-modify_range_in q.engine.desc_max 0 i (λ _. clear_desc q.engine.dir) q.descs no_desc
          (omega (arith, c.size)) (omega arith) (omega arith)
