-- ===== src/Tx/Burst.antt =====
-- The ring that the device reads after a burst has been posted.
use xdma_dpdk.Base.{
  ℕ, ◌+◌, ◌-◌, ◌/◌, ◌%◌, ◌^◌, ◌<◌, ◌≤◌, ◌≡◌, refl, sym, ◌⊎◌, inl, inr, Bool, true, false, List, [],
  ◌∷◌, length, get_or, if◌then◌else◌, arith, u64, join_halves, bit_and, bit_or, u32, subst,
}
use xdma_dpdk.Xdma.{h2c, Desc, Queue, xdma_desc_max}
use xdma_dpdk.Ring.{desc_at, desc_control_idle, desc_control_last}
use xdma_dpdk.Desc.{xdma_desc_control_set, xdma_desc_adjacent_set}
use xdma_dpdk.Desc.Control.{flags_of, adjacent_of, xdma_desc_adjacent_set_lem}
use xdma_dpdk.Engine.Idle.{IsFreeControl}
use xdma_dpdk.Tx.{Packet, fill_h2c}
use xdma_dpdk.Fill.{IsLive}
use xdma_dpdk.Tx.Put.{Mark, no_mark, described}
use xdma_dpdk.Tx.Post.{fitting, all_marks}

-- A descriptor describes a segment: its length, its bus address, and the flags EOP and COMPLETED if
-- it ends its packet.
pub record Describes (m : Mark) (d : Desc) : Type 0 where
  pub len : d.len ≡ m.0.data_len
  pub address : join_halves d.src_addr_lo d.src_addr_hi ≡ u64 (m.0.buf_iova + m.0.data_off)
  pub ends : (m.1 ≡ false) ⊎ (bit_and (flags_of d) 0x12 ≡ 0x12)

abbrev pub StopFlags : Desc → Type 0
StopFlags d = bit_and (flags_of d) 3 ≡ 3

-- The descriptor with the flags STOPPED and COMPLETED added, if `stop`.
abbrev pub with_stop : Bool → Desc → Desc
with_stop stop d = if stop then xdma_desc_control_set 3 d else d

-- The control word on that way.
abbrev pub word : Bool → Bool → ℕ → ℕ
word ends stop c =
    let c1 = if ends then u32 (bit_or c 0x12) else c in if stop then u32 (bit_or c1 3) else c1

abbrev pub WordOk : Bool → Bool → ℕ → Type 0
WordOk ends stop w =
    (w < 2 ^ 32)
    × (w / 2 ^ 8 % 2 ^ 6 ≡ 0)
    × ((ends ≡ false) ⊎ (bit_and (w % 2 ^ 8) 0x12 ≡ 0x12))
    × ((stop ≡ false) ⊎ (bit_and (w % 2 ^ 8) 3 ≡ 3))

idle_word : (ends stop : Bool) → WordOk ends stop (word ends stop desc_control_idle)
idle_word true true = (omega arith, refl, inr refl, inr refl)
idle_word true false = (omega arith, refl, inr refl, inl refl)
idle_word false true = (omega arith, refl, inl refl, inr refl)
idle_word false false = (omega arith, refl, inl refl, inl refl)

last_word : (ends stop : Bool) → WordOk ends stop (word ends stop desc_control_last)
last_word true true = (omega arith, refl, inr refl, inr refl)
last_word true false = (omega arith, refl, inr refl, inl refl)
last_word false true = (omega arith, refl, inl refl, inr refl)
last_word false false = (omega arith, refl, inl refl, inl refl)

pub free_word : (ends stop : Bool) (c : ℕ) → IsFreeControl c → WordOk ends stop (word ends stop c)
free_word ends stop c (inl e) =
    subst (λ x. WordOk ends stop (word ends stop x)) (sym e) (idle_word ends stop)
free_word ends stop c (inr e) =
    subst (λ x. WordOk ends stop (word ends stop x)) (sym e) (last_word ends stop)

pub with_stop-word :
    (stop : Bool) (d : Desc) → (with_stop stop d).control ≡ word false stop d.control
unfolding xdma_desc_control_set
with_stop-word true d = refl
with_stop-word false d = refl

abbrev Fields : Mark → Bool → Desc → Desc → Type 0
Fields m stop d d' =
    (d'.control ≡ word m.1 stop d.control)
    × (d'.len ≡ m.0.data_len)
    × (join_halves d'.src_addr_lo d'.src_addr_hi ≡ u64 (m.0.buf_iova + m.0.data_off))

fields_lem : (m : Mark) (stop : Bool) (d : Desc) → Fields m stop d (with_stop stop (described m d))
unfolding xdma_desc_control_set fill_h2c
fields_lem (mb, true) true d = (refl, refl, omega arith)
fields_lem (mb, true) false d = (refl, refl, omega arith)
fields_lem (mb, false) true d = (refl, refl, omega arith)
fields_lem (mb, false) false d = (refl, refl, omega arith)

-- What a free descriptor becomes, in all cases.
pub record IsMarked (m : Mark) (stop : Bool) (d : Desc) : Type 0 where
  pub small : d.control < 2 ^ 32
  pub describes : Describes m d
  pub stops : (stop ≡ false) ⊎ StopFlags d

pub free-IsMarked :
    (m : Mark) (stop : Bool) (d : Desc)
    → IsFreeControl d.control
    → IsMarked m stop (with_stop stop (described m d))
free-IsMarked m stop d free = record {
  small = rw fields.0 ok.0;
  describes = record { len = fields.1; address = fields.2; ends = rw fields.0 ok.2 };
  stops = rw fields.0 ok.3;
}
  where
    fields : Fields m stop d (with_stop stop (described m d))
    fields = fields_lem m stop d

    ok : WordOk m.1 stop (word m.1 stop d.control)
    ok = free_word m.1 stop d.control free

-- The number of adjacent descriptors is stored without touching any of this.
pub adjacent-Describes :
    (m : Mark) (n : ℕ) (d : Desc)
    → n < 2 ^ 6
    → d.control < 2 ^ 32
    → Describes m d
    → Describes m (xdma_desc_adjacent_set n d)
unfolding xdma_desc_adjacent_set
adjacent-Describes m n d hn hd s = record {
  len = s.len;
  address = s.address;
  ends = rw (xdma_desc_adjacent_set_lem n d hn hd).1 s.ends;
}

-- The ring after a burst: `count` packets are posted, those at the front of the burst whose
-- segments fit; the chain is intact; the descriptors from the first on describe the segments of
-- these packets in order; the one behind them, round the ring, has the stop flags; and of the
-- first `count` each but the last says how many descriptors are adjacent.
pub record IsPosted (v : ℕ → ℕ) (ps : List Packet) (r : ℕ × Queue) : Type 0 where
  pub count : r.0 ≡ length (fitting xdma_desc_max ps)
  pub live : IsLive v h2c r.1
  pub filled :
      (k : ℕ)
      → k < length (all_marks (fitting xdma_desc_max ps))
      → Describes (get_or (all_marks (fitting xdma_desc_max ps)) k no_mark) (desc_at r.1 k)
  pub stop : StopFlags (desc_at r.1 (length (all_marks (fitting xdma_desc_max ps)) % xdma_desc_max))
  pub adjacent : (k : ℕ) → k + 1 < r.0 → adjacent_of (desc_at r.1 k) ≡ r.0 - 2 - k

abbrev pub HaveSegs : List Packet → Type 0
HaveSegs [] = Unit {0}
HaveSegs (p ∷ ps) = (1 ≤ p.nb_segs) × HaveSegs ps

pub length-fitting :
    (avail : ℕ) (ps : List Packet) → HaveSegs ps → length (fitting avail ps) ≤ avail
length-fitting avail [] h = omega arith
length-fitting avail (p ∷ ps) h = ground (arith, length-fitting (avail - p.nb_segs) ps h.1)
