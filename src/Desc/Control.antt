-- ===== src/Desc/Control.antt =====
-- What the edits of a control word do to its fields: bits 0 to 7 (flags), bits 8 to 13 (the number
-- of adjacent descriptors) and the rest.
use xdma_dpdk.Base.{
  ℕ, ◌+◌, ◌-◌, ◌*◌, ◌/◌, ◌%◌, ◌^◌, ◌<◌, ◌≡◌, refl, ap, ap₂, ◌∙◌, bit_and, bit_or, u32, arith,
}
use xdma_dpdk.Base.Bits.{
  bit_and_split, bit_or_split, bit_and_ones, bit_and-zero, bit_or-zero, zero-bit_or, bit_or-lt,
}
use xdma_dpdk.Xdma.{Desc}
use xdma_dpdk.Desc.{xdma_desc_control_set, xdma_desc_adjacent_set}

abbrev pub flags_of : Desc → ℕ
flags_of d = d.control % 2 ^ 8

abbrev pub adjacent_of : Desc → ℕ
adjacent_of d = d.control / 2 ^ 8 % 2 ^ 6

abbrev pub magic_of : Desc → ℕ
magic_of d = d.control / 2 ^ 14

-- `control & ~XDMA_DESC_NXT_ADJ_MASK` clears bits 8 to 13.
clear_adjacent :
    (c : ℕ) → c < 2 ^ 32 → bit_and c (2 ^ 64 - 1 - 0x3f00) ≡ c / 2 ^ 14 * 2 ^ 14 + c % 2 ^ 8
clear_adjacent c h =
    ap₂ bit_and (omega arith) refl
    ∙ (bit_and_split 14 (c / 2 ^ 14) (c % 2 ^ 14) (2 ^ 50 - 1) 0xff (omega arith) (omega arith)
        ∙ omega (
          arith,
          bit_and_ones 50 (c / 2 ^ 14) (omega arith),
          ap₂ bit_and low refl,
          bit_and_split 8 (c % 2 ^ 14 / 2 ^ 8) (c % 2 ^ 8) 0 0xff (omega arith) (omega arith),
          bit_and-zero (c % 2 ^ 14 / 2 ^ 8),
          bit_and_ones 8 (c % 2 ^ 8) (omega arith),
        ))
  where
    low : c % 2 ^ 14 ≡ c % 2 ^ 14 / 2 ^ 8 * 2 ^ 8 + c % 2 ^ 8
    low = omega arith

-- `|` puts a number of six bits into the cleared field.
fill_adjacent :
    (m f n : ℕ)
    → f < 2 ^ 8
    → n < 2 ^ 6
    → bit_or (m * 2 ^ 14 + f) (n * 2 ^ 8) ≡ m * 2 ^ 14 + n * 2 ^ 8 + f
fill_adjacent m f n hf hn =
    ap₂ bit_or (omega arith) (omega arith)
    ∙ (bit_or_split 8 (m * 2 ^ 6 + 0) f n 0 hf (omega arith)
        ∙ omega (
          arith,
          bit_or-zero f,
          ap₂ bit_or {x = m * 2 ^ 6 + 0} refl (upper n),
          bit_or_split 6 m 0 0 n (omega arith) hn,
          bit_or-zero m,
          zero-bit_or n,
        ))
  where
    upper : (n : ℕ) → n ≡ 0 * 2 ^ 6 + n
    upper n = omega arith

-- `xdma_desc_adjacent_set` stores any count of six bits in its field, and changes no other bit of
-- the control word and no other word of the descriptor.
pub xdma_desc_adjacent_set_lem :
    (n : ℕ) (d : Desc)
    → n < 2 ^ 6
    → d.control < 2 ^ 32
    → let d' = xdma_desc_adjacent_set n d in
      (adjacent_of d' ≡ n)
      × (flags_of d' ≡ flags_of d)
      × (magic_of d' ≡ magic_of d)
      × (d' ≡ record d { control = d'.control })
unfolding xdma_desc_adjacent_set
xdma_desc_adjacent_set_lem n d hn hd =
    (omega (arith, value), omega (arith, value), omega (arith, value), refl)
  where
    value :
        (xdma_desc_adjacent_set n d).control
        ≡ d.control / 2 ^ 14 * 2 ^ 14 + n * 2 ^ 8 + d.control % 2 ^ 8
    value =
        ap₂ bit_or (ap u32 (clear_adjacent d.control hd) ∙ omega arith) (omega arith)
        ∙ fill_adjacent (d.control / 2 ^ 14) (d.control % 2 ^ 8) n (omega arith) hn

-- `xdma_desc_control_set` adds flags to the flags that are set, and changes no other bit of the
-- control word and no other word of the descriptor.
pub xdma_desc_control_set_lem :
    (f : ℕ) (d : Desc)
    → f < 2 ^ 8
    → d.control < 2 ^ 32
    → let d' = xdma_desc_control_set f d in
      (flags_of d' ≡ bit_or (flags_of d) f)
      × (adjacent_of d' ≡ adjacent_of d)
      × (magic_of d' ≡ magic_of d)
      × (d' ≡ record d { control = d'.control })
unfolding xdma_desc_control_set
xdma_desc_control_set_lem f d hf hd =
    (omega (arith, value, small), omega (arith, value, small), omega (arith, value, small), refl)
  where
    small : bit_or (d.control % 2 ^ 8) f < 2 ^ 8
    small = bit_or-lt 8 (d.control % 2 ^ 8) f (omega arith) hf

    value : bit_or d.control f ≡ d.control / 2 ^ 8 * 2 ^ 8 + bit_or (d.control % 2 ^ 8) f
    value =
        ap₂ bit_or (omega arith) (omega arith)
        ∙ (bit_or_split 8 (d.control / 2 ^ 8) (d.control % 2 ^ 8) 0 f (omega arith) hf
            ∙ ap (λ (t : ℕ). t * 2 ^ 8 + bit_or (d.control % 2 ^ 8) f)
                (bit_or-zero (d.control / 2 ^ 8)))
