-- ===== src/Platform.antt =====
-- drivers/net/xdma/xdma_platform.c: access to the device's registers through its mapped BARs.
use xdma_dpdk.Base.{
  ℕ, ◌+◌, List, [], ◌∷◌, Option, none, some, ◌==◌, if◌then◌else◌, get_or, u64, u32,
}
use xdma_dpdk.Base.Int.{ℤ, pos, negsuc}
use xdma_dpdk.Xdma.{XdmaDev}

-- What the driver does to the bus, in program order: a 32-bit store, or a write barrier (`rte_wmb`).
pub data BusEvent : Type 0 where
  store : (addr val : ℕ) → BusEvent
  wmb : BusEvent

-- The events so far, the latest first.
abbrev pub Bus : Type 0
Bus = List BusEvent

-- `(uint64_t)xdma_dev->bar[idx]`. An index outside the array is undefined in C and reads 0 here;
-- `Bars` has the code that chooses the indices.
abbrev pub bar_addr : XdmaDev → ℤ → ℕ
bar_addr dev (pos i) = get_or dev.bar i 0
bar_addr dev (negsuc i) = 0

unfoldable pub xdma_reg_write : XdmaDev → ℕ → ℕ → Bus → Bus
xdma_reg_write dev reg_offst val bus =
    store (u64 (bar_addr dev dev.config_bar_idx + reg_offst)) (u32 val) ∷ bus

unfoldable pub xdma_user_write : XdmaDev → ℕ → ℕ → Bus → Bus
xdma_user_write dev reg_offst val bus =
    store (u64 (bar_addr dev dev.user_bar_idx + reg_offst)) (u32 val) ∷ bus

-- The device answers a load as `device` says: the value read at an address.
unfoldable pub xdma_reg_read : (device : ℕ → ℕ) → XdmaDev → ℕ → ℕ
xdma_reg_read device dev reg_offst =
    u32 (device (u64 (bar_addr dev dev.config_bar_idx + reg_offst)))

unfoldable pub xdma_user_read : (device : ℕ → ℕ) → XdmaDev → ℕ → ℕ
xdma_user_read device dev reg_offst = u32 (device (u64 (bar_addr dev dev.user_bar_idx + reg_offst)))

-- The value that the latest store to an address wrote: what a register that only the driver writes
-- holds.
abbrev pub last_store : Bus → ℕ → Option ℕ
last_store [] a = none
last_store (store b v ∷ bus) a = if b == a then some v else last_store bus a
last_store (wmb ∷ bus) a = last_store bus a

-- What a load at an address finds when memory held `base` before the driver's stores.
abbrev pub memory : (base : ℕ → ℕ) → Bus → ℕ → ℕ
memory base bus a = elim (last_store bus a) [ none ↦ base a | some v ↦ v ]
