-- ===== src/Load.antt =====
-- Loading a file into a BAR, `xdma_bar_load` of drivers/net/xdma/xdma_platform.c. The file system is
-- a parameter: the length of the file, or none if it cannot be opened, and whether a chunk of it can
-- be mapped.
pub mod Tiles
use xdma_dpdk.Base.{
  ℕ, zero, suc, ◌+◌, ◌-◌, ◌*◌, ◌^◌, Bool, true, false, Option, none, some, List, [], ◌∷◌, ltb,
  if◌then◌else◌, u64, min,
}
use xdma_dpdk.Base.Int.{ℤ}
use xdma_dpdk.Xdma.{XdmaDev}
use xdma_dpdk.Platform.{bar_addr}

abbrev pub chunk_size : ℕ
chunk_size = 64 * 1024 * 1024

-- One `rte_memcpy`: `size` bytes of the file from `offset` on, to the address `dest`.
pub record Copy : Type 0 where
  pub dest : ℕ
  pub offset : ℕ
  pub size : ℕ

-- `while (total_written < file_size)`; `none` means that the fuel was not enough.
unfoldable pub copy_loop :
    (fuel : ℕ)
    → (mmap : (offset size : ℕ) → Bool) → (addr file_size total_written : ℕ) → Option (List Copy)
copy_loop zero mmap addr file_size total = none
copy_loop (suc fuel) mmap addr file_size total =
    let chunk = min chunk_size (file_size - total) in
    let copy : Copy = record { dest = u64 (addr + total); offset = total; size = chunk } in
    let rest = copy_loop fuel mmap addr file_size (total + chunk) in
    if ltb total file_size
    then (if mmap total chunk
        then elim rest [ none ↦ none | some copies ↦ some (copy ∷ copies) ]
        else some [])
    else some []

-- What the process does: it ends at once if the file cannot be opened, or copies.
pub data Loaded : Type 0 where
  exited : Loaded
  copied : Option (List Copy) → Loaded

unfoldable pub xdma_bar_load :
    (fuel : ℕ)
    → (file : Option ℕ) → (mmap : (offset size : ℕ) → Bool) → XdmaDev
    → (offset size : ℕ) → (bar_idx : ℤ) → Loaded
unfolding copy_loop
xdma_bar_load fuel none mmap dev offset size bar_idx = exited
xdma_bar_load fuel (some file_size) mmap dev offset size bar_idx =
    copied (copy_loop fuel mmap (u64 (bar_addr dev bar_idx + offset)) (min file_size size) 0)
