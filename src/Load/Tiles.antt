-- ===== src/Load/Tiles.antt =====
-- The copies of `xdma_bar_load` cover the file.
use xdma_dpdk.Base.{
  ℕ, zero, suc, ◌+◌, ◌-◌, ◌%◌, ◌<◌, ◌≤◌, ◌≡◌, ◌⊎◌, refl, ap, Bool, true, some, List, [], ◌∷◌, ltb,
  u64, min, arith, inl, inr, Bool-cases,
}
use native.Mathlib.Decide.{dec_lt}
use xdma_dpdk.Base.Int.{ℤ}
use xdma_dpdk.Xdma.{XdmaDev}
use xdma_dpdk.Platform.{bar_addr}
use xdma_dpdk.Load.{Copy, chunk_size, copy_loop, copied, xdma_bar_load}

-- The copies take up the range from `total` to `file_size` without a gap or an overlap, each from a
-- page's start, of 64 MB at most, and to its place behind `addr`.
abbrev pub Tiles : ℕ → ℕ → ℕ → List Copy → Type 0
Tiles addr file_size total [] = file_size ≤ total
Tiles addr file_size total (c ∷ cs) =
    (c.offset ≡ total)
    × (c.dest ≡ u64 (addr + total))
    × (c.offset % 4096 ≡ 0)
    × (0 < c.size)
    × (c.size ≤ chunk_size)
    × (total + c.size ≤ file_size)
    × Tiles addr file_size (total + c.size) cs

-- A place that the loop reaches: a multiple of the chunk size, or the end.
abbrev IsPlace : ℕ → ℕ → Type 0
IsPlace file_size total = (total % 4096 ≡ 0) ⊎ (file_size ≤ total)

page-IsPlace :
    (file_size total : ℕ) → total < file_size → IsPlace file_size total → total % 4096 ≡ 0
page-IsPlace file_size total lt (inl page) = page
page-IsPlace file_size total lt (inr over) = absurd (omega arith)

next-IsPlace :
    (file_size total : ℕ)
    → total < file_size
    → IsPlace file_size total
    → IsPlace file_size (total + min chunk_size (file_size - total))
next-IsPlace file_size total lt place =
    let page = page-IsPlace file_size total lt place in
    elim (dec_lt chunk_size (file_size - total)) [
      | yes p ↦ inl (omega (arith, page, p))
      | no p ↦ inr (omega (arith, p))
    ]

copy_loop-Tiles :
    (fuel : ℕ) (mmap : (offset size : ℕ) → Bool) (addr file_size total : ℕ)
    → ((offset size : ℕ) → mmap offset size ≡ true)
    → total ≤ file_size
    → file_size < total + fuel
    → IsPlace file_size total
    → (cs : List Copy) × (copy_loop fuel mmap addr file_size total ≡ some cs)
      × Tiles addr file_size total cs
unfolding copy_loop
copy_loop-Tiles zero mmap addr file_size total maps le enough place = absurd (omega arith)
copy_loop-Tiles (suc fuel) mmap addr file_size total maps le enough place =
    elim (Bool-cases (ltb total file_size)) [
      | inr done ↦ ([], rw done refl, ground (arith, done))
      | inl more ↦
          let chunk = min chunk_size (file_size - total) in
          let lt : total < file_size = ground (arith, more) in
          let (cs, e, tiles) =
            copy_loop-Tiles fuel mmap addr file_size (total + chunk) maps (omega (arith, lt))
              (omega (arith, lt)) (next-IsPlace file_size total lt place) in
          (
            record { dest = u64 (addr + total); offset = total; size = chunk } ∷ cs,
            rw more (rw (maps total chunk) (rw e refl)),
            (
              refl,
              refl,
              page-IsPlace file_size total lt place,
              omega (arith, lt),
              omega arith,
              omega (arith, lt),
              tiles,
            ),
          )
    ]

-- With more fuel than the file has bytes, and if every mapping succeeds, `xdma_bar_load` copies the
-- file, or as much of it as `size` says, to the BAR at `offset`: the copies cover it without a gap or
-- an overlap, each from a page's start, which `mmap` demands, and of 64 MB at most.
pub xdma_bar_load-Tiles :
    (fuel file_size : ℕ) (mmap : (offset size : ℕ) → Bool) (dev : XdmaDev) (offset size : ℕ)
    (bar_idx : ℤ)
    → ((o s : ℕ) → mmap o s ≡ true)
    → min file_size size < fuel
    → (cs : List Copy) × (xdma_bar_load fuel (some file_size) mmap dev offset size bar_idx
        ≡ copied (some cs))
      × Tiles (u64 (bar_addr dev bar_idx + offset)) (min file_size size) 0 cs
unfolding xdma_bar_load
xdma_bar_load-Tiles fuel file_size mmap dev offset size bar_idx maps enough =
    let (cs, e, tiles) =
      copy_loop-Tiles fuel mmap (u64 (bar_addr dev bar_idx + offset)) (min file_size size) 0 maps
        (omega arith) (omega arith) (inl refl) in
    (cs, ap copied e, tiles)
