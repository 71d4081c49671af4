-- ===== src/Ethdev/Mapped.antt =====
-- Storing the addresses of BARs, as `xdma_eth_dev_init` does.
use xdma_dpdk.Base.{
  ℕ, ◌<◌, ◌≡◌, refl, ap, sym, subst, ◌∙◌, inl, inr, List, length, get_or, get_or-modify,
  length-modify, arith, ◌==◌, Bool-cases, ==_iff,
}
use xdma_dpdk.Base.Int.{ℤ, pos, negsuc}
use xdma_dpdk.Xdma.{XdmaDev}
use xdma_dpdk.Platform.{bar_addr}
use xdma_dpdk.Bars.{Resource, resource}
use xdma_dpdk.Bars.Args.{IsBar}
use xdma_dpdk.Ethdev.{set_bar, store_bar}

-- The driver's address of a BAR is that of the PCI device; an index that is not set has none.
abbrev pub IsBarAddr : List Resource → XdmaDev → ℤ → Type 0
IsBarAddr mem dev idx = bar_addr dev idx ≡ (resource mem idx).addr

-- An index of the array of addresses, or none.
abbrev pub Fits : XdmaDev → ℤ → Type 0
Fits dev (pos i) = i < length dev.bar
Fits dev (negsuc i) = Unit {0}

pub set_here :
    (mem : List Resource) (dev : XdmaDev) (idx : ℤ)
    → Fits dev idx
    → IsBarAddr mem (set_bar idx (resource mem idx).addr dev) idx
set_here mem dev (pos i) fits =
    get_or-modify dev.bar i i (λ _. (resource mem (pos i)).addr) 0 fits ∙ ground arith
set_here mem dev (negsuc i) fits = refl

pub set_keeps :
    (mem : List Resource) (dev : XdmaDev) (idx idx' : ℤ)
    → Fits dev idx
    → IsBarAddr mem dev idx'
    → IsBarAddr mem (set_bar idx (resource mem idx).addr dev) idx'
set_keeps mem dev (pos i) (pos j) fits e =
    get_or-modify dev.bar i j (λ _. (resource mem (pos i)).addr) 0 fits
    ∙ (elim (Bool-cases (i == j)) [
      | inl same ↦ rw same (ap (λ k. (resource mem (pos k)).addr) ((==_iff i j).0 same))
      | inr other ↦ rw other e
    ])
set_keeps mem dev (pos i) (negsuc j) fits e = e
set_keeps mem dev (negsuc i) idx' fits e = e

pub set_Fits :
    (idx idx' : ℤ) (addr : ℕ) (dev : XdmaDev) → Fits dev idx' → Fits (set_bar idx addr dev) idx'
set_Fits (pos i) (pos j) addr dev fits = omega (arith, length-modify dev.bar i (λ _. addr))
set_Fits (pos i) (negsuc j) addr dev fits = tt
set_Fits (negsuc i) idx' addr dev fits = fits

pub store_bar_lem :
    (mem : List Resource) (idx : ℤ) (dev : XdmaDev)
    → store_bar mem idx dev ≡ set_bar idx (resource mem idx).addr dev
store_bar_lem mem (pos i) dev = refl
store_bar_lem mem (negsuc i) dev = refl

pub set_bar_idx :
    (idx : ℤ) (addr : ℕ) (dev : XdmaDev)
    → ((set_bar idx addr dev).bypass_bar_idx ≡ dev.bypass_bar_idx)
      × ((set_bar idx addr dev).config_bar_idx ≡ dev.config_bar_idx)
      × (length (set_bar idx addr dev).bar ≡ length dev.bar)
set_bar_idx (pos i) addr dev = (refl, refl, length-modify dev.bar i (λ _. addr))
set_bar_idx (negsuc i) addr dev = (refl, refl, refl)

-- The addresses of both BARs that are stored last are those of the PCI device, and so is each that was.
pub store_two :
    (mem : List Resource) (dev : XdmaDev) (a b c : ℤ)
    → Fits dev a
    → Fits dev b
    → IsBarAddr mem dev c
    → let dev' = store_bar mem b (store_bar mem a dev) in
      IsBarAddr mem dev' a × IsBarAddr mem dev' b × IsBarAddr mem dev' c
store_two mem dev a b c fa fb e = rw (store_bar_lem mem a dev) (
    rw (store_bar_lem mem b (set_bar a (resource mem a).addr dev)) (
      set_keeps mem (set_bar a (resource mem a).addr dev) b a (set_Fits a b _ dev fb)
          (set_here mem dev a fa),
      set_here mem (set_bar a (resource mem a).addr dev) b (set_Fits a b _ dev fb),
      set_keeps mem (set_bar a (resource mem a).addr dev) b c (set_Fits a b _ dev fb)
          (set_keeps mem dev a c fa e),
    ))

pub store_bar_idx :
    (mem : List Resource) (a : ℤ) (dev : XdmaDev)
    → ((store_bar mem a dev).bypass_bar_idx ≡ dev.bypass_bar_idx)
      × ((store_bar mem a dev).config_bar_idx ≡ dev.config_bar_idx)
      × ((store_bar mem a dev).user_bar_idx ≡ dev.user_bar_idx)
store_bar_idx mem (pos i) dev = (refl, refl, refl)
store_bar_idx mem (negsuc i) dev = (refl, refl, refl)

pub same_bars :
    (mem : List Resource) (dev dev' : XdmaDev) (idx idx' : ℤ)
    → dev'.bar ≡ dev.bar
    → idx' ≡ idx
    → IsBarAddr mem dev idx
    → IsBarAddr mem dev' idx'
same_bars mem dev dev' (pos i) idx' bars e m =
    subst (IsBarAddr mem dev') (sym e) (ap (λ b. get_or b i 0) bars ∙ m)
same_bars mem dev dev' (negsuc i) idx' bars e m = subst (IsBarAddr mem dev') (sym e) m

pub IsBar-Fits : (dev : XdmaDev) (idx : ℤ) → length dev.bar ≡ 6 → IsBar idx → Fits dev idx
IsBar-Fits dev (pos i) size inside = omega (arith, size)
IsBar-Fits dev (negsuc i) size inside = tt
