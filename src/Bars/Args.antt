-- ===== src/Bars/Args.antt =====
-- The index that the device arguments choose for the configuration BAR.
use xdma_dpdk.Base.{
  ◌<◌, ◌≡◌, refl, ap, subst, ◌∙◌, false, ◌||◌, Option, none, some, arith, ◌==◌, if◌then◌else◌,
  Bool-cases, inl, inr,
}
use xdma_dpdk.Base.Int.{ℤ, pos, negsuc, to_int, is_neg}
use xdma_dpdk.Xdma.{XdmaDev, xdma_bar_num}
use xdma_dpdk.Bars.{KvArgs, geb_ℤ, config_bar_idx_handler, xdma_check_kvargs}

-- An index of one of the six BARs.
abbrev pub IsBar : ℤ → Type 0
IsBar (pos n) = n < xdma_bar_num
IsBar (negsuc n) = ⊥

-- `rte_kvargs_process` calls the handler for the pairs with the key and stops at the first call that
-- returns a negative number: if it succeeds and there is such a pair, what it leaves is what a last
-- call of the handler left, which did not return a negative number.
abbrev pub StopsAtFailure : KvArgs → Type 0
StopsAtFailure kv =
    (l : kv.KvList) (h : kv.Str → XdmaDev → ℤ × XdmaDev) (dev : XdmaDev)
    → 0 < kv.count l
    → (kv.process l h dev).0 ≡ pos 0
    → (s : kv.Str) × (before : XdmaDev) × (r : ℤ) × (h s before ≡ (r, (kv.process l h dev).1))
      × (is_neg r ≡ false)

geb_ℤ-IsBar : (z : ℤ) → (geb_ℤ z xdma_bar_num || is_neg z) ≡ false → IsBar z
geb_ℤ-IsBar (pos n) h = ground (arith, h)
geb_ℤ-IsBar (negsuc n) h = cc h

handler-IsBar :
    (kv : KvArgs) (s : kv.Str) (dev dev' : XdmaDev) (r : ℤ)
    → config_bar_idx_handler kv s dev ≡ (r, dev')
    → is_neg r ≡ false
    → IsBar dev'.config_bar_idx
unfolding config_bar_idx_handler
handler-IsBar kv s dev dev' r e fine = elim (Bool-cases (geb_ℤ idx xdma_bar_num || is_neg idx)) [
  | inl bad ↦
      let failed : negsuc 0 ≡ r = ap (λ r. r.0) (rw bad at e) in
      let refused : is_neg (negsuc 0) ≡ false = ap is_neg failed ∙ fine in absurd (cc refused)
  | inr good ↦
      let same : idx ≡ dev'.config_bar_idx = ap (λ r. r.1.config_bar_idx) (rw good at e) in
      subst IsBar same (geb_ℤ-IsBar idx good)
]
  where
    idx : ℤ
    idx = to_int (kv.strtoul s)

-- If `xdma_check_kvargs` succeeds, the index of the configuration BAR is one of the six, whatever
-- the arguments say, if it was one before, and if `rte_kvargs_process` stops at the first negative
-- result of its handler, as documented.
pub xdma_check_kvargs-IsBar :
    (kv : KvArgs) (args : Option kv.Args) (dev : XdmaDev)
    → StopsAtFailure kv
    → IsBar dev.config_bar_idx
    → (xdma_check_kvargs kv args dev).0 ≡ pos 0
    → IsBar (xdma_check_kvargs kv args dev).1.config_bar_idx
unfolding xdma_check_kvargs config_bar_idx_handler
xdma_check_kvargs-IsBar kv none dev stops bar ok = bar
xdma_check_kvargs-IsBar kv (some args) dev stops bar ok = go (kv.parse args) ok
  where
    result : Option kv.KvList → ℤ × XdmaDev
    result parsed = elim parsed [
      | none ↦ (pos 0, dev)
      | some kvlist ↦
          if kv.count kvlist == 0
          then (pos 0, dev)
          else kv.process kvlist (config_bar_idx_handler kv) dev
    ]

    go :
        (parsed : Option kv.KvList)
        → (result parsed).0 ≡ pos 0
        → IsBar (result parsed).1.config_bar_idx
    go none ok = bar
    go (some l) ok = elim (Bool-cases (kv.count l == 0)) [
      | inl empty ↦ rw empty bar
      | inr full ↦
          let ok' : (kv.process l (config_bar_idx_handler kv) dev).0 ≡ pos 0 = rw full at ok in
          let (s, before, r, e, fine) =
            stops l (config_bar_idx_handler kv) dev (ground (arith, full)) ok' in
          rw full
            (handler-IsBar kv s before (kv.process l (config_bar_idx_handler kv) dev).1 r e fine)
    ]

-- `rte_kvargs_process` changes the device through the handler alone.
abbrev pub OnlyCalls : KvArgs → Type 1
OnlyCalls kv =
    (l : kv.KvList) (h : kv.Str → XdmaDev → ℤ × XdmaDev) (dev : XdmaDev) (P : XdmaDev → Type 0)
    → P dev
    → ((s : kv.Str) (d : XdmaDev) → P d → P (h s d).1)
    → P (kv.process l h dev).1

-- What the device arguments leave alone.
abbrev pub KeepsBars : XdmaDev → XdmaDev → Type 0
KeepsBars dev dev' = (dev'.bar ≡ dev.bar) × (dev'.bypass_bar_idx ≡ dev.bypass_bar_idx)

pub xdma_check_kvargs-KeepsBars :
    (kv : KvArgs) (args : Option kv.Args) (dev : XdmaDev)
    → OnlyCalls kv
    → KeepsBars dev (xdma_check_kvargs kv args dev).1
unfolding xdma_check_kvargs config_bar_idx_handler
xdma_check_kvargs-KeepsBars kv none dev calls = (refl, refl)
xdma_check_kvargs-KeepsBars kv (some args) dev calls = go (kv.parse args)
  where
    result : Option kv.KvList → ℤ × XdmaDev
    result parsed = elim parsed [
      | none ↦ (pos 0, dev)
      | some kvlist ↦
          if kv.count kvlist == 0
          then (pos 0, dev)
          else kv.process kvlist (config_bar_idx_handler kv) dev
    ]

    handler_keeps :
        (s : kv.Str) (d : XdmaDev)
        → KeepsBars dev d
        → KeepsBars dev (config_bar_idx_handler kv s d).1
    handler_keeps s d k =
        let idx = to_int (kv.strtoul s) in
        elim (Bool-cases (geb_ℤ idx xdma_bar_num || is_neg idx)) [
          | inl bad ↦ rw bad k
          | inr good ↦ rw good k
        ]

    go : (parsed : Option kv.KvList) → KeepsBars dev (result parsed).1
    go none = (refl, refl)
    go (some l) = elim (Bool-cases (kv.count l == 0)) [
      | inl empty ↦ rw empty (refl, refl)
      | inr full ↦
          rw full
            (calls l (config_bar_idx_handler kv) dev (KeepsBars dev) (refl, refl) handler_keeps)
    ]
