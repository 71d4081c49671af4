-- ===== src/Walk.antt =====
-- The chain of descriptors as a device reads it from memory: from the ring's physical address on,
-- it follows the links until it meets a descriptor that stops it. Drivers write the chain with
-- drivers/net/xdma/xdma_access_common.c and xdma_rxtx.c; the device itself is not modelled further.
pub mod Send
pub mod Sent
pub mod Receive
pub mod Received
use xdma_dpdk.Base.{
  ℕ, zero, suc, ◌+◌, ◌-◌, ◌^◌, ◌%◌, ◌<◌, ◌≡◌, ap, ap₂, sym, subst, ◌∙◌, refl, Bool, true, false,
  List, [], ◌∷◌, ◌++◌, map, length, get_or, ◌==◌, if◌then◌else◌, arith, u64, ltb,
}
use xdma_dpdk.Xdma.{Desc, Queue, xdma_desc_max}
use xdma_dpdk.Ring.{desc_at, desc_addr}
use xdma_dpdk.Engine.Idle.{stops}
use xdma_dpdk.Ring.Chain.{IsChained, link}

-- The descriptors that are read from address `a` on, at most `fuel` of them; `ram` is what memory
-- holds at a physical address.
unfoldable pub walk : (ram : ℕ → Desc) → (fuel : ℕ) → ℕ → List Desc
walk ram zero a = []
walk ram (suc fuel) a =
    let d = ram a in let rest = walk ram fuel (link d) in if stops d then d ∷ [] else d ∷ rest

-- Memory holds the descriptors of a queue at the physical addresses that DPDK gives for them.
abbrev pub InRam : (v : ℕ → ℕ) → (ram : ℕ → Desc) → Queue → Type 0
InRam v ram q = (i : ℕ) → i < xdma_desc_max → ram (u64 (v (desc_addr q i))) ≡ desc_at q i

-- The distance of the software ring's physical address from its virtual one.
abbrev pub sw_ring_offset : (v : ℕ → ℕ) → Queue → ℕ
sw_ring_offset v q = u64 (v q.engine.sw_ring + 2 ^ 64 - q.engine.sw_ring)

-- The engine's offset is that of its software ring.
abbrev pub OffsetOf : (v : ℕ → ℕ) → Queue → Type 0
OffsetOf v q = q.engine.virt2phy_offset ≡ sw_ring_offset v q

-- A view of the descriptors from the k-th on, none of which stops the device.
abbrev pub Shows : {A : Type 0} → (Desc → A) → Queue → ℕ → A → List A → Type 0
Shows view q k default xs =
    (j : ℕ)
    → j < length xs
    → (view (desc_at q (k + j)) ≡ get_or xs j default) × (stops (desc_at q (k + j)) ≡ false)

walk-stop :
    (ram : ℕ → Desc) (fuel a : ℕ) (d : Desc)
    → ram a ≡ d
    → stops d ≡ true
    → walk ram (suc fuel) a ≡ d ∷ []
unfolding walk
walk-stop ram fuel a d e h = rw e (rw h refl)

walk-go :
    (ram : ℕ → Desc) (fuel a : ℕ) (d : Desc)
    → ram a ≡ d
    → stops d ≡ false
    → walk ram (suc fuel) a ≡ d ∷ walk ram fuel (link d)
unfolding walk
walk-go ram fuel a d e h = rw e (rw h refl)

module _ {A : Type 0} (view : Desc → A) (v : ℕ → ℕ) (ram : ℕ → Desc) (q : Queue)
    (chained : IsChained v q) (max : q.engine.desc_max ≡ xdma_desc_max) (in_ram : InRam v ram q)
    (default : A) where
  -- From the k-th descriptor on the device reads the descriptors that do not stop it, and the next.
  pub walk_lem :
      (fuel k : ℕ) (xs : List A)
      → length xs < fuel
      → k + length xs < xdma_desc_max
      → Shows view q k default xs
      → stops (desc_at q (k + length xs)) ≡ true
      → map view (walk ram fuel (u64 (v (desc_addr q k))))
        ≡ xs ++ (view (desc_at q (k + length xs)) ∷ [])
  walk_lem zero k xs h inside shows end = absurd (omega arith)
  walk_lem (suc fuel) k [] h inside shows end =
      let at : desc_at q (k + 0) ≡ desc_at q k = ap (desc_at q) (omega arith) in
      ap (map view) (walk-stop ram fuel _ (desc_at q (k + 0)) (in_ram k (omega arith) ∙ sym at) end)
  walk_lem (suc fuel) k (x ∷ xs) h inside shows end =
      let at : desc_at q (k + 0) ≡ desc_at q k = ap (desc_at q) (omega arith) in
      let next : (j : ℕ) → desc_at q (k + suc j) ≡ desc_at q (k + 1 + j) =
        λ j. ap (desc_at q) (omega arith) in
      let linked : link (desc_at q k) ≡ u64 (v (desc_addr q (k + 1))) =
        ground (arith, chained.links k, max) in
      ap (map view) (
        walk-go ram fuel _ (desc_at q k) (in_ram k (omega arith))
          (ap stops (sym at) ∙ (shows 0 (omega arith)).1))
      ∙ ap₂ ◌∷◌ (ap view (sym at) ∙ (shows 0 (omega arith)).0) (
          ap (λ a. map view (walk ram fuel a)) linked
          ∙ (walk_lem fuel (k + 1) xs (omega arith) (omega arith)
                (λ j p. (
                  ap view (sym (next j)) ∙ (shows (suc j) (omega arith)).0,
                  ap stops (sym (next j)) ∙ (shows (suc j) (omega arith)).1,
                ))
                (ap stops (sym (next (length xs))) ∙ end)
              ∙ ap (λ d. xs ++ (view d ∷ [])) (sym (next (length xs)))))
