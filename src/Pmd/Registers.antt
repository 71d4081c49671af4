-- ===== src/Pmd/Registers.antt =====
-- Registers of the user logic through the public interface: what is written is read back.
use xdma_dpdk.Base.{
  ℕ, ◌+◌, ◌≡◌, refl, ap, sym, ◌∙◌, some, ◌∷◌, arith, get_elem?, ◌==◌, if◌then◌else◌, u64, u32, true,
  false, Bool-cases, inl, inr,
}
use xdma_dpdk.Base.Int.{pos}
use xdma_dpdk.Platform.{Bus, bar_addr, store, last_store, xdma_user_write, xdma_user_read, memory}
use xdma_dpdk.Pmd.{Slot, Slots, rte_user_write, rte_user_read}

-- The address that a register of a port's user BAR has on the bus.
abbrev pub user_addr : Slot → ℕ → ℕ
user_addr slot reg = let dev = slot.eth.port.dev in u64 (bar_addr dev dev.user_bar_idx + reg)

pub user_read_as :
    (device : ℕ → ℕ) (slots : Slots) (p : ℕ) (slot : Slot) (reg : ℕ)
    → get_elem? slots p ≡ some slot
    → rte_user_read device slots p reg ≡ some (u32 (device (user_addr slot reg)))
unfolding rte_user_read xdma_user_read
user_read_as device slots p slot reg here = rw (rte_user_read, here) refl

pub u32_again : (n : ℕ) → u32 (u32 n) ≡ u32 n
u32_again n = omega arith

-- If the device's registers behave as memory, then after `rte_user_write` returns 0 a
-- `rte_user_read` of any register gives the value that was written, as 32 bits, if the register is at
-- the same address modulo 2 ^ 64, and otherwise what it gave before. This holds for any two ports,
-- so that ports whose user BARs are apart do not change each other's registers.
pub rte_user_read-rte_user_write :
    (base : ℕ → ℕ) (slots : Slots) (p p' : ℕ) (slot slot' : Slot) (reg reg' val : ℕ) (bus : Bus)
    → get_elem? slots p ≡ some slot
    → get_elem? slots p' ≡ some slot'
    → (bus' : Bus) × (rte_user_write slots p reg val bus ≡ some (pos 0, bus'))
      × (rte_user_read (memory base bus') slots p' reg' ≡ (
          if user_addr slot reg == user_addr slot' reg'
          then some (u32 val)
          else rte_user_read (memory base bus) slots p' reg'))
unfolding rte_user_write rte_user_read xdma_user_write xdma_user_read
rte_user_read-rte_user_write base slots p p' slot slot' reg reg' val bus here there = (
  written,
  rw (rte_user_write, here) refl,
  elim (Bool-cases (user_addr slot reg == user_addr slot' reg')) [
    | inl e ↦ rw e (user_read_as (memory base written) slots p' slot' reg' there ∙ at_it e)
    | inr e ↦ rw e (
        user_read_as (memory base written) slots p' slot' reg' there
        ∙ (apart e ∙ sym (user_read_as (memory base bus) slots p' slot' reg' there)))
  ],
)
  where
    written : Bus
    written = store (user_addr slot reg) (u32 val) ∷ bus

    at_it :
        (user_addr slot reg == user_addr slot' reg') ≡ true
        → some (u32 (memory base written (user_addr slot' reg'))) ≡ some (u32 val)
    at_it e = rw (memory, last_store, e) (ap some (u32_again val))

    apart :
        (user_addr slot reg == user_addr slot' reg') ≡ false
        → some (u32 (memory base written (user_addr slot' reg')))
          ≡ some (u32 (memory base bus (user_addr slot' reg')))
    apart e = rw (memory, last_store, e) refl
