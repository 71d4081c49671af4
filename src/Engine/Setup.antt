-- ===== src/Engine/Setup.antt =====
-- The engine that set-up returns.
use xdma_dpdk.Base.{
  ℕ, ◌+◌, ◌*◌, ◌%◌, ◌^◌, ◌<◌, ◌≤◌, ◌≡◌, refl, ◌⊎◌, inl, inr, Bool, true, false, Option, none, some,
  length, arith, ◌==◌, if◌then◌else◌, Bool-cases,
}
use xdma_dpdk.Xdma.{Direction, c2h, h2c, Queue, xdma_desc_max}
use xdma_dpdk.Ring.{desc_at, desc_control_idle, desc_control_last, xdma_desc_ring_init}
use xdma_dpdk.Ring.Chain.{IsChained, AllBlank, xdma_desc_ring_init-IsChained}
use xdma_dpdk.Engine.{
  Zone, tx_zone_size, rx_zone_size, sizeof_pointer, setup_engine, setup_queue, xdma_tx_engine_setup,
  xdma_rx_engine_setup,
}
use xdma_dpdk.Engine.Idle.{IsIdle, AllFree, FrontIdle, StopsAtEnd}

-- Every zone that is reserved has room for the descriptors, and fits the address space.
abbrev pub GivesRoom : (ℕ → Option Zone) → Type 0
GivesRoom reserve =
    (size : ℕ) (zone : Zone)
    → reserve size ≡ some zone
    → (length zone.descs ≡ xdma_desc_max) × (zone.addr + size < 2 ^ 64)

-- The completion count lies in the zone behind the descriptors, which starts at `desc_ring`.
abbrev pub WbInZone : ℕ → Queue → Type 0
WbInZone size q =
    (q.engine.desc_ring + q.engine.desc_max * 32 ≤ q.engine.poll_mode_addr_virt)
    × (q.engine.poll_mode_addr_virt + 4 ≤ q.engine.desc_ring + size)

-- Both set-up functions after their allocations.
attempt : (Direction → ℕ → Zone → Queue) → Bool → Option Zone → Direction → ℕ → Option Queue
attempt build engine_mem zone dir ch = elim engine_mem [
  | false ↦ none
  | true ↦ elim zone [ none ↦ none | some z ↦ some (build dir ch z) ]
]

module _ (virt2phy : ℕ → ℕ) (engine_mem : Bool) (reserve : ℕ → Option Zone) (zmalloc : ℕ → ℕ) where
  built :
      (dir : Direction) (ch : ℕ) (zone : Zone)
      → length zone.descs ≡ xdma_desc_max
      → let q = setup_queue virt2phy engine_mem reserve zmalloc dir ch zone in
        IsChained virt2phy q
        × AllBlank q
        × ((i : ℕ)
            → i < 32
            → (desc_at q i).control
              ≡ (if i + 1 == 32 then desc_control_last else desc_control_idle))
  unfolding setup_queue
  built dir ch zone h =
      xdma_desc_ring_init-IsChained virt2phy
        (record {
          engine = setup_engine virt2phy dir ch zone (zmalloc (xdma_desc_max * sizeof_pointer));
          descs = zone.descs;
          completed_desc_count = zone.completed_desc_count;
        })
        h

  -- What set-up builds in a zone with room for the ring is idle, and its control words are free.
  pub setup_queue-IsIdle :
      (dir : Direction) (ch : ℕ) (zone : Zone)
      → length zone.descs ≡ xdma_desc_max
      → let q = setup_queue virt2phy engine_mem reserve zmalloc dir ch zone in
        IsIdle virt2phy dir q × AllFree q
  unfolding setup_queue xdma_desc_ring_init
  setup_queue-IsIdle dir ch zone h =
      let all = built dir ch zone h in
      (
        record {
          chained = all.0;
          blank = all.1;
          stopped = refl;
          unused = refl;
          max = refl;
          direction = refl;
          port = refl;
        },
        λ i p. ground (arith, all.2 i p),
      )

  -- Only the last descriptor gets the flag that ends the chain.
  pub setup_queue-FrontIdle :
      (dir : Direction) (ch : ℕ) (zone : Zone)
      → length zone.descs ≡ xdma_desc_max
      → FrontIdle (setup_queue virt2phy engine_mem reserve zmalloc dir ch zone)
  setup_queue-FrontIdle dir ch zone h i p = ground (arith, (built dir ch zone h).2 i (omega arith))

  -- So a device that gets the whole ring stops at its end.
  pub setup_queue-StopsAtEnd :
      (dir : Direction) (ch : ℕ) (zone : Zone)
      → length zone.descs ≡ xdma_desc_max
      → StopsAtEnd (setup_queue virt2phy engine_mem reserve zmalloc dir ch zone)
  setup_queue-StopsAtEnd dir ch zone h i p = elim (Bool-cases (i + 1 == 32)) [
    | inl e ↦ rw ((built dir ch zone h).2 i p, e) refl
    | inr e ↦ rw ((built dir ch zone h).2 i p, e) refl
  ]

  setup_cases :
      (dir : Direction) (ch size : ℕ)
      → tx_zone_size ≤ size
      → GivesRoom reserve
      → ((engine_mem ≡ false) ⊎ (reserve size ≡ none))
          × (attempt
                (setup_queue virt2phy engine_mem reserve zmalloc)
                engine_mem
                (reserve size)
                dir
                ch
              ≡ none)
        ⊎ ((q : Queue) × (attempt
                (setup_queue virt2phy engine_mem reserve zmalloc)
                engine_mem
                (reserve size)
                dir
                ch
              ≡ some q)
            × IsIdle virt2phy dir q
            × AllFree q
            × WbInZone size q
            × (q.engine.channel ≡ ch % 4))
  unfolding attempt
  setup_cases dir ch size big room = go engine_mem (reserve size) refl
    where
      go :
          (m : Bool) (z : Option Zone)
          → reserve size ≡ z
          → ((m ≡ false) ⊎ (z ≡ none))
              × (attempt (setup_queue virt2phy engine_mem reserve zmalloc) m z dir ch ≡ none)
            ⊎ ((q : Queue) × (attempt (setup_queue virt2phy engine_mem reserve zmalloc) m z dir ch
                  ≡ some q)
                × IsIdle virt2phy dir q
                × AllFree q
                × WbInZone size q
                × (q.engine.channel ≡ ch % 4))
      go false z e = inl (inl refl, refl)
      go true none e = inl (inr refl, refl)
      go true (some zone) e =
          let r = room size zone e in
          let idle = setup_queue-IsIdle dir ch zone r.0 in
          inr (
            _,
            refl,
            idle.0,
            idle.1,
            unfold setup_queue xdma_desc_ring_init in omega arith,
            unfold setup_queue xdma_desc_ring_init in refl,
          )

  -- If the allocators give memory with room for the ring, `xdma_tx_engine_setup` returns an idle
  -- transmit queue for the channel modulo 4, whose control words are free and whose completion
  -- count lies inside the zone. It dereferences NULL exactly if the engine or the zone is missing.
  pub xdma_tx_engine_setup_lem :
      (ch : ℕ)
      → GivesRoom reserve
      → ((engine_mem ≡ false) ⊎ (reserve tx_zone_size ≡ none))
          × (xdma_tx_engine_setup virt2phy engine_mem reserve zmalloc ch ≡ none)
        ⊎ ((q : Queue) × (xdma_tx_engine_setup virt2phy engine_mem reserve zmalloc ch ≡ some q)
            × IsIdle virt2phy h2c q
            × AllFree q
            × WbInZone tx_zone_size q
            × (q.engine.channel ≡ ch % 4))
  unfolding xdma_tx_engine_setup attempt
  xdma_tx_engine_setup_lem ch room = setup_cases h2c ch tx_zone_size (omega arith) room

  -- `xdma_rx_engine_setup` does the same for a receive queue, in a zone that is eight bytes larger.
  pub xdma_rx_engine_setup_lem :
      (ch : ℕ)
      → GivesRoom reserve
      → ((engine_mem ≡ false) ⊎ (reserve rx_zone_size ≡ none))
          × (xdma_rx_engine_setup virt2phy engine_mem reserve zmalloc ch ≡ none)
        ⊎ ((q : Queue) × (xdma_rx_engine_setup virt2phy engine_mem reserve zmalloc ch ≡ some q)
            × IsIdle virt2phy c2h q
            × AllFree q
            × WbInZone rx_zone_size q
            × (q.engine.channel ≡ ch % 4))
  unfolding xdma_rx_engine_setup attempt
  xdma_rx_engine_setup_lem ch room = setup_cases c2h ch rx_zone_size (omega arith) room
