-- ===== src/Bars/Identify.antt =====
-- What `xdma_identify_bars` chooses.
use xdma_dpdk.Base.{
  ℕ, zero, suc, ◌+◌, ◌<◌, ◌≤◌, ◌≡◌, ◌≢◌, refl, ap, sym, subst, ◌∙◌, ◌⊎◌, inl, inr, Bool, true,
  false, not, ◌&&◌, Option, none, some, List, get_or, arith, ◌==◌, if◌then◌else◌, Bool-cases,
  ==_iff,
}
use xdma_dpdk.Base.Int.{ℤ, pos, negsuc, eqb_ℤ}
use native.Mathlib.Decide.{ℕ_discrete}
use xdma_dpdk.Xdma.{XdmaDev, xdma_bar_num}
use xdma_dpdk.Bars.{
  Resource, no_resource, resource, find_user_bar, xdma_get_user_bar, choose_user_bar,
  find_bypass_bar, xdma_identify_bars,
}

-- A BAR is disabled if it has no length.
abbrev pub len_of : List Resource → ℕ → ℕ
len_of mem i = (get_or mem i no_resource).len

-- A BAR that is left for the bypass: enabled, and neither of the others.
abbrev pub IsSpare : List Resource → ℤ → ℤ → ℕ → Type 0
IsSpare mem user config i = (len_of mem i ≢ 0) × (user ≢ pos i) × (config ≢ pos i)

-- BAR 0 if it is enabled, else BAR 1 if that is, else BAR 2.
abbrev pub user_choice : List Resource → ℤ
user_choice mem = if len_of mem 0 == 0 then (if len_of mem 1 == 0 then pos 2 else pos 1) else pos 0

choose_user_bar_lem :
    (mem : List Resource) → choose_user_bar mem (xdma_get_user_bar true true) ≡ user_choice mem
unfolding choose_user_bar xdma_get_user_bar find_user_bar
choose_user_bar_lem mem = refl

pos_inj : {m i : ℕ} → pos m ≡ pos i → m ≡ i
pos_inj p = cc p

pub eqb_ℤ_iff : (z : ℤ) (i : ℕ) → (eqb_ℤ z i ≡ true → z ≡ pos i) × (eqb_ℤ z i ≡ false → z ≢ pos i)
eqb_ℤ_iff (pos m) i = (λ e. ap pos ((==_iff m i).0 e), λ e p. ground (arith, pos_inj p))
eqb_ℤ_iff (negsuc m) i = (λ e. cc e, λ e p. cc p)

-- The test of the loop.
abbrev spare : List Resource → ℤ → ℤ → ℕ → Bool
spare mem user config i = not (len_of mem i == 0) && (not (eqb_ℤ user i) && not (eqb_ℤ config i))

spare_lem :
    (mem : List Resource) (user config : ℤ) (i : ℕ)
    → (spare mem user config i ≡ true → IsSpare mem user config i)
      × (spare mem user config i ≡ false → ¬ (IsSpare mem user config i))
spare_lem mem user config i = elim (Bool-cases (len_of mem i == 0)) [
  | inl off ↦ (λ e. cc (rw off at e), λ e s. s.0 ((==_iff (len_of mem i) 0).0 off))
  | inr on ↦ elim (Bool-cases (eqb_ℤ user i)) [
    | inl u ↦ (λ e. cc (rw (on, u) at e), λ e s. s.1 ((eqb_ℤ_iff user i).0 u))
    | inr u ↦ elim (Bool-cases (eqb_ℤ config i)) [
      | inl c ↦ (λ e. cc (rw (on, u, c) at e), λ e s. s.2 ((eqb_ℤ_iff config i).0 c))
      | inr c ↦ (
        λ e. (ground (arith, on), (eqb_ℤ_iff user i).1 u, (eqb_ℤ_iff config i).1 c),
        λ e. cc (rw (on, u, c) at e),
      )
    ]
  ]
]

find_step :
    (left i : ℕ) (mem : List Resource) (user config : ℤ)
    → find_bypass_bar (suc left) i mem user config
      ≡ (if spare mem user config i then some i else find_bypass_bar left (i + 1) mem user config)
unfolding find_bypass_bar
find_step left i mem user config = elim (Bool-cases (len_of mem i == 0)) [
  | inl off ↦ rw off refl
  | inr on ↦ rw on refl
]

-- The loop finds the lowest spare BAR of its range, if there is one.
pub find_bypass_bar_lem :
    (left i : ℕ) (mem : List Resource) (user config : ℤ)
    → ((k : ℕ) × (find_bypass_bar left i mem user config ≡ some k)
        × (i ≤ k)
        × (k < i + left)
        × IsSpare mem user config k
        × ((j : ℕ) → i ≤ j → j < k → ¬ (IsSpare mem user config j)))
      ⊎ ((find_bypass_bar left i mem user config ≡ none)
          × ((j : ℕ) → i ≤ j → j < i + left → ¬ (IsSpare mem user config j)))
unfolding find_bypass_bar
find_bypass_bar_lem zero i mem user config = inr (refl, λ j p q. absurd (omega arith))
find_bypass_bar_lem (suc left) i mem user config = elim (Bool-cases (spare mem user config i)) [
  | inl now ↦ inl (
    i,
    find_step left i mem user config ∙ rw now refl,
    omega arith,
    omega arith,
    (spare_lem mem user config i).0 now,
    λ j p q. absurd (omega arith),
  )
  | inr later ↦
      let here : ¬ (IsSpare mem user config i) = (spare_lem mem user config i).1 later in
      let step : find_bypass_bar (suc left) i mem user config
          ≡ find_bypass_bar left (i + 1) mem user config =
        find_step left i mem user config ∙ rw later refl in
      elim (find_bypass_bar_lem left (i + 1) mem user config) [
        | inl (k, e, lo, hi, s, below) ↦ inl (
          k,
          step ∙ e,
          omega arith,
          omega arith,
          s,
          λ j p q. from_here j here p (λ r. below j r q),
        )
        | inr (e, never) ↦
            inr (step ∙ e, λ j p q. from_here j here p (λ r. never j r (omega arith)))
      ]
]
  where
    from_here :
        (j : ℕ)
        → ¬ (IsSpare mem user config i)
        → i ≤ j
        → (i + 1 ≤ j → ¬ (IsSpare mem user config j))
        → ¬ (IsSpare mem user config j)
    from_here j here p later = elim (ℕ_discrete i j) [
      | yes e ↦ subst (λ k. ¬ (IsSpare mem user config k)) e here
      | no ne ↦ later (omega arith)
    ]

-- `xdma_identify_bars` fails exactly if the configuration BAR is disabled, and then changes nothing.
-- Otherwise the user BAR is BAR 0 if that is enabled, else BAR 1 if that is, else BAR 2; and the
-- bypass BAR is the lowest enabled BAR that is neither of the other two, or stays if there is none.
-- The configuration BAR and the addresses of the BARs stay.
pub xdma_identify_bars_lem :
    (mem : List Resource) (dev : XdmaDev)
    → let (r, dev') = xdma_identify_bars mem dev in
      let Spare = IsSpare mem (user_choice mem) dev.config_bar_idx in
      ((resource mem dev.config_bar_idx).len ≡ 0) × (r ≡ negsuc 0) × (dev' ≡ dev)
      ⊎ ((r ≡ pos 0)
          × ((resource mem dev.config_bar_idx).len ≢ 0)
          × (dev'.config_bar_idx ≡ dev.config_bar_idx)
          × (dev'.bar ≡ dev.bar)
          × (dev'.user_bar_idx ≡ user_choice mem)
          × (((k : ℕ) × (dev'.bypass_bar_idx ≡ pos k)
                × (k < xdma_bar_num)
                × Spare k
                × ((j : ℕ) → j < k → ¬ (Spare j)))
              ⊎ ((dev'.bypass_bar_idx ≡ dev.bypass_bar_idx)
                  × ((j : ℕ) → j < xdma_bar_num → ¬ (Spare j)))))
unfolding xdma_identify_bars
xdma_identify_bars_lem mem dev = elim (Bool-cases ((resource mem dev.config_bar_idx).len == 0)) [
  | inl off ↦ inl ((==_iff _ _).0 off, rw off refl, rw off refl)
  | inr on ↦ inr (rw on (chosen (ground (arith, on))))
]
  where
    with_bars : ℤ → Option ℕ → XdmaDev
    with_bars user found = elim found [
      | none ↦ record dev { user_bar_idx = user }
      | some i ↦ record dev { user_bar_idx = user; bypass_bar_idx = pos i }
    ]

    search_from : ℤ → Option ℕ
    search_from user = find_bypass_bar xdma_bar_num 0 mem user dev.config_bar_idx

    Chosen : XdmaDev → Type 0
    Chosen dev' =
        let Spare = IsSpare mem (user_choice mem) dev.config_bar_idx in
        (pos 0 ≡ pos 0)
        × ((resource mem dev.config_bar_idx).len ≢ 0)
        × (dev'.config_bar_idx ≡ dev.config_bar_idx)
        × (dev'.bar ≡ dev.bar)
        × (dev'.user_bar_idx ≡ user_choice mem)
        × (((k : ℕ) × (dev'.bypass_bar_idx ≡ pos k)
              × (k < xdma_bar_num)
              × Spare k
              × ((j : ℕ) → j < k → ¬ (Spare j)))
            ⊎ ((dev'.bypass_bar_idx ≡ dev.bypass_bar_idx)
                × ((j : ℕ) → j < xdma_bar_num → ¬ (Spare j))))

    chosen :
        (resource mem dev.config_bar_idx).len ≢ 0
        → let user = choose_user_bar mem (xdma_get_user_bar true true) in
          Chosen (with_bars user (search_from user))
    chosen on =
        subst (λ u. Chosen (with_bars u (search_from u))) (sym (choose_user_bar_lem mem))
          (elim (find_bypass_bar_lem xdma_bar_num 0 mem (user_choice mem) dev.config_bar_idx) [
            | inl (k, e, lo, hi, s, below) ↦
                subst (λ f. Chosen (with_bars (user_choice mem) f)) (sym e)
                  (refl, on, refl, refl, refl, inl (k, refl, hi, s, λ j p. below j (omega arith) p))
            | inr (e, never) ↦
                subst (λ f. Chosen (with_bars (user_choice mem) f)) (sym e)
                  (refl, on, refl, refl, refl, inr (refl, λ j p. never j (omega arith) p))
          ])

-- If BAR 0 is disabled and the configuration BAR is BAR 1, as by default, and enabled, then
-- `xdma_identify_bars` succeeds with the user BAR equal to the configuration BAR: accesses to user
-- registers then reach the registers of the DMA engines.
pub xdma_identify_bars_same :
    (mem : List Resource) (dev : XdmaDev)
    → dev.config_bar_idx ≡ pos 1
    → len_of mem 0 ≡ 0
    → len_of mem 1 ≢ 0
    → let (r, dev') = xdma_identify_bars mem dev in
      (r ≡ pos 0) × (dev'.user_bar_idx ≡ pos 1) × (dev'.config_bar_idx ≡ pos 1)
xdma_identify_bars_same mem dev config off on = elim (xdma_identify_bars_lem mem dev) [
  | inl (closed, _, _) ↦ absurd (on (subst (λ z. (resource mem z).len ≡ 0) config closed))
  | inr (ok, _, kept, _, user, _) ↦ (ok, user ∙ ground (arith, off, on), kept ∙ config)
]
