-- ===== src/Rx/Poll.antt =====
-- What the bounded wait of `xdma_recv_pkts` finds.
use mathlib.Core.Path.{subst}
use xdma_dpdk.Base.{
  ℕ, zero, suc, ◌+◌, ◌*◌, ◌<◌, ◌≡◌, ◌≢◌, refl, Bool, true, not, ◌&&◌, some, ◌==◌, arith, Bool-cases,
  inl, inr, u32,
}
use xdma_dpdk.Rx.{poll_count}

-- The two reads from the t-th on agree on a count other than `used`.
pub record Fresh (loads : ℕ → ℕ) (used t old : ℕ) : Type 0 where
  pub first : u32 (loads t) ≡ old
  pub second : u32 (loads (t + 1)) ≡ old
  pub new : old ≢ u32 used

abbrev test : (ℕ → ℕ) → ℕ → ℕ → Bool
test loads used t = (u32 (loads t) == u32 (loads (t + 1))) && not (u32 (loads t) == u32 used)

test-holds :
    (loads : ℕ → ℕ) (used t : ℕ) → test loads used t ≡ true → Fresh loads used t (u32 (loads t))
test-holds loads used t e = record { first = refl; second = ground arith; new = ground arith }

test-Fresh : (loads : ℕ → ℕ) (used t old : ℕ) → Fresh loads used t old → test loads used t ≡ true
test-Fresh loads used t old f = ground (arith, f.first, f.second, f.new)

-- A count that the wait finds was read twice in a row, in one of its rounds, and is new.
pub poll_count-Fresh :
    (rounds : ℕ) (loads : ℕ → ℕ) (used t old : ℕ)
    → poll_count rounds loads used t ≡ some old
    → (r : ℕ) × (r < rounds) × Fresh loads used (t + 2 * r) old
unfolding poll_count
poll_count-Fresh zero loads used t old e = cc
poll_count-Fresh (suc rounds) loads used t old e = elim (Bool-cases (test loads used t)) [
  | inl now ↦
      let found : some (u32 (loads t)) ≡ some old = rw now at e in
      let same : u32 (loads t) ≡ old = cc found in
      let here : t ≡ t + 2 * 0 = omega arith in
      (
        0,
        omega arith,
        subst (λ j. Fresh loads used j old) here
            (subst (Fresh loads used t) same (test-holds loads used t now)),
      )
  | inr later ↦
      let (r, h, f) = poll_count-Fresh rounds loads used (t + 2) old (rw later at e) in
      let there : t + 2 + 2 * r ≡ t + 2 * suc r = omega arith in
      (suc r, omega arith, subst (λ j. Fresh loads used j old) there f)
]

-- If some round reads a new count twice, the wait finds a count.
pub poll_count-finds :
    (rounds : ℕ) (loads : ℕ → ℕ) (used t r old : ℕ)
    → r < rounds
    → Fresh loads used (t + 2 * r) old
    → (o : ℕ) × (poll_count rounds loads used t ≡ some o)
unfolding poll_count
poll_count-finds zero loads used t r old h f = absurd (omega arith)
poll_count-finds (suc rounds) loads used t zero old h f =
    let here : t + 2 * 0 ≡ t = omega arith in
    (u32 (loads t), rw (test-Fresh loads used t old (subst (λ j. Fresh loads used j old) here f)))
poll_count-finds (suc rounds) loads used t (suc r) old h f = elim (Bool-cases (test loads used t)) [
  | inl now ↦ (u32 (loads t), rw now)
  | inr later ↦
      let there : t + 2 * suc r ≡ t + 2 + 2 * r = omega arith in
      let (o, e) =
        poll_count-finds rounds loads used (t + 2) r old (omega arith)
          (subst (λ j. Fresh loads used j old) there f) in
      (o, rw later e)
]
