-- ===== src/Fill.antt =====
-- Filling descriptors one after the other, as both bursts do: each takes the descriptor that
-- `get_desc` gives, and edits it.
use xdma_dpdk.Base.{
  ℕ, zero, suc, ◌+◌, ◌%◌, ◌^◌, ◌<◌, ◌≤◌, ◌≡◌, refl, ap, ◌∙◌, sym, ◌⊎◌, List, [], ◌∷◌, ◌++◌, length,
  get_or, get_or-modify, ◌==◌, if◌then◌else◌, arith,
}
use xdma_dpdk.Xdma.{Direction, Desc, Queue, xdma_desc_max}
use xdma_dpdk.Ring.{no_desc, desc_at}
use xdma_dpdk.Ring.Chain.{modify-IsChained, link}
use xdma_dpdk.Desc.{get_desc, edit}
use xdma_dpdk.Engine.Idle.{IsWhole}

abbrev pub advance : Queue → Queue
advance q =
    let engine = q.engine in
    record q {
      engine = record engine { desc_used = (q.engine.desc_used + 1) % 2 ^ 32 % engine.desc_max };
    }

-- `get_desc` hands out the next descriptor and advances.
pub get_desc_lem : (q : Queue) → get_desc q ≡ (q.engine.desc_used, advance q)
unfolding get_desc
get_desc_lem q = refl

-- A whole queue with its next descriptor inside the ring.
pub record IsLive (v : ℕ → ℕ) (dir : Direction) (q : Queue) : Type 0 where
  pub whole : IsWhole v dir q
  pub inside : q.engine.desc_used < xdma_desc_max

pub edit-IsWhole :
    (v : ℕ → ℕ) (dir : Direction) (q : Queue) (i : ℕ) (f : Desc → Desc)
    → i < xdma_desc_max
    → ((d : Desc) → link (f d) ≡ link d)
    → IsWhole v dir q
    → IsWhole v dir (edit q i f)
edit-IsWhole v dir q i f h same w = record {
  chained = modify-IsChained v q i f (omega (arith, w.max)) same w.chained;
  max = w.max;
  direction = w.direction;
  port = w.port;
}

advance-IsLive :
    (v : ℕ → ℕ) (dir : Direction) (q : Queue) → IsLive v dir q → IsLive v dir (advance q)
advance-IsLive v dir q l = record {
  whole = record {
    chained = record { size = l.whole.chained.size; links = l.whole.chained.links };
    max = l.whole.max;
    direction = l.whole.direction;
    port = l.whole.port;
  };
  inside = rw l.whole.max (omega arith);
}

-- `described m` is what the burst's item `m` makes of a descriptor; it leaves links alone.
module _ {M : Type 0} (described : M → Desc → Desc) where
  abbrev pub put : List M → Queue → Queue
  put [] q = q
  put (m ∷ ms) q = put ms (edit (advance q) q.engine.desc_used (described m))

  pub put-append : (xs ys : List M) (q : Queue) → put (xs ++ ys) q ≡ put ys (put xs q)
  put-append [] ys q = refl
  put-append (x ∷ xs) ys q = put-append xs ys _

  -- Of the engine only the next descriptor changes.
  pub engine-put :
      (ms : List M) (q : Queue)
      → (put ms q).engine
        ≡ (let e = q.engine in record e { desc_used = (put ms q).engine.desc_used })
  engine-put [] q = refl
  engine-put (m ∷ ms) q = engine-put ms (edit (advance q) q.engine.desc_used (described m))

module _ {M : Type 0} (described : M → Desc → Desc)
    (link_kept : (m : M) (d : Desc) → link (described m d) ≡ link d) (v : ℕ → ℕ)
    (dir : Direction) where
  pub put-IsLive : (ms : List M) (q : Queue) → IsLive v dir q → IsLive v dir (put described ms q)
  put-IsLive [] q l = l
  put-IsLive (m ∷ ms) q l =
      let a = advance-IsLive v dir q l in
      put-IsLive ms (edit (advance q) q.engine.desc_used (described m)) (record {
        whole =
            edit-IsWhole v dir (advance q) q.engine.desc_used (described m) l.inside (link_kept m)
              a.whole;
        inside = a.inside;
      })

  after : M → Queue → Queue
  after m q = edit (advance q) q.engine.desc_used (described m)

  after-IsLive : (m : M) (q : Queue) → IsLive v dir q → IsLive v dir (after m q)
  unfolding after
  after-IsLive m q l = put-IsLive (m ∷ []) q l

  used_after :
      (m : M) (q : Queue)
      → IsLive v dir q
      → (after m q).engine.desc_used ≡ (q.engine.desc_used + 1) % 32
  unfolding after
  used_after m q l = rw l.whole.max (omega (arith, l.inside))

  desc_at-after :
      (m : M) (q : Queue) (j : ℕ)
      → IsLive v dir q
      → desc_at (after m q) j
        ≡ (if q.engine.desc_used == j then described m (desc_at q j) else desc_at q j)
  unfolding after
  desc_at-after m q j l =
      get_or-modify q.descs q.engine.desc_used j (described m) no_desc
        (omega (arith, l.inside, l.whole.max, l.whole.chained.size))

  -- The next descriptor stands behind the segments, round the ring.
  pub used-put :
      (ms : List M) (q : Queue)
      → IsLive v dir q
      → q.engine.desc_used + length ms ≤ xdma_desc_max
      → (put described ms q).engine.desc_used ≡ (q.engine.desc_used + length ms) % xdma_desc_max
  unfolding after
  used-put [] q l h = omega (arith, l.inside)
  used-put (m ∷ []) q l h = used_after m q l
  used-put (m ∷ m' ∷ ms) q l h =
      used-put (m' ∷ ms) (after m q) (after-IsLive m q l) (omega (arith, used_after m q l))
      ∙ omega (arith, used_after m q l)

  -- Descriptors outside the segments' range stay.
  pub desc_at-put_out :
      (ms : List M) (q : Queue) (j : ℕ)
      → IsLive v dir q
      → q.engine.desc_used + length ms ≤ xdma_desc_max
      → (j < q.engine.desc_used) ⊎ (q.engine.desc_used + length ms ≤ j)
      → desc_at (put described ms q) j ≡ desc_at q j
  unfolding after
  desc_at-put_out [] q j l h out = refl
  desc_at-put_out (m ∷ []) q j l h out = desc_at-after m q j l ∙ ground arith
  desc_at-put_out (m ∷ m' ∷ ms) q j l h out =
      desc_at-put_out (m' ∷ ms) (after m q) j (after-IsLive m q l) (omega (arith, used_after m q l))
        (omega (arith, used_after m q l))
      ∙ (desc_at-after m q j l ∙ ground arith)

  -- Inside the range each descriptor describes the segment at its place.
  pub desc_at-put_in :
      (no_mark : M) (ms : List M) (q : Queue) (k : ℕ)
      → IsLive v dir q
      → q.engine.desc_used + length ms ≤ xdma_desc_max
      → k < length ms
      → desc_at (put described ms q) (q.engine.desc_used + k)
        ≡ described (get_or ms k no_mark) (desc_at q (q.engine.desc_used + k))
  unfolding after
  desc_at-put_in no_mark [] q k l h p = absurd (omega arith)
  desc_at-put_in no_mark (m ∷ []) q zero l h p =
      desc_at-after m q (q.engine.desc_used + 0) l ∙ ground arith
  desc_at-put_in no_mark (m ∷ []) q (suc k) l h p = absurd (omega arith)
  desc_at-put_in no_mark (m ∷ m' ∷ ms) q zero l h p =
      desc_at-put_out (m' ∷ ms) (after m q) (q.engine.desc_used + 0) (after-IsLive m q l)
        (omega (arith, used_after m q l)) (omega (arith, used_after m q l))
      ∙ (desc_at-after m q (q.engine.desc_used + 0) l ∙ ground arith)
  desc_at-put_in no_mark (m ∷ m' ∷ ms) q (suc k) l h p =
      let used : (after m q).engine.desc_used + k ≡ q.engine.desc_used + suc k =
        omega (arith, used_after m q l) in
      ap (desc_at (put described (m' ∷ ms) (after m q))) (sym used)
      ∙ (desc_at-put_in no_mark (m' ∷ ms) (after m q) k (after-IsLive m q l)
            (omega (arith, used_after m q l)) (omega arith)
          ∙ ap (described (get_or (m' ∷ ms) k no_mark)) (
              ap (desc_at (after m q)) used
              ∙ (desc_at-after m q (q.engine.desc_used + suc k) l ∙ ground arith)))
