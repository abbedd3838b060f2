-- ===== src/Throttled/Ends.antt =====
-- The loop of a throttled queue ends: with more fuel than items are queued, the fuel does not matter.
use uns_kit.Kit.{
  ℕ, zero, suc, ◌<◌, ◌≡◌, refl, inl, inr, true, false, ◌&&◌, not, length, ltb, arith, Bool-cases,
  if_both,
}
use uns_kit.Throttled.{Throttled, can_start, start_next, drive}
use uns_kit.Throttled.Bounds.{length-start_next}

module _ {A : Type 0} where
  drive_enough :
      (f g : ℕ) (q : Throttled A) → length q.queue < f → length q.queue < g → drive f q ≡ drive g q
  unfolding drive
  drive_enough zero g q hf hg = absurd (omega arith)
  drive_enough (suc f) zero q hf hg = absurd (omega arith)
  drive_enough (suc f) (suc g) q hf hg = elim (Bool-cases (can_start q && q.active)) [
    | inl go ↦
        let shorter = length-start_next q (ground (arith, go)) in
        let rest : drive f (start_next q) ≡ drive g (start_next q) =
          drive_enough f g (start_next q) (omega (arith, shorter)) (omega (arith, shorter)) in
        rw (go, rest) refl
    | inr stop ↦ rw stop refl
  ]

  drive_stops :
      (f : ℕ) (q : Throttled A)
      → length q.queue < f
      → ((drive f q).is_processing && not (drive f q).delaying) ≡ false
  unfolding drive
  drive_stops zero q hf = absurd (omega arith)
  drive_stops (suc f) q hf = elim (Bool-cases (can_start q && q.active)) [
    | inl go ↦
        let shorter = length-start_next q (ground (arith, go)) in
        rw go (
          if_both (λ (r : Throttled A). (r.is_processing && not r.delaying) ≡ false)
            (ltb 0 q.delay && can_start (start_next q)) (record (start_next q) { delaying = true })
            (drive f (start_next q)) (ground arith)
            (drive_stops f (start_next q) (omega (arith, shorter))))
    | inr stop ↦ rw stop refl
  ]

  -- The loop ends: any fuel above the number of queued items gives the same queue, in which the loop runs no more
  -- but for an await of its delay.
  pub drive_terminates :
      (fuel : ℕ) (q : Throttled A)
      → length q.queue < fuel
      → (drive fuel q ≡ drive (suc (length q.queue)) q)
        × (((drive fuel q).is_processing && not (drive fuel q).delaying) ≡ false)
  drive_terminates fuel q enough =
      (drive_enough fuel (suc (length q.queue)) q enough (omega arith), drive_stops fuel q enough)
