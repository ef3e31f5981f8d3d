-- ===== src/Sequence/Ready.antt =====
-- libEA/sequence.cpp: what registering objects and `CSequence::Configure` make of a new sequence.
use mathlib.Core.Path.{subst}
use zandr_ea.Prelude.{
  ℕ, suc, zero, ◌+◌, ◌≤◌, ◌<◌, ◌≡◌, refl, List, [], ◌∷◌, ◌++◌, length, get_or, arith, All, false,
}
use zandr_ea.Types.{word_mod}
use zandr_ea.Sequence.{
  CSequence, ClassRun, ObjectClass, class_index, new_sequence, register, add_member, base_groups,
  configure, configure_classes, prepared,
}
use zandr_ea.Sequence.Once.{ClassReady, IsReady}
use zandr_ea.Sequence.Order.{BasesRise}

-- Objects registered in turn.
unfoldable pub register_all : List (ObjectClass × ℕ) → CSequence → CSequence
register_all [] q = q
register_all ((c, o) ∷ rs) q = register_all rs (register c o q)

abbrev pub class_base : ObjectClass → ℕ
class_base c = get_or base_groups (class_index c) 0

module _ (group : ℕ → ℕ) (fuel : ℕ) where
  -- An object whose group lies from a base on, within a number of laps.
  abbrev pub InReach : ℕ → ℕ → Type 0
  InReach b o = (b ≤ group o) × (group o < b + fuel)

  abbrev pub RegistersWell : ObjectClass × ℕ → Type 0
  RegistersWell r = InReach (class_base r.0) r.1

  abbrev Within : List ℕ → List ClassRun → Type 0
  Within [] rs = length rs ≡ 0
  Within (b ∷ bs) [] = Unit
  Within (b ∷ bs) (r ∷ rs) = All (InReach b) r.members × Within bs rs

  all_snoc :
      (b o : ℕ) (os : List ℕ) → All (InReach b) os → InReach b o → All (InReach b) (os ++ o ∷ [])
  all_snoc b o [] h p = (p, tt)
  all_snoc b o (x ∷ os) (q, h) p = (q, all_snoc b o os h p)

  add-Within :
      (i o : ℕ) (bs : List ℕ) (rs : List ClassRun)
      → InReach (get_or bs i 0) o
      → Within bs rs
      → Within bs (add_member i o rs)
  unfolding add_member
  add-Within i o [] [] p w = w
  add-Within i o [] (r ∷ rs) p w = absurd (omega arith)
  add-Within i o (b ∷ bs) [] p w = tt
  add-Within zero o (b ∷ bs) (r ∷ rs) p (h, w) = (all_snoc b o r.members h p, w)
  add-Within (suc i) o (b ∷ bs) (r ∷ rs) p (h, w) = (h, add-Within i o bs rs p w)

  registered-Within :
      (rs : List (ObjectClass × ℕ)) (q : CSequence)
      → All RegistersWell rs
      → q.configured ≡ false
      → Within base_groups q.classes
      → ((register_all rs q).configured ≡ false) × Within base_groups (register_all rs q).classes
  unfolding register_all register
  registered-Within [] q h c w = (c, w)
  registered-Within ((c, o) ∷ rs) q (p, h) configured w =
      registered-Within rs (register c o q) h configured
        (add-Within (class_index c) o base_groups q.classes p w)

  above_below :
      (b : ℕ) (os : List ℕ)
      → All (InReach b) os
      → All (λ o. b ≤ group o) os × All (λ o. group o < b + fuel) os
  above_below b [] h = (tt, tt)
  above_below b (o ∷ os) ((low, high), h) =
      let (lows, highs) = above_below b os h in ((low, lows), (high, highs))

  configured_ready :
      (bs : List ℕ) (rs : List ClassRun)
      → Within bs rs
      → All (λ b. b + fuel < word_mod) bs
      → All (ClassReady group fuel) (configure_classes bs rs)
  unfolding configure_classes
  configured_ready [] [] w fits = tt
  configured_ready [] (r ∷ rs) w fits = absurd (omega arith)
  configured_ready (b ∷ bs) [] w fits = tt
  configured_ready (b ∷ bs) (r ∷ rs) (h, w) (fit, fits) =
      let (low, high) = above_below b r.members h in
      (
        record { number = refl; fits = fit; above = low; below = high },
        configured_ready bs rs w fits,
      )

  abbrev Rises : ℕ → List ℕ → Type 0
  Rises lo [] = lo ≤ 8
  Rises lo (b ∷ bs) = (lo ≤ b) × Rises (suc b) bs

  Rises-top : (lo : ℕ) (bs : List ℕ) → Rises lo bs → lo ≤ 8
  Rises-top lo [] h = h
  Rises-top lo (b ∷ bs) (h, hs) = omega (arith, Rises-top (suc b) bs hs)

  configured-Rises :
      (lo : ℕ) (bs : List ℕ) (rs : List ClassRun)
      → Within bs rs
      → Rises lo bs
      → BasesRise lo (configure_classes bs rs)
  unfolding configure_classes
  configured-Rises lo [] [] w up = up
  configured-Rises lo [] (r ∷ rs) w up = absurd (omega arith)
  configured-Rises lo (b ∷ bs) [] w up = Rises-top lo (b ∷ bs) up
  configured-Rises lo (b ∷ bs) (r ∷ rs) (h, w) (first, up) =
      (first, configured-Rises (suc b) bs rs w up)

  configure-IsReady :
      (q : CSequence)
      → fuel + 8 < word_mod
      → Within base_groups q.classes
      → IsReady group fuel (configure q) × BasesRise 0 (configure q).classes
  unfolding configure
  configure-IsReady q word w = (
    record {
      word = omega arith;
      total = refl;
      classes =
          configured_ready base_groups q.classes w
            (omega arith, (omega arith, (omega arith, (omega arith, (omega arith, tt)))));
    },
    configured-Rises 0 base_groups q.classes w
        (omega arith, (omega arith, (omega arith, (omega arith, (omega arith, omega arith))))),
  )

  prepared_new : (q : CSequence) → q.configured ≡ false → configure q ≡ prepared q
  unfolding prepared
  prepared_new q fresh = rw fresh refl

  -- A new sequence to which objects are registered is ready for its first trigger, with the bases of
  -- its classes rising, when the group of each object lies from the base of its class on, within as
  -- many laps as a word holds beyond the bases.
  pub register_all-IsReady :
      (period : ℕ) (rs : List (ObjectClass × ℕ))
      → fuel + 8 < word_mod
      → All RegistersWell rs
      → let q = prepared (register_all rs (new_sequence period)) in
        IsReady group fuel q × BasesRise 0 q.classes
  unfolding new_sequence
  register_all-IsReady period rs word h =
      let (fresh, within) =
        registered-Within rs (new_sequence period) h refl (tt, (tt, (tt, (tt, (tt, refl))))) in
      let q = register_all rs (new_sequence period) in
      subst (λ (p : CSequence). IsReady group fuel p × BasesRise 0 p.classes) (prepared_new q fresh)
        (configure-IsReady q word within)
