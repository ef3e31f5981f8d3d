-- ===== src/Sequence/Order.antt =====
-- libEA/sequence.cpp: the order in which a trigger of the sequence fires the objects.
use zandr_ea.Prelude.{
  ℕ, suc, zero, ◌+◌, ◌-◌, ◌*◌, ◌≤◌, ◌≡◌, List, [], ◌∷◌, ◌++◌, map, some, ◌==◌, arith, All,
  Bool-cases, ==_iff, inl, inr,
}
use zandr_ea.Types.{okay_all_done, base_trig_grp_rule_kit}
use zandr_ea.Clock.{ClockRead}
use zandr_ea.Sequence.{CSequence, ClassRun, reset_class, prepared, start_sequence, trigger_sequence}
use zandr_ea.Sequence.Schedule.{TriggersObjects, lap_schedule, schedule, matching}
use zandr_ea.Sequence.Once.{IsReady}
use zandr_ea.Sequence.Ends.{ends_with}

-- A list whose keys do not fall, from one bound to another.
abbrev pub Chain : (ℕ → ℕ) → ℕ → List ℕ → ℕ → Type 0
Chain key lo [] hi = lo ≤ hi
Chain key lo (o ∷ os) hi = (lo ≤ key o) × Chain key (key o) os hi

Chain-append :
    (key : ℕ → ℕ) (a b c : ℕ) (xs ys : List ℕ)
    → Chain key a xs b
    → Chain key b ys c
    → Chain key a (xs ++ ys) c
Chain-append key a b c [] [] f g = omega arith
Chain-append key a b c [] (y ∷ ys) f (g, gs) = (omega arith, gs)
Chain-append key a b c (x ∷ xs) ys (f, fs) g = (f, Chain-append key (key x) b c xs ys fs g)

Chain-raise : (key : ℕ → ℕ) (a b c : ℕ) (xs : List ℕ) → b ≤ c → Chain key a xs b → Chain key a xs c
Chain-raise key a b c [] h f = omega arith
Chain-raise key a b c (x ∷ xs) h (f, fs) = (f, Chain-raise key (key x) b c xs h fs)

Chain-lower : (key : ℕ → ℕ) (a b c : ℕ) (xs : List ℕ) → a ≤ b → Chain key b xs c → Chain key a xs c
Chain-lower key a b c [] h f = omega arith
Chain-lower key a b c (x ∷ xs) h (f, fs) = (omega arith, fs)

-- The bases of the classes rise and stay below 8, the largest of them being that of facts.
abbrev pub BasesRise : ℕ → List ClassRun → Type 0
BasesRise lo [] = lo ≤ 8
BasesRise lo (r ∷ rs) = (lo ≤ r.base_trigger_grp) × BasesRise (suc r.base_trigger_grp) rs

module _ (group : ℕ → ℕ) (base_of : ℕ → ℕ) where
  -- Where an object stands in the sequence: by its distance from its base, then by its class.
  abbrev pub slot : ℕ → ℕ
  slot o = (group o - base_of o) * 8 + base_of o

  -- Each class holds objects of its own base.
  abbrev pub HoldsOwn : ClassRun → Type 0
  HoldsOwn r = All (λ o. base_of o ≡ r.base_trigger_grp) r.members

  slot_at : (o b lap : ℕ) → base_of o ≡ b → group o ≡ b + lap → slot o ≡ lap * 8 + b
  slot_at o b lap h g = omega arith

  Chain-matching :
      (lap b : ℕ) (os : List ℕ)
      → All (λ o. base_of o ≡ b) os
      → Chain slot (lap * 8 + b) (matching group (b + lap) os) (lap * 8 + b)
  Chain-matching lap b [] h = omega arith
  Chain-matching lap b (o ∷ os) (h, hs) =
      let rest = Chain-matching lap b os hs in
      elim (Bool-cases (group o == (b + lap))) [
        | inl hit ↦
            let at : slot o ≡ lap * 8 + b =
              slot_at o b lap h ((==_iff (group o) (b + lap)).0 hit) in
            rw hit (
              omega arith,
              Chain-lower slot (slot o) (lap * 8 + b) (lap * 8 + b) _ (omega arith) rest,
            )
        | inr miss ↦ rw miss rest
      ]

  bases_top : (lo : ℕ) (rs : List ClassRun) → BasesRise lo rs → lo ≤ 8
  bases_top lo [] h = h
  bases_top lo (r ∷ rs) (h, hs) = omega (arith, bases_top _ rs hs)

  Chain-lap_schedule :
      (lap lo : ℕ) (rs : List ClassRun)
      → BasesRise lo rs
      → All HoldsOwn rs
      → Chain slot (lap * 8 + lo) (lap_schedule group lap rs) (suc lap * 8)
  Chain-lap_schedule lap lo [] b h = omega arith
  Chain-lap_schedule lap lo (r ∷ rs) (b, bs) (h, hs) =
      let c = r.base_trigger_grp in
      Chain-lower slot (lap * 8 + lo) (lap * 8 + c) (suc lap * 8) _ (omega arith) (
        Chain-append slot (lap * 8 + c) (lap * 8 + c) (suc lap * 8)
          (matching group (c + lap) r.members) (lap_schedule group lap rs)
          (Chain-matching lap c r.members h)
          (Chain-lower slot (lap * 8 + c) (lap * 8 + suc c) (suc lap * 8) _ (omega arith)
            (Chain-lap_schedule lap (suc c) rs bs hs)))

  Chain-schedule :
      (n lap : ℕ) (rs : List ClassRun)
      → BasesRise 0 rs
      → All HoldsOwn rs
      → Chain slot (lap * 8) (schedule group n lap rs) ((lap + n) * 8)
  Chain-schedule zero lap rs b h = omega arith
  Chain-schedule (suc n) lap rs b h =
      Chain-append slot (lap * 8) (suc lap * 8) ((lap + suc n) * 8) (lap_schedule group lap rs)
        (schedule group n (suc lap) rs)
        (Chain-lower slot (lap * 8) (lap * 8 + 0) (suc lap * 8) _ (omega arith)
          (Chain-lap_schedule lap 0 rs b h))
        (Chain-raise slot (suc lap * 8) ((suc lap + n) * 8) ((lap + suc n) * 8) _ (omega arith)
          (Chain-schedule n (suc lap) rs b h))

  bases-reset : (lo : ℕ) (rs : List ClassRun) → BasesRise lo rs → BasesRise lo (map reset_class rs)
  unfolding reset_class
  bases-reset lo [] h = h
  bases-reset lo (r ∷ rs) (h, hs) = (h, bases-reset (suc r.base_trigger_grp) rs hs)

  own-reset : (rs : List ClassRun) → All HoldsOwn rs → All HoldsOwn (map reset_class rs)
  unfolding reset_class
  own-reset [] h = tt
  own-reset (r ∷ rs) (h, hs) = (h, own-reset rs hs)

-- A trigger of a sequence that is ready fires its objects by rising distance of their group from the
-- base of their class, those of one distance by class; only then come the rule kits.
pub trigger_sequence-in_order :
    {W : Type 0} (trig : ℕ → ClockRead → ℕ → W → W × ℕ) (t : TriggersObjects trig) (base_of : ℕ → ℕ)
    (fuel : ℕ) (k : ClockRead) (q : CSequence) (w : W)
    → t.Ok w
    → IsReady t.group (suc fuel) (prepared q)
    → BasesRise 0 (prepared q).classes
    → All (HoldsOwn t.group base_of) (prepared q).classes
    → (q' : CSequence) × (w' : W) × (os : List ℕ) × (trigger_sequence trig (suc fuel) k (q, w)
        ≡ some ((q', w'), okay_all_done))
      × (t.fired w' ≡ t.fired w ++ (os ++ matching t.group base_trig_grp_rule_kit q.rule_kits))
      × (top : ℕ) × Chain (slot t.group base_of) 0 os top
unfolding start_sequence
trigger_sequence-in_order trig t base_of fuel k q w ok ready rise own =
    let (n, q', w', e) = ends_with trig t fuel k q w ok ready in
    let cs = (prepared q).classes in
    (
      q',
      w',
      schedule t.group (suc n) 0 (map reset_class cs),
      e.ends,
      e.fires.log,
      (0 + suc n) * 8,
      Chain-schedule t.group base_of (suc n) 0 (map reset_class cs)
          (bases-reset t.group base_of 0 cs rise) (own-reset t.group base_of cs own),
    )
