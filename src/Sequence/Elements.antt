-- ===== src/Sequence/Elements.antt =====
-- The objects of the sequence as elements in a store: `ISeqElement::Trigger` of libEA/seqElement.cpp
-- against what `CSequence` of libEA/sequence.cpp relies on.
use zandr_ea.Prelude.{
  ℕ, ◌≡◌, refl, ap, ◌∙◌, Bool, true, false, List, [], ◌∷◌, ◌++◌, ◌==◌, if◌then◌else◌, arith, to_int,
}
use zandr_ea.Clock.{ClockRead}
use zandr_ea.SeqElement.{SeqElement, trigger}
use zandr_ea.Sequence.Schedule.{TriggersObjects}

-- The elements by object, what their cycles read and write besides, and the objects fired so far.
pub record Store (S : Type 0) : Type 0 where
  pub element : ℕ → SeqElement
  pub rest : S
  pub log : List ℕ

module _ {S : Type 0} (cycle_of : ℕ → ℕ → SeqElement × S → SeqElement × S) where
  -- `ptr->Trigger( groupTargeted, clockInfo )` on the store.
  unfoldable pub trigger_object : ℕ → ClockRead → ℕ → Store S → Store S × ℕ
  trigger_object g k o w =
      let ((e', s'), reply) = trigger (cycle_of o) g k (w.element o, w.rest) in
      (
        record {
          element = λ p. if p == o then e' else w.element p;
          rest = s';
          log = w.log ++ (if reply == 1 then o ∷ [] else []);
        },
        reply,
      )

  -- No cycle changes the group of its element, which is set when it is constructed.
  abbrev pub KeepsGroup : Type 0
  KeepsGroup =
      (o now : ℕ) (e : SeqElement) (s : S)
      → (cycle_of o now (e, s)).0.own_trigger_group ≡ e.own_trigger_group

  pub trigger-reply :
      (o g : ℕ) (k : ClockRead) (e : SeqElement) (s : S)
      → ((trigger (cycle_of o) g k (e, s)).1 ≡ to_int (e.own_trigger_group == g))
  unfolding trigger
  trigger-reply o g k e s = ground arith

  trigger-group :
      (o g : ℕ) (k : ClockRead) (e : SeqElement) (s : S)
      → KeepsGroup
      → (trigger (cycle_of o) g k (e, s)).0.0.own_trigger_group ≡ e.own_trigger_group
  unfolding trigger
  trigger-group o g k e s keeps = grind (arith, keeps)

  pub once :
      (o : ℕ) (b : Bool) → (if to_int b == 1 then o ∷ [] else []) ≡ (if b then o ∷ [] else [])
  once o true = refl
  once o false = refl

  pub trigger_object-keeps :
      (group : ℕ → ℕ)
      → KeepsGroup
      → (g : ℕ) (k : ClockRead) (o : ℕ) (w : Store S)
      → ((p : ℕ) → (w.element p).own_trigger_group ≡ group p)
      → (p : ℕ) → ((trigger_object g k o w).0.element p).own_trigger_group ≡ group p
  unfolding trigger_object
  trigger_object-keeps group keeps g k o w ok p =
      grind (arith, ok p, ok o, trigger-group o g k (w.element o) w.rest keeps, ap group)

  unfoldable pub elements : (group : ℕ → ℕ) → KeepsGroup → TriggersObjects trigger_object
  unfolding trigger_object
  elements group keeps = record {
    Ok = λ w. (o : ℕ) → (w.element o).own_trigger_group ≡ group o;
    group = group;
    fired = λ w. w.log;
    keeps = trigger_object-keeps group keeps;
    reply =
        λ g k o w ok. trigger-reply o g k (w.element o) w.rest ∙ ap (λ h. to_int (h == g)) (ok o);
    logs = λ g k o w ok.
        let replied = trigger-reply o g k (w.element o) w.rest ∙ ap (λ h. to_int (h == g)) (ok o) in
        rw replied (ap (λ l. w.log ++ l) (once o (group o == g)));
  }
