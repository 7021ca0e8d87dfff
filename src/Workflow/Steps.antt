-- ===== src/Workflow/Steps.antt =====
-- The list of steps of a run: distinct identifiers, and the order in which steps are worked on.
use shuttle_rs.Prelude.{
  String, ◌≡◌, sym, ap, ◌∙◌, some, List, [], ◌∷◌, Bool, true, false, ◌⊎◌, inl, inr, subst, ◌≢◌,
  not-eq-false, str_eq, str_eq_iff, if_cases, find, update_first, any, All, arith, Bool-cases,
}
use shuttle_rs.Workflow.Run.{StepStatus, StepSummary, named, is_open, is_completed}

module _ {V : Type 0} where
  abbrev pub IsPending : StepSummary V → Type 0
  IsPending s = s.status ≡ StepStatus.pending

  -- Completed steps, then at most one step in any other state, then pending steps.
  abbrev pub InOrder : List (StepSummary V) → Type 0
  InOrder [] = Unit
  InOrder (s ∷ steps) = ((is_completed s.status ≡ true) × InOrder steps) ⊎ All IsPending steps

  abbrev pub DistinctIds : List (StepSummary V) → Type 0
  DistinctIds [] = Unit
  DistinctIds (s ∷ steps) = All (λ t. str_eq s.id t.id ≡ false) steps × DistinctIds steps

  find-All {κ} :
      (P : StepSummary V → Type κ) (p : StepSummary V → Bool) (steps : List (StepSummary V))
      {s : StepSummary V}
      → find p steps ≡ some s
      → All P steps
      → P s
  find-All P p [] e h = cc
  find-All P p (t ∷ steps) {s} e h = elim (Bool-cases (p t)) [
    | inl y ↦ let same : t ≡ s = cc (rw y at e) in subst P same h.0
    | inr n ↦ find-All P p steps (rw n at e) h.1
  ]

  pub find_holds :
      (p : StepSummary V → Bool) (steps : List (StepSummary V)) {s : StepSummary V}
      → find p steps ≡ some s
      → p s ≡ true
  find_holds p [] e = cc
  find_holds p (t ∷ steps) {s} e = elim (Bool-cases (p t)) [
    | inl y ↦ let same : t ≡ s = cc (rw y at e) in subst (λ u. p u ≡ true) same y
    | inr n ↦ find_holds p steps (rw n at e)
  ]

  IsPending-InOrder : (steps : List (StepSummary V)) → All IsPending steps → InOrder steps
  IsPending-InOrder [] h = tt
  IsPending-InOrder (s ∷ steps) h = inr h.1

  InOrder-tail :
      (s : StepSummary V) (steps : List (StepSummary V)) → InOrder (s ∷ steps) → InOrder steps
  InOrder-tail s steps (inl (c, h)) = h
  InOrder-tail s steps (inr h) = IsPending-InOrder steps h

  InOrder-open :
      (s : StepSummary V) (steps : List (StepSummary V))
      → is_open s ≡ true
      → InOrder (s ∷ steps)
      → All IsPending steps
  InOrder-open s steps y (inl (c, h)) = cc (rw c at y)
  InOrder-open s steps y (inr h) = h

  InOrder-cons :
      (s : StepSummary V) (steps changed : List (StepSummary V))
      → (InOrder steps → InOrder changed)
      → ¬ (All IsPending steps)
      → InOrder (s ∷ steps)
      → InOrder (s ∷ changed)
  InOrder-cons s steps changed keep busy (inl (c, h)) = inl (c, keep h)
  InOrder-cons s steps changed keep busy (inr h) = absurd (busy h)

  module _ (f : StepSummary V → StepSummary V) where
    -- A change of the step that is next in line keeps the order.
    pub update_next-InOrder :
        (id : String) (steps : List (StepSummary V)) {s : StepSummary V}
        → DistinctIds steps
        → find is_open steps ≡ some s
        → s.id ≡ id
        → InOrder steps
        → InOrder (update_first (named id) f steps)
    update_next-InOrder id [] d e same h = cc
    update_next-InOrder id (t ∷ steps) {s} d e same h = elim (Bool-cases (is_open t)) [
      | inl y ↦
          let it : t ≡ s = cc (rw y at e) in
          let hit : named id t ≡ true = (str_eq_iff t.id id).1 (ap (λ u. u.id) it ∙ same) in
          rw hit (inr (InOrder-open t steps y h))
      | inr n ↦
          let rest : find is_open steps ≡ some s = rw n at e in
          let miss : named id t ≡ false =
            rw (← same) (find-All (λ u. str_eq t.id u.id ≡ false) is_open steps rest d.0) in
          rw miss (
            inl (
              not-eq-false _ n,
              update_next-InOrder id steps d.1 rest same (InOrder-tail t steps h),
            ))
    ]

    -- So does a change of a step that is claimed or that needs reconciliation.
    pub update_busy-InOrder :
        (id : String) (steps : List (StepSummary V)) {s : StepSummary V}
        → find (named id) steps ≡ some s
        → is_open s ≡ true
        → s.status ≢ StepStatus.pending
        → InOrder steps
        → InOrder (update_first (named id) f steps)
    update_busy-InOrder id [] e y busy h = cc
    update_busy-InOrder id (t ∷ steps) {s} e y busy h = elim (Bool-cases (named id t)) [
      | inl hit ↦
          let it : t ≡ s = cc (rw hit at e) in rw hit (inr (InOrder-open t steps (rw it y) h))
      | inr miss ↦
          let rest : find (named id) steps ≡ some s = rw miss at e in
          rw miss (
            InOrder-cons t steps _ (update_busy-InOrder id steps rest y busy)
              (λ p. busy (find-All IsPending (named id) steps rest p)) h)
    ]

  module _ (f : StepSummary V → StepSummary V)
      (keeps_id : (s : StepSummary V) → (f s).id ≡ s.id) where
    update_first-All :
        (P : String → Type 0) (p : StepSummary V → Bool) (steps : List (StepSummary V))
        → All (λ s. P s.id) steps
        → All (λ s. P s.id) (update_first p f steps)
    update_first-All P p [] h = tt
    update_first-All P p (s ∷ steps) h =
        if_cases (All (λ s. P s.id)) (p s) (f s ∷ steps) (s ∷ update_first p f steps)
          (λ _. (subst P (sym (keeps_id s)) h.0, h.1)) (λ _. (h.0, update_first-All P p steps h.1))

    pub update_first-DistinctIds :
        (p : StepSummary V → Bool) (steps : List (StepSummary V))
        → DistinctIds steps
        → DistinctIds (update_first p f steps)
    update_first-DistinctIds p [] h = tt
    update_first-DistinctIds p (s ∷ steps) h =
        if_cases DistinctIds (p s) (f s ∷ steps) (s ∷ update_first p f steps)
          (λ _. (subst (λ i. All (λ t. str_eq i t.id ≡ false) steps) (sym (keeps_id s)) h.0, h.1))
          (λ _. (
            update_first-All (λ i. str_eq s.id i ≡ false) p steps h.0,
            update_first-DistinctIds p steps h.1,
          ))

  pub any-false-find :
      (p q : StepSummary V → Bool) (steps : List (StepSummary V)) {s : StepSummary V}
      → any q steps ≡ false
      → find p steps ≡ some s
      → q s ≡ false
  any-false-find p q [] a e = cc
  any-false-find p q (t ∷ steps) {s} a e = elim (Bool-cases (p t)) [
    | inl y ↦ let it : t ≡ s = cc (rw y at e) in subst (λ u. q u ≡ false) it (ground arith)
    | inr n ↦ any-false-find p q steps (ground arith) (rw n at e)
  ]

  -- In an orderly list the one step that is neither completed nor pending is the next in line.
  pub busy_is_next :
      (id : String) (steps : List (StepSummary V)) {s : StepSummary V}
      → InOrder steps
      → find (named id) steps ≡ some s
      → is_open s ≡ true
      → s.status ≢ StepStatus.pending
      → find is_open steps ≡ some s
  busy_is_next id [] h e y busy = cc
  busy_is_next id (t ∷ steps) {s} h e y busy = elim (Bool-cases (named id t)) [
    | inl hit ↦
        let it : t ≡ s = cc (rw hit at e) in
        rw (let open_head : is_open t ≡ true = rw it y in open_head) (ap some it)
    | inr miss ↦
        let rest : find (named id) steps ≡ some s = rw miss at e in
        elim (Bool-cases (is_open t)) [
          | inl z ↦
              absurd (busy (find-All IsPending (named id) steps rest (InOrder-open t steps z h)))
          | inr z ↦ rw z (busy_is_next id steps (InOrder-tail t steps h) rest y busy)
        ]
  ]

  pub find-update_first :
      (id : String) (f : StepSummary V → StepSummary V) (steps : List (StepSummary V))
      {s : StepSummary V}
      → ((t : StepSummary V) → (f t).id ≡ t.id)
      → find (named id) steps ≡ some s
      → find (named id) (update_first (named id) f steps) ≡ some (f s)
  find-update_first id f [] keeps e = cc
  find-update_first id f (t ∷ steps) {s} keeps e = elim (Bool-cases (named id t)) [
    | inl hit ↦
        let it : t ≡ s = cc (rw hit at e) in
        let still : named id (f t) ≡ true = rw (keeps t) hit in
        rw (hit, still) (ap (λ u. some (f u)) it)
    | inr miss ↦
        let rest = find-update_first id f steps keeps (rw miss at e) in rw (miss, miss) rest
  ]
