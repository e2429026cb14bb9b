-- ===== src/Hand/Jobs/Laws.antt =====
-- What a job that moves all axes has sent.
use roboparty_dexhand.Base.{
  ℕ, suc, ◌≤◌, ◌≡◌, refl, ap, subst, negsuc, ◌∙◌, Bool, true, false, Option, some, none, List, [],
  ◌∷◌, ◌==◌, if_ind, ℤ, pos, All, any, ◌||◌, arith,
}
use roboparty_dexhand.Hand.World.{
  World, Trace, asks_cancelled, counts_errors, calls, cancelled, command, Operation,
  set_target_position, move_motors,
}
use roboparty_dexhand.Hand.Jobs.{
  Job, outside, unless_cancelled, target_all, move_all, set_positions,
}

-- The calls that return a code, the latest first.
abbrev pub made : Trace → List (Operation × ℕ)
made [] = []
made (calls op rc ∷ tr) = (op, rc) ∷ made tr
made (_ ∷ tr) = made tr

-- The targets from the axis `id` on, each taken with code 0, in front of what was called before.
abbrev pub targets : ℕ → List ℤ → List (Operation × ℕ) → List (Operation × ℕ)
targets id [] before = before
targets id (p ∷ positions) before =
    targets (suc id) positions ((set_target_position (pos id) p, 0) ∷ before)

-- `0 <= p && p <= 10000`.
pub data InStroke : ℤ → Type 0 where
  in_stroke : (n : ℕ) → n ≤ 10000 → InStroke (pos n)

inside : (v : ℤ) → outside v 10000 ≡ false → InStroke v
inside (pos n) e = in_stroke n (ground (arith, e))
inside (negsuc n) e = absurd (ground (arith, e))

either : (a b : Bool) → (a || b) ≡ false → (a ≡ false) × (b ≡ false)
either a b e = ground arith

all_inside :
    (positions : List ℤ) → any (λ v. outside v 10000) positions ≡ false → All InStroke positions
all_inside [] e = tt
all_inside (p ∷ positions) e =
    let (this, rest) = either (outside p 10000) (any (λ v. outside v 10000) positions) e in
    (inside p this, all_inside positions rest)

job_same : (x y : Job) → some x ≡ some y → x ≡ y
job_same x y e = ap (λ o. elim o [ none ↦ x | some z ↦ z ]) e

zero_code :
    (n : ℕ) (op : Operation) (rest : List (Operation × ℕ))
    → (n == 0) ≡ true
    → (op, n) ∷ rest ≡ (op, 0) ∷ rest
zero_code n op rest e = ap (λ k. (op, k) ∷ rest) (ground (arith, e))

module _ (w : World) where
  command-made :
      (op : Operation) (tr : Trace)
      → (command w op tr).0 ≡ true
      → made (command w op tr).1 ≡ (op, 0) ∷ made tr
  unfolding command
  command-made op tr =
      let rc = w.code (counts_errors (w.errors tr) ∷ tr) op in
      if_ind (λ (q : Bool × Trace). q.0 ≡ true → made q.1 ≡ (op, 0) ∷ made tr) (rc == 0)
        (λ e _. zero_code rc op (made tr) e) (λ _ z. absurd (ground arith))

  unless_cancelled-made :
      (op : Operation) (tr : Trace)
      → (unless_cancelled w op tr).0 ≡ true
      → made (unless_cancelled w op tr).1 ≡ (op, 0) ∷ made tr
  unfolding unless_cancelled cancelled
  unless_cancelled-made op tr =
      if_ind (λ (q : Bool × Trace). q.0 ≡ true → made q.1 ≡ (op, 0) ∷ made tr) (w.cancelled tr)
        (λ _ z. absurd (ground arith))
        (λ _ z. command-made op (asks_cancelled (w.cancelled tr) ∷ tr) z)

  target_all-made :
      (id : ℕ) (positions : List ℤ) (tr : Trace)
      → (target_all w id positions tr).0 ≡ true
      → made (target_all w id positions tr).1 ≡ targets id positions (made tr)
  unfolding target_all
  target_all-made id [] tr = λ z. refl
  target_all-made id (p ∷ positions) tr =
      let op = set_target_position (pos id) p in
      let t1 = (unless_cancelled w op tr).1 in
      if_ind (λ (q : Bool × Trace). q.0 ≡ true → made q.1 ≡ targets id (p ∷ positions) (made tr))
        (unless_cancelled w op tr).0
        (λ e z.
          target_all-made (suc id) positions t1 z
          ∙ ap (targets (suc id) positions) (unless_cancelled-made op tr e))
        (λ _ z. absurd (ground arith))

  move_all-made :
      (positions : List ℤ) (tr : Trace)
      → (move_all w positions tr).0 ≡ true
      → made (move_all w positions tr).1 ≡ (move_motors (pos 0), 0) ∷ targets 1 positions (made tr)
  unfolding move_all
  move_all-made positions tr =
      let t1 = (target_all w 1 positions tr).1 in
      if_ind
        (λ (q : Bool × Trace).
          q.0 ≡ true → made q.1 ≡ (move_motors (pos 0), 0) ∷ targets 1 positions (made tr))
        (target_all w 1 positions tr).0
        (λ e z.
          unless_cancelled-made (move_motors (pos 0)) t1 z
          ∙ ap (λ rest. (move_motors (pos 0), 0) ∷ rest) (target_all-made 1 positions tr e))
        (λ _ z. absurd (ground arith))

  -- `set_positions` submits a job only for positions that are all from 0 to 10000; and when the job
  -- reports success, it has set the target of each axis in turn, from the first on, and then moved all
  -- motors, has called nothing else, and each of these calls returned 0.
  pub set_positions-made :
      (positions : List ℤ) (job : Job) (tr : Trace)
      → set_positions w positions ≡ some job
      → All InStroke positions
        × ((job tr).0 ≡ true
            → made (job tr).1 ≡ (move_motors (pos 0), 0) ∷ targets 1 positions (made tr))
  unfolding set_positions
  set_positions-made positions job tr =
      let P = λ (o : Option Job).
        o ≡ some job
        → All InStroke positions
          × ((job tr).0 ≡ true
              → made (job tr).1 ≡ (move_motors (pos 0), 0) ∷ targets 1 positions (made tr)) in
      if_ind P (any (λ v. outside v 10000) positions) (λ _ z. absurd (ground (arith, z)))
        (λ e z. (
          all_inside positions e,
          subst
              (λ (j : Job).
                (j tr).0 ≡ true
                → made (j tr).1 ≡ (move_motors (pos 0), 0) ∷ targets 1 positions (made tr))
              (job_same (move_all w positions) job z) (move_all-made positions tr),
        ))
