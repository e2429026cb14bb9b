-- ===== src/Hand/Queue/Laws.antt =====
-- What the counters of the job queue say about the jobs.
use roboparty_dexhand.Base.{
  ℕ, ◌+◌, ◌-◌, ◌%◌, ◌^◌, ◌≤◌, ◌≡◌, refl, sym, ap, ◌∙◌, Bool, true, false, not, ◌||◌, Option, none,
  some, List, [], ◌∷◌, ◌++◌, ◌==◌, if_ind, length, subst, arith,
}
use roboparty_dexhand.Hand.Queue.{
  Job, State, next_generation, push_urgent, push_ordinary, submit, take, finish, leave, close,
  start, Step, submits, takes, finishes, leaves, closes, joins, starts, opens, Reachable, begins,
  goes,
}

abbrev pub one : Bool → ℕ
one true = 1
one false = 0

-- The urgent and the ordinary jobs in a list.
unfoldable pub urgents : List Job → ℕ
urgents [] = 0
urgents (j ∷ js) = one j.urgent + urgents js

unfoldable pub ordinaries : List Job → ℕ
ordinaries [] = 0
ordinaries (j ∷ js) = one (not j.urgent) + ordinaries js

-- The jobs that have not ended.
abbrev pub open_of : Option Job → List Job → List Job
open_of none queue = queue
open_of (some j) queue = j ∷ queue

abbrev pub open_jobs : State → List Job
open_jobs s = open_of s.running s.queue

pub record Counted (s : State) : Type 0 where
  pub urgent : s.urgent_count ≡ urgents (open_jobs s) % 2 ^ 32
  pub ordinary : ordinaries (open_jobs s) ≡ one s.ordinary_busy
  pub idle : s.alive ≡ false → (open_jobs s ≡ []) × (s.connected ≡ false)
  pub joined : s.joinable ≡ false → s.alive ≡ false

urgents-append : (xs : List Job) (j : Job) → urgents (xs ++ j ∷ []) ≡ urgents xs + one j.urgent
unfolding urgents
urgents-append [] j = omega arith
urgents-append (x ∷ xs) j = omega (arith, urgents-append xs j)

ordinaries-append :
    (xs : List Job) (j : Job) → ordinaries (xs ++ j ∷ []) ≡ ordinaries xs + one (not j.urgent)
unfolding ordinaries
ordinaries-append [] j = omega arith
ordinaries-append (x ∷ xs) j = omega (arith, ordinaries-append xs j)

pub open_of-append :
    (r : Option Job) (q : List Job) (j : Job) → open_of r (q ++ j ∷ []) ≡ open_of r q ++ j ∷ []
open_of-append none q j = refl
open_of-append (some k) q j = refl

urgents-front :
    (r : Option Job) (q : List Job) (j : Job)
    → urgents (open_of r (j ∷ q)) ≡ urgents (open_of r q) + one j.urgent
unfolding urgents
urgents-front none q j = omega arith
urgents-front (some k) q j = omega arith

ordinaries-front :
    (r : Option Job) (q : List Job) (j : Job)
    → ordinaries (open_of r (j ∷ q)) ≡ ordinaries (open_of r q) + one (not j.urgent)
unfolding ordinaries
ordinaries-front none q j = omega arith
ordinaries-front (some k) q j = omega arith

some-same : {A : Type 0} (x y : A) → some x ≡ some y → x ≡ y
some-same x y e = ap (λ o. elim o [ none ↦ x | some z ↦ z ]) e

-- What a job that was let in has found and done.
pub data Submitted (s : State) : Bool → State → Type 0 where
  urgently : s.connected ≡ true → Submitted s true (push_urgent s)
  ordinarily :
      s.connected ≡ true
      → s.ordinary_busy ≡ false
      → s.urgent_count ≡ 0
      → Submitted s false (push_ordinary s)

connected-of : (a b c : Bool) → (not a || b || c) ≡ false → a ≡ true
connected-of a b c e = ground arith

quiet-of : (a : Bool) (n : ℕ) → (a || not (n == 0)) ≡ false → (a ≡ false) × (n ≡ 0)
quiet-of a n e = ground arith

pub submitted : (s t : State) (urgent : Bool) → submit s urgent ≡ some t → Submitted s urgent t
unfolding submit
submitted s t true =
    let Q = λ (o : Option State). o ≡ some t → Submitted s true t in
    if_ind Q (not s.connected || s.closing || s.worker_exit) (λ _ z. absurd (ground (arith, z)))
      λ e z.
        subst (λ u. Submitted s true u) (some-same (push_urgent s) t z)
          (urgently (connected-of _ _ _ e))
submitted s t false =
    let Q = λ (o : Option State). o ≡ some t → Submitted s false t in
    if_ind Q (not s.connected || s.closing || s.worker_exit) (λ _ z. absurd (ground (arith, z)))
      λ e.
        if_ind Q (s.ordinary_busy || not (s.urgent_count == 0)) (λ _ z. absurd (ground (arith, z)))
          λ f z.
            let (free, none_urgent) = quiet-of s.ordinary_busy s.urgent_count f in
            subst (λ u. Submitted s false u) (some-same (push_ordinary s) t z)
              (ordinarily (connected-of _ _ _ e) free none_urgent)

Counted-Submitted : {s t : State} {urgent : Bool} → Counted s → Submitted s urgent t → Counted t
unfolding push_urgent push_ordinary
Counted-Submitted {s} c (urgently on) =
    let j : Job = record { token = next_generation s; urgent = true } in
    record {
      urgent = let u = c.urgent in omega (arith, u, urgents-front s.running s.queue j);
      ordinary = let o = c.ordinary in omega (arith, o, ordinaries-front s.running s.queue j);
      idle = λ e. absurd (ground (arith, (c.idle e).1, on));
      joined = c.joined;
    }
Counted-Submitted {s} c (ordinarily on free none_urgent) =
    let j : Job = record { token = s.generation; urgent = false } in
    record {
      urgent =
          let u = c.urgent in
          omega (
            arith,
            u,
            ap urgents (open_of-append s.running s.queue j),
            urgents-append (open_jobs s) j,
          );
      ordinary =
          let o = c.ordinary in
          omega (
            arith,
            o,
            ap one free,
            ap ordinaries (open_of-append s.running s.queue j),
            ordinaries-append (open_jobs s) j,
          );
      idle = λ e. absurd (ground (arith, (c.idle e).1, on));
      joined = c.joined;
    }

one-bound : (b : Bool) → one b ≤ 1
one-bound true = omega arith
one-bound false = omega arith

Counted-taken :
    {s : State} (job : Job) (rest : List Job)
    → Counted s
    → s.alive ≡ true
    → s.running ≡ none
    → s.queue ≡ job ∷ rest
    → Counted (take s job rest)
unfolding take
Counted-taken {s} job rest c up free front =
    let same : open_jobs s ≡ job ∷ rest = ap (λ r. open_of r s.queue) free ∙ front in
    record {
      urgent = c.urgent ∙ ap (λ js. urgents js % 2 ^ 32) same;
      ordinary = ap ordinaries (sym same) ∙ c.ordinary;
      idle = λ e. absurd (ground (arith, e, up));
      joined = c.joined;
    }

wrap-down : (u n : ℕ) → u ≡ (1 + n) % 2 ^ 32 → (u + (2 ^ 32 - 1)) % 2 ^ 32 ≡ n % 2 ^ 32
wrap-down u n e = omega arith

Counted-finished :
    {s : State} (job : Job) → Counted s → s.running ≡ some job → Counted (finish s job)
unfolding finish urgents ordinaries
Counted-finished {s} job c runs =
    let same : open_jobs s ≡ job ∷ s.queue = ap (λ r. open_of r s.queue) runs in
    let u : s.urgent_count ≡ (one job.urgent + urgents s.queue) % 2 ^ 32 =
      c.urgent ∙ ap (λ js. urgents js % 2 ^ 32) same in
    let o : one (not job.urgent) + ordinaries s.queue ≡ one s.ordinary_busy =
      ap ordinaries (sym same) ∙ c.ordinary in
    let up = λ (e : s.alive ≡ false). ap length (sym same ∙ (c.idle e).0) in
    if_ind Counted job.urgent
      (λ e. record {
        urgent =
            wrap-down s.urgent_count (urgents s.queue)
              (u ∙ ap (λ b. (one b + urgents s.queue) % 2 ^ 32) e);
        ordinary = omega (arith, ap (λ b. one (not b)) e, o);
        idle = λ d. absurd (omega (arith, up d));
        joined = c.joined;
      })
      (λ e. record {
        urgent = omega (arith, u, ap one e);
        ordinary = omega (arith, ap (λ b. one (not b)) e, o, one-bound s.ordinary_busy);
        idle = λ d. absurd (omega (arith, up d));
        joined = c.joined;
      })

pub no-running : (r : Option Job) (q : List Job) → open_of r q ≡ [] → r ≡ none
no-running none q e = refl
no-running (some j) q e = absurd (omega (arith, ap length e))

pub no-queue : (r : Option Job) (q : List Job) → open_of r q ≡ [] → q ≡ []
no-queue none q e = e
no-queue (some j) q e = absurd (omega (arith, ap length e))

Counted-started : {s : State} (ok : Bool) → Counted s → s.joinable ≡ false → Counted (start s ok)
unfolding start urgents ordinaries
Counted-started {s} true c down =
    let j : Job = record { token = next_generation s; urgent = false } in
    let empty = (c.idle (c.joined down)).0 in
    record {
      urgent =
          let u = c.urgent in
          omega (
            arith,
            u,
            ap urgents (open_of-append s.running s.queue j),
            urgents-append (open_jobs s) j,
          );
      ordinary = omega (
        arith,
        ap ordinaries empty,
        ap ordinaries (open_of-append s.running s.queue j),
        ordinaries-append (open_jobs s) j,
      );
      idle = λ e. absurd (ground (arith, e));
      joined = λ e. absurd (ground (arith, e));
    }
Counted-started {s} false c down =
    let empty = (c.idle (c.joined down)).0 in
    let cleared : open_of s.running [] ≡ [] =
      ap (λ r. open_of r []) (no-running s.running s.queue empty) in
    record {
      urgent = let u = c.urgent in omega (arith, u, ap urgents empty, ap urgents cleared);
      ordinary = ap ordinaries cleared;
      idle = λ e. (cleared, refl);
      joined = c.joined;
    }

step-Counted : {s t : State} → Counted s → Step s t → Counted t
unfolding leave close
step-Counted {s} {t} c (submits urgent e) = Counted-Submitted c (submitted s t urgent e)
step-Counted c (takes job rest up free front) = Counted-taken job rest c up free front
step-Counted c (finishes job runs) = Counted-finished job c runs
step-Counted {s} c (leaves up free empty gone) = record {
  urgent = c.urgent;
  ordinary = c.ordinary;
  idle = λ e. (ap (λ r. open_of r s.queue) free ∙ empty, refl);
  joined = λ e. refl;
}
step-Counted c closes = record {
  urgent = c.urgent;
  ordinary = c.ordinary;
  idle = λ e. ((c.idle e).0, refl);
  joined = c.joined;
}
step-Counted c (joins down) = record {
  urgent = c.urgent;
  ordinary = c.ordinary;
  idle = c.idle;
  joined = λ _. down;
}
step-Counted c (starts ok down) = Counted-started ok c down
step-Counted {s} c (opens job connected runs) = record {
  urgent = c.urgent;
  ordinary = c.ordinary;
  idle = λ e.
      absurd (omega (arith, ap length (sym (ap (λ r. open_of r s.queue) runs) ∙ (c.idle e).0)));
  joined = c.joined;
}

-- In every state that a hand can reach, `urgent_count` counts the urgent jobs that have not ended (on
-- 32 bits), `ordinary_busy` says whether there is an ordinary one, which is never more than one, and
-- without a worker no job is left and the hand is not connected.
pub Reachable-Counted : {s : State} → Reachable s → Counted s
unfolding urgents ordinaries
Reachable-Counted begins = record {
  urgent = refl;
  ordinary = refl;
  idle = λ _. (refl, refl);
  joined = λ _. refl;
}
Reachable-Counted (goes r e) = step-Counted (Reachable-Counted r) e
