-- ===== src/Hand/Queue/Admission.antt =====
-- Which jobs `submit` lets in.
use roboparty_dexhand.Base.{
  ◌∙◌, ◌%◌, ◌≤◌, ◌||◌, Option, if_ind, All, ℕ, ◌+◌, ◌^◌, ◌<◌, ◌≡◌, refl, ap, Bool, true, false, not,
  none, some, List, [], ◌∷◌, ◌==◌, length, arith,
}
use roboparty_dexhand.Hand.Queue.{
  Job, State, cancelled, next_generation, push_urgent, submit, Reachable, take, finish, Step, takes,
  finishes,
}
use roboparty_dexhand.Hand.Queue.Laws.{
  urgents, ordinaries, one, open_of, open_jobs, Reachable-Counted, Submitted, urgently, ordinarily,
  submitted, no-running, no-queue,
}
use roboparty_dexhand.Hand.Queue.Tokens.{steps, Reachable-Young}

one-sum : (b : Bool) → one b + one (not b) ≡ 1
one-sum true = refl
one-sum false = refl

length-open : (js : List Job) → length js ≡ urgents js + ordinaries js
unfolding urgents ordinaries
length-open [] = refl
length-open (j ∷ js) = omega (arith, length-open js, one-sum j.urgent)

empty-of : (js : List Job) → length js ≡ 0 → js ≡ []
empty-of [] e = refl
empty-of (j ∷ js) e = absurd (omega arith)

-- In a state that a hand can reach, with fewer than 2^32 jobs that have not ended, an ordinary
-- job is let in only when no job at all waits or runs.
pub submit_exclusive :
    {s t : State}
    → Reachable s
    → length (open_jobs s) < 2 ^ 32
    → submit s false ≡ some t
    → (s.queue ≡ []) × (s.running ≡ none)
submit_exclusive {s} {t} r few e = go (submitted s t false e) refl
  where
    go : {u : Bool} {t : State} → Submitted s u t → u ≡ false → (s.queue ≡ []) × (s.running ≡ none)
    go (urgently on) z = absurd (ground (arith, z))
    go (ordinarily on free none_urgent) z =
        let c = Reachable-Counted r in
        let u = c.urgent in
        let o = c.ordinary in
        let empty =
          empty-of (open_jobs s)
            (omega (arith, few, u, o, none_urgent, ap one free, length-open (open_jobs s))) in
        (no-queue s.running s.queue empty, no-running s.running s.queue empty)

-- One state after another.
pub data Leads (s : State) : State → Type 0 where
  stays : Leads s s
  moves : {t u : State} → Leads s t → Step t u → Leads s u

-- What became of an urgent job.
pub record LetIn (s t : State) (job : Job) : Type 0 where
  pub taken : submit s true ≡ some t
  pub own : cancelled t job.token ≡ false
  pub others : All (λ j. cancelled t j.token ≡ true) (open_jobs s)
  pub waits : open_jobs t ≡ open_of s.running (job ∷ s.queue)
  pub last : State
  pub path : Leads t last
  pub runs : last.running ≡ some job
  pub behind : last.queue ≡ s.queue

finished :
    (s : State) (job : Job)
    → ((finish s job).running ≡ none)
      × ((finish s job).queue ≡ s.queue)
      × ((finish s job).alive ≡ s.alive)
unfolding finish
finished s job =
    if_ind (λ (t : State). (t.running ≡ none) × (t.queue ≡ s.queue) × (t.alive ≡ s.alive))
      job.urgent (λ _. (refl, refl, refl)) (λ _. (refl, refl, refl))

taken_next :
    (t : State) (job : Job) (rest : List Job) (r : Option Job)
    → t.running ≡ r
    → t.alive ≡ true
    → t.queue ≡ job ∷ rest
    → (u : State) × Leads t u × (u.running ≡ some job) × (u.queue ≡ rest)
unfolding take
taken_next t job rest none free up front =
    (take t job rest, moves stays (takes job rest up free front), refl, refl)
taken_next t job rest (some j) runs up front =
    let v = finish t j in
    let (free, same, alive) = finished t j in
    (
      take v job rest,
      moves (moves stays (finishes j runs)) (takes job rest (alive ∙ up) free (same ∙ front)),
      refl,
      refl,
    )

not_gone :
    (alive connected : Bool) → (alive ≡ false → connected ≡ false) → connected ≡ true → alive ≡ true
not_gone true connected h on = refl
not_gone false connected h on = let off = h refl in absurd (ground (arith, off, on))

cancelled_old :
    (closing : Bool) (g n : ℕ) (js : List Job)
    → g ≤ n
    → n + 1 < 2 ^ 64
    → All (λ j. j.token ≤ g) js
    → All (λ j. (closing || not ((g + 1) % 2 ^ 64 == j.token)) ≡ true) js
cancelled_old closing g n [] few low all = tt
cancelled_old closing g n (j ∷ js) few low all =
    let this = all.0 in (ground (arith, few, low, this), cancelled_old closing g n js few low all.1)

-- In a state that a hand reaches in fewer than 2^64 - 1 steps, connected and not closing, an urgent job
-- is always let in. It is not cancelled, all other jobs that wait or run are, and nothing but the end
-- of the job that runs is needed until the worker has taken it, before all jobs that waited.
pub submit_urgent :
    {s : State} (r : Reachable s)
    → steps r + 1 < 2 ^ 64
    → s.connected ≡ true
    → s.closing ≡ false
    → (t : State) × (job : Job) × LetIn s t job
unfolding submit push_urgent cancelled
submit_urgent {s} r low on not_closing =
    let young = Reachable-Young r (omega (arith, low)) in
    let stays_on = young.together ∙ not_closing in
    let job : Job = record { token = next_generation s; urgent = true } in
    let up = not_gone s.alive s.connected (λ e. ((Reachable-Counted r).idle e).1) on in
    let (last, path, runs, behind) =
      taken_next (push_urgent s) job s.queue s.running refl up refl in
    (
      push_urgent s,
      job,
      record {
        taken = rw (on, not_closing, stays_on) refl;
        own = ground (arith, not_closing);
        others =
            cancelled_old s.closing s.generation (steps r) (open_jobs s) young.few low young.old;
        waits = refl;
        last = last;
        path = path;
        runs = runs;
        behind = behind;
      },
    )
