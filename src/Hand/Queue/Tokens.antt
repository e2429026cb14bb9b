-- ===== src/Hand/Queue/Tokens.antt =====
-- The tokens of the jobs that have not ended are not above the generation, while nothing has wrapped.
use roboparty_dexhand.Base.{
  ℕ, suc, ◌+◌, ◌%◌, ◌^◌, ◌≤◌, ◌<◌, ◌≡◌, refl, sym, ap, ◌∙◌, subst, Bool, true, false, Option, none,
  some, List, [], ◌∷◌, ◌++◌, All, if_ind, arith,
}
use roboparty_dexhand.Hand.Queue.{
  Job, State, next_generation, push_urgent, push_ordinary, take, finish, leave, close, start, Step,
  submits, takes, finishes, leaves, closes, joins, starts, opens, Reachable, begins, goes,
}
use roboparty_dexhand.Hand.Queue.Laws.{
  open_of, open_jobs, open_of-append, Submitted, urgently, ordinarily, submitted,
}

-- How many steps led to a state.
abbrev pub steps : {s : State} → Reachable s → ℕ
steps begins = 0
steps (goes r e) = suc (steps r)

-- What holds of a hand that has taken fewer than n steps: nothing has wrapped, and `closing` and
-- `worker_exit` go together.
pub record Young (n : ℕ) (s : State) : Type 0 where
  pub few : s.generation ≤ n
  pub old : All (λ j. j.token ≤ s.generation) (open_jobs s)
  pub together : s.worker_exit ≡ s.closing

older : (a b : ℕ) (js : List Job) → a ≤ b → All (λ j. j.token ≤ a) js → All (λ j. j.token ≤ b) js
older a b [] h all = tt
older a b (j ∷ js) h all = (omega (arith, h, all.0), older a b js h all.1)

old_append :
    (a : ℕ) (js : List Job) (j : Job)
    → All (λ k. k.token ≤ a) js
    → j.token ≤ a
    → All (λ k. k.token ≤ a) (js ++ j ∷ [])
old_append a [] j all h = (h, tt)
old_append a (k ∷ js) j all h = (all.0, old_append a js j all.1 h)

old_front :
    (a : ℕ) (r : Option Job) (q : List Job) (j : Job)
    → All (λ k. k.token ≤ a) (open_of r q)
    → j.token ≤ a
    → All (λ k. k.token ≤ a) (open_of r (j ∷ q))
old_front a none q j all h = (h, all)
old_front a (some k) q j all h = (all.0, (h, all.1))

no_queue_old :
    (a : ℕ) (r : Option Job) (q : List Job)
    → All (λ k. k.token ≤ a) (open_of r q)
    → All (λ k. k.token ≤ a) (open_of r [])
no_queue_old a none q h = tt
no_queue_old a (some j) q h = (h.0, tt)

next_one : (g n : ℕ) → g ≤ n → n + 1 < 2 ^ 64 → (g + 1) % 2 ^ 64 ≡ g + 1
next_one g n h low = omega (arith, h, low)

module _ (n : ℕ) (low : n + 1 < 2 ^ 64) where
  submit-Young : {s t : State} {urgent : Bool} → Young n s → Submitted s urgent t → Young (suc n) t
  unfolding push_urgent push_ordinary
  submit-Young {s} h (urgently on) =
      let few = h.few in
      let more = next_one s.generation n few low in
      let j : Job = record { token = next_generation s; urgent = true } in
      record {
        few = omega (arith, few, more);
        old =
            old_front (next_generation s) s.running s.queue j
              (older s.generation (next_generation s) (open_jobs s) (omega (arith, more)) h.old)
              (omega arith);
        together = h.together;
      }
  submit-Young {s} h (ordinarily on free none_urgent) =
      let few = h.few in
      let j : Job = record { token = s.generation; urgent = false } in
      record {
        few = omega (arith, few);
        old =
            subst (All (λ k. k.token ≤ s.generation)) (sym (open_of-append s.running s.queue j))
              (old_append s.generation (open_jobs s) j h.old (omega arith));
        together = h.together;
      }

  start-Young : {s : State} (ok : Bool) → Young n s → Young (suc n) (start s ok)
  unfolding start
  start-Young {s} true h =
      let few = h.few in
      let more = next_one s.generation n few low in
      let j : Job = record { token = next_generation s; urgent = false } in
      record {
        few = omega (arith, few, more);
        old =
            subst (All (λ k. k.token ≤ next_generation s))
              (sym (open_of-append s.running s.queue j))
              (old_append (next_generation s) (open_jobs s) j
                (older s.generation (next_generation s) (open_jobs s) (omega (arith, more)) h.old)
                (omega arith));
        together = refl;
      }
  start-Young {s} false h =
      let few = h.few in
      let more = next_one s.generation n few low in
      record {
        few = omega (arith, few, more);
        old =
            older s.generation (next_generation s) (open_of s.running []) (omega (arith, more))
              (no_queue_old s.generation s.running s.queue h.old);
        together = refl;
      }

  finish-Young :
      {s : State} (job : Job) → Young n s → s.running ≡ some job → Young (suc n) (finish s job)
  unfolding finish
  finish-Young {s} job h runs =
      let few = h.few in
      let all = subst (λ r. All (λ k. k.token ≤ s.generation) (open_of r s.queue)) runs h.old in
      if_ind (Young (suc n)) job.urgent
        (λ _. record { few = omega (arith, few); old = all.1; together = h.together })
        (λ _. record { few = omega (arith, few); old = all.1; together = h.together })

  Step-Young : {s t : State} → Young n s → Step s t → Young (suc n) t
  unfolding take leave close
  Step-Young {s} {t} h (submits urgent e) = submit-Young h (submitted s t urgent e)
  Step-Young {s} h (takes job rest up free front) =
      let few = h.few in
      let same : open_jobs s ≡ job ∷ rest = ap (λ r. open_of r s.queue) free ∙ front in
      record {
        few = omega (arith, few);
        old = subst (All (λ k. k.token ≤ s.generation)) same h.old;
        together = h.together;
      }
  Step-Young h (finishes job runs) = finish-Young job h runs
  Step-Young h (leaves up free empty gone) =
      let few = h.few in record { few = omega (arith, few); old = h.old; together = h.together }
  Step-Young {s} h closes =
      let few = h.few in
      let more = next_one s.generation n few low in
      record {
        few = omega (arith, few, more);
        old = older s.generation (next_generation s) (open_jobs s) (omega (arith, more)) h.old;
        together = refl;
      }
  Step-Young h (joins down) =
      let few = h.few in record { few = omega (arith, few); old = h.old; together = h.together }
  Step-Young h (starts ok down) = start-Young ok h
  Step-Young h (opens job connected runs) =
      let few = h.few in record { few = omega (arith, few); old = h.old; together = h.together }

pub Reachable-Young : {s : State} (r : Reachable s) → steps r < 2 ^ 64 → Young (steps r) s
Reachable-Young begins low = record { few = omega arith; old = tt; together = refl }
Reachable-Young (goes r e) low =
    Step-Young (steps r) (omega (arith, low)) (Reachable-Young r (omega (arith, low))) e
