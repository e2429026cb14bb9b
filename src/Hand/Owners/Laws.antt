-- ===== src/Hand/Owners/Laws.antt =====
-- No two hands of a process own the same device.
use roboparty_dexhand.Base.{
  ℕ, ◌+◌, ◌≤◌, ◌<◌, ◌≡◌, ◌≢◌, ◌⊎◌, refl, sym, ap, subst, Bool, true, false, not, List, ◌∷◌,
  if◌then◌else◌, if_ind, get_or, set, length, get_or-set_self, length-set, All, Bool-cases, inl,
  inr, arith,
}
use roboparty_dexhand.Hand.Owners.Keys.{
  Key, eq_key, eq_key_iff, contains, count, contains-count, count-erase,
}
use roboparty_dexhand.Hand.Owners.{
  Worker, absent, running, ended, joinable, Holder, Process, nobody, hand, cleanup, claim,
  with_worker, Step, claims, gives_up, ends, joins, Reachable, here, next,
}
use roboparty_dexhand.Hand.Owners.Counting.{
  holds, owning, owning-set, Busy, All-get_or, All-set, All-set_twice, inside, inside_owner,
  owning_none, busy_none, owning_two, holds_own,
}

-- A key is there exactly while one hand owns it.
pub record Counted (p : Process) : Type 0 where
  pub counts : (k : Key) → count k p.owners ≡ owning k p.hands
  pub single : (k : Key) → count k p.owners ≤ 1

pub record Sound (p : Process) : Type 0 where
  pub counted : Counted p
  pub busy : All Busy p.hands

cleanup-Counted : (p : Process) (i : ℕ) → Counted p → Counted (cleanup p i)
unfolding cleanup
cleanup-Counted p i h =
    let x = hand p i in
    if_ind Counted x.owns
      (λ owned. record {
        counts = λ k. ground (
          arith,
          h.counts k,
          owning-set k p.hands i (record x { owns = false }) (inside_owner p.hands i owned),
          count-erase k x.key p.owners,
          owned,
        );
        single = λ k. ground (arith, h.single k, count-erase k x.key p.owners);
      })
      (λ _. h)

cleanup_busy : (p : Process) (i : ℕ) → All Busy p.hands → All Busy (cleanup p i).hands
unfolding cleanup
cleanup_busy p i h =
    if_ind (λ (q : Process). All Busy q.hands) (hand p i).owns
      (λ _. All-set p.hands i (record (hand p i) { owns = false }) refl h) (λ _. h)

cleanup-Sound : (p : Process) (i : ℕ) → Sound p → Sound (cleanup p i)
cleanup-Sound p i h = record {
  counted = cleanup-Counted p i h.counted;
  busy = cleanup_busy p i h.busy;
}

-- A hand that does not own is changed and still does not own.
change-Counted :
    (p : Process) (i : ℕ) (x : Holder)
    → i < length p.hands
    → (hand p i).owns ≡ false
    → x.owns ≡ false
    → Counted p
    → Counted (record p { hands = set p.hands i x })
change-Counted p i x low old free h = record {
  counts = λ k. ground (arith, h.counts k, owning-set k p.hands i x low, old, free);
  single = h.single;
}

count_added :
    (xs : List Key) (k j : Key)
    → contains xs k ≡ false
    → count j xs ≤ 1
    → (if eq_key k j then 1 else 0) + count j xs ≤ 1
count_added xs k j free few = elim (Bool-cases (eq_key k j)) [
  | inl e ↦
      let same = (eq_key_iff k j).0 e in
      let gone : count j xs ≡ 0 = subst (λ x. count x xs ≡ 0) same (contains-count xs k free) in
      rw e (omega (arith, gone))
  | inr e ↦ rw e (omega (arith, few))
]

-- A hand takes a key that nobody owns.
own-Counted :
    (p : Process) (i : ℕ) (k : Key) (w : Worker)
    → i < length p.hands
    → (hand p i).owns ≡ false
    → contains p.owners k ≡ false
    → Counted p
    → Counted (record {
      owners = k ∷ p.owners;
      hands = set p.hands i (record { owns = true; key = k; worker = w });
    })
own-Counted p i k w low old free h = record {
  counts = λ j. ground (
    arith,
    h.counts j,
    owning-set j p.hands i (record { owns = true; key = k; worker = w }) low,
    old,
  );
  single = λ j. count_added p.owners k j free (h.single j);
}

idle_owns : (h : Holder) → Busy h → joinable h.worker ≡ false → h.owns ≡ false
idle_owns h b j = ground (arith, b, j)

owns_set :
    (hs : List Holder) (i : ℕ) (g : Holder)
    → i < length hs
    → (get_or (set hs i g) i nobody).owns ≡ g.owns
owns_set hs i g low = ap (λ (h : Holder). h.owns) (get_or-set_self hs i g nobody low)

failed_busy :
    (hs : List Holder) (owners : List Key) (i : ℕ) (g : Holder)
    → i < length hs
    → g.owns ≡ true
    → All Busy hs
    → All Busy (cleanup (record { owners = owners; hands = set hs i g }) i).hands
unfolding cleanup
failed_busy hs owners i g low owned h =
    if_ind (λ (q : Process). All Busy q.hands) (get_or (set hs i g) i nobody).owns
      (λ _. All-set_twice hs i g (record (get_or (set hs i g) i nobody) { owns = false }) refl h)
      (λ e. let same = owns_set hs i g low in absurd (ground (arith, e, same, owned)))

claim-Sound :
    (p : Process) (i : ℕ) (k : Key) (starts : Bool)
    → i < length p.hands
    → Sound p
    → Sound (claim p i k starts).0
unfolding claim
claim-Sound p i k starts low h =
    let x = hand p i in
    let P = λ (r : Process × Bool). Sound r.0 in
    if_ind P (joinable x.worker) (λ _. h)
      λ idle.
        let old = idle_owns x (All-get_or p.hands i h.busy) idle in
        if_ind P (contains p.owners k)
          (λ _. record {
            counted = change-Counted p i (record x { key = k }) low old old h.counted;
            busy = All-set p.hands i (record x { key = k }) (All-get_or p.hands i h.busy) h.busy;
          })
          λ free.
            if_ind P (not starts)
              (λ _. record {
                counted = cleanup-Counted _ i (own-Counted p i k x.worker low old free h.counted);
                busy =
                    failed_busy p.hands (k ∷ p.owners) i
                      (record { owns = true; key = k; worker = x.worker }) low refl h.busy;
              })
              (λ _. record {
                counted = own-Counted p i k running low old free h.counted;
                busy =
                    All-set p.hands i (record { owns = true; key = k; worker = running }) refl
                      h.busy;
              })

is_joinable : (h : Holder) → (h.worker ≡ running) ⊎ (h.worker ≡ ended) → joinable h.worker ≡ true
is_joinable h (inl e) = ap joinable e
is_joinable h (inr e) = ap joinable e

-- The worker of a hand that does not own changes.
worker-Sound :
    (p : Process) (i : ℕ) (w : Worker)
    → i < length p.hands
    → (hand p i).owns ≡ false
    → Sound p
    → Sound (with_worker p i w)
worker-Sound p i w low old h = record {
  counted = change-Counted p i (record (hand p i) { worker = w }) low old old h.counted;
  busy = All-set p.hands i (record (hand p i) { worker = w }) (ground (arith, old)) h.busy;
}

cleaned :
    (p : Process) (i : ℕ)
    → i < length p.hands
    → (i < length (cleanup p i).hands) × ((hand (cleanup p i) i).owns ≡ false)
unfolding cleanup
cleaned p i low =
    if_ind (λ (q : Process). (i < length q.hands) × ((hand q i).owns ≡ false)) (hand p i).owns
      (λ _. (
        omega (arith, low, length-set p.hands i (record (hand p i) { owns = false })),
        owns_set p.hands i (record (hand p i) { owns = false }) low,
      ))
      (λ e. (low, e))

ended_free : (h : Holder) → Busy h → h.worker ≡ ended → h.owns ≡ false
ended_free h b e = ground (arith, b, e)

Step-Sound : {p q : Process} → Step p q → Sound p → Sound q
Step-Sound (claims p i k starts low) h = claim-Sound p i k starts low h
Step-Sound (gives_up p i e) h = cleanup-Sound p i h
Step-Sound (ends p i e) h =
    let low = inside p.hands i (is_joinable (hand p i) (inl e)) in
    let (low', free) = cleaned p i low in
    worker-Sound (cleanup p i) i ended low' free (cleanup-Sound p i h)
Step-Sound (joins p i e) h =
    let low = inside p.hands i (is_joinable (hand p i) (inr e)) in
    worker-Sound p i absent low (ended_free (hand p i) (All-get_or p.hands i h.busy) e) h

Reachable-Sound : (n : ℕ) (p : Process) → Reachable n p → Sound p
Reachable-Sound n p here = record {
  counted = record { counts = λ k. sym (owning_none k n); single = λ k. omega arith };
  busy = busy_none n;
}
Reachable-Sound n p (next r step) = Step-Sound step (Reachable-Sound n _ r)

-- In every state that the hands of a process reach, in any order of connects, failures and ends of
-- their workers, two hands that own a device own different devices.
pub owners_differ :
    (n : ℕ) (p : Process) (i j : ℕ)
    → Reachable n p
    → i ≢ j
    → (hand p i).owns ≡ true
    → (hand p j).owns ≡ true
    → (hand p i).key ≢ (hand p j).key
owners_differ n p i j r differ a b same =
    let c = (Reachable-Sound n p r).counted in
    let k = (hand p i).key in
    let other : holds k (hand p j) ≡ 1 =
      subst (λ x. holds x (hand p j) ≡ 1) (sym same) (holds_own (hand p j) b) in
    let two = owning_two k p.hands i j differ (holds_own (hand p i) a) other in
    let counts = c.counts k in
    let single = c.single k in absurd (omega (arith, two, counts, single))
