-- ===== src/Hand/Parameter/Laws.antt =====
-- What a confirmed parameter has read back.
use roboparty_dexhand.Base.{
  ℕ, zero, suc, ◌≡◌, Bool, true, not, ◌&&◌, List, [], ◌∷◌, ◌==◌, if_ind, ℤ, eq_ℤ, All, arith,
}
use roboparty_dexhand.Hand.World.{World, Trace, Event, Operation, cancelled, command, reads_cache}
use roboparty_dexhand.Hand.Configure.Laws.{Happened, here, before}
use roboparty_dexhand.Hand.Parameter.{
  Kind, setter, getter, ids, read_caches, apply_for, parameter_attempts, parameter,
}

-- The cache of this axis was read without an error and held the value.
pub data ReadsBack (op : Operation) (value : ℤ) : Event → Type 0 where
  reads_back :
      (cached : ℤ) → eq_ℤ cached value ≡ true → ReadsBack op value (reads_cache op 0 cached)

parts : (rc : ℕ) (b c : Bool) → ((rc == 0) && b && c) ≡ true → (rc ≡ 0) × (b ≡ true) × (c ≡ true)
parts rc b c e = ground arith

noted :
    (op : Operation) (value : ℤ) (rc : ℕ) (cached : ℤ)
    → rc ≡ 0
    → eq_ℤ cached value ≡ true
    → ReadsBack op value (reads_cache op rc cached)
noted op value rc cached e h = rw e (reads_back cached h)

first : (a b : Bool) → (a && b) ≡ true → a ≡ true
first a b e = ground arith

module _ (w : World) (kind : Kind) (value : ℤ) where
  Happened-read_caches :
      {P : Event → Type 0} (rest : List ℕ) (ok : Bool) (tr : Trace)
      → Happened P tr
      → Happened P (read_caches w kind value rest ok tr).1
  unfolding read_caches
  Happened-read_caches [] ok tr h = h
  Happened-read_caches (id ∷ rest) ok tr h = Happened-read_caches rest _ _ (before h)

  -- `ok` is only ever cleared.
  read_caches-ok :
      (rest : List ℕ) (ok : Bool) (tr : Trace)
      → (read_caches w kind value rest ok tr).0 ≡ true
      → ok ≡ true
  unfolding read_caches
  read_caches-ok [] ok tr z = z
  read_caches-ok (id ∷ rest) ok tr z =
      (parts (w.code tr (getter kind id)) (eq_ℤ (w.cached tr (getter kind id)) value) ok
        (read_caches-ok rest _ _ z)).2

  read_caches-back :
      (rest : List ℕ) (ok : Bool) (tr : Trace)
      → (read_caches w kind value rest ok tr).0 ≡ true
      → All
          (λ id.
            Happened (ReadsBack (getter kind id) value) (read_caches w kind value rest ok tr).1)
          rest
  unfolding read_caches
  read_caches-back [] ok tr z = tt
  read_caches-back (id ∷ rest) ok tr z =
      let op = getter kind id in
      let (code, same, _) =
        parts (w.code tr op) (eq_ℤ (w.cached tr op) value) ok (read_caches-ok rest _ _ z) in
      (
        Happened-read_caches rest _ _
            (here (noted op value (w.code tr op) (w.cached tr op) code same)),
        read_caches-back rest _ _ z,
      )

  All-before :
      (e : Event) (rest : List ℕ) (tr : Trace)
      → All (λ id. Happened (ReadsBack (getter kind id) value) tr) rest
      → All (λ id. Happened (ReadsBack (getter kind id) value) (e ∷ tr)) rest
  All-before e [] tr h = tt
  All-before e (id ∷ rest) tr h = (before h.0, All-before e rest tr h.1)

  attempts-back :
      (left : ℕ) (tr : Trace)
      → (parameter_attempts w left kind value tr).0 ≡ true
      → All
          (λ id.
            Happened (ReadsBack (getter kind id) value) (parameter_attempts w left kind value tr).1)
          (ids kind)
  unfolding parameter_attempts cancelled
  attempts-back zero tr = λ z. absurd (ground arith)
  attempts-back (suc left) tr =
      let Q = λ (q : Bool × Trace).
        q.0 ≡ true → All (λ id. Happened (ReadsBack (getter kind id) value) q.1) (ids kind) in
      let t1 = (cancelled w tr).1 in
      let (sent, t2) = command w (setter kind value) t1 in
      let (applied, t3) = apply_for w kind sent t2 in
      let (ok, t4) = read_caches w kind value (ids kind) applied t3 in
      if_ind Q (cancelled w tr).0 (λ _ z. absurd (ground arith))
        λ _.
          if_ind Q (ok && not (cancelled w t4).0)
            (λ e z.
              All-before _ (ids kind) t4
                (read_caches-back (ids kind) applied t3 (first ok (not (cancelled w t4).0) e)))
            λ _. attempts-back left _

  -- When `parameter` reports success, the cache of every axis that it asks about was read without an
  -- error and held the value.
  pub parameter-ReadsBack :
      (tr : Trace)
      → (parameter w kind value tr).0 ≡ true
      → All
          (λ id. Happened (ReadsBack (getter kind id) value) (parameter w kind value tr).1)
          (ids kind)
  unfolding parameter
  parameter-ReadsBack tr = attempts-back 30 tr
