-- ===== src/Hand/Owners/Examples.antt =====
-- Two hands on one interface, with two node numbers.
use roboparty_dexhand.Base.{◌≡◌, ◌≢◌, refl, true, false, pos, arith}
use roboparty_dexhand.Hand.Owners.Keys.{contains}
use roboparty_dexhand.Hand.Owners.{
  Process, hand, owner_key, claim, claims, begin, Reachable, here, next,
}
use roboparty_dexhand.Hand.Owners.Laws.{owners_differ}

abbrev first : Process
first = (claim (begin 2) 0 (owner_key false "can0" (pos 1)) true).0

abbrev second : Process
second = (claim first 1 (owner_key false "can0" (pos 2)) true).0

reached : Reachable 2 second
unfolding claim contains
reached =
    next (next here (claims (begin 2) 0 (owner_key false "can0" (pos 1)) true (omega arith)))
      (claims first 1 (owner_key false "can0" (pos 2)) true (omega arith))

first_owns : (hand second 0).owns ≡ true
unfolding claim contains owner_key
first_owns = refl

second_owns : (hand second 1).owns ≡ true
unfolding claim contains owner_key
second_owns = refl

owners_differ_example : (hand second 0).key ≢ (hand second 1).key
owners_differ_example =
    owners_differ 2 second 0 1 reached (λ e. absurd (omega (arith, e))) first_owns second_owns

-- The same device again is refused.
refused : (claim first 1 (owner_key false "can0" (pos 1)) true).1 ≡ false
unfolding claim contains owner_key
refused = refl
