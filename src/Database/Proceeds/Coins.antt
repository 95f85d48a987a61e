-- ===== src/Database/Proceeds/Coins.antt =====
-- packages/db/src/proceeds.ts: the coins that a new job holds.
use arkade_taxi.Prelude.{
  ◌≡◌, refl, sym, ◌∙◌, false, not, ◌||◌, Option, List, [], ◌∷◌, ◌++◌, map, Text, ok, throw_if,
  >>-eq-ok, >>=-eq-ok, throw_if-eq-ok, ok-injective, any, arith, subst, ℕ, is_some, text_eq,
  text_eq_iff, inl, inr, Bool-cases,
}
use arkade_taxi.Prelude.Int.{in_range, Number}
use arkade_taxi.Core.Types.{Outpoint}
use arkade_taxi.Database.Advances.Lockup.{same_number}
use arkade_taxi.Database.Reservations.{
  Desk, HeldCoin, same_coin, coin_of, held_coin, all_reserved_outpoints, expire_receive_quotes,
}
use arkade_taxi.Database.Reservations.Reserving.{is_stale_selection}
use arkade_taxi.Database.Reservations.Coins.{
  IsApart, expire-IsApart, any-append, any-coin_of, any-held_coin,
}
use arkade_taxi.Database.Proceeds.{
  ProceedsPlan, Office, input_reserved, constraint_failed, already_active, reservation_changed,
  inputs_empty, active, is_job,
}
use arkade_taxi.Database.Proceeds.Jobs.{hold_inputs, has_no_inputs, create}

same_number_comm : (a b : Number) → same_number a b ≡ same_number b a
same_number_comm a b = ground arith

text_eq_comm : (a b : Text) → text_eq a b ≡ text_eq b a
text_eq_comm a b = elim (Bool-cases (text_eq a b)) [
  | inl same ↦ same ∙ sym ((text_eq_iff b a).1 (sym ((text_eq_iff a b).0 same)))
  | inr apart ↦ elim (Bool-cases (text_eq b a)) [
    | inr apart' ↦ apart ∙ sym apart'
    | inl same ↦ (text_eq_iff a b).1 (sym ((text_eq_iff b a).0 same)) ∙ sym same
  ]
]

same_coin_comm : (a b : Outpoint) → same_coin a b ≡ same_coin b a
same_coin_comm a b = rw (text_eq_comm a.txid b.txid, same_number_comm a.vout b.vout) refl

-- A coin that is nowhere in a list can stand in the middle of it.
IsApart-between :
    (c : Outpoint) (xs ys : List Outpoint)
    → any (same_coin c) xs ≡ false
    → any (same_coin c) ys ≡ false
    → IsApart (xs ++ ys)
    → IsApart (xs ++ c ∷ ys)
IsApart-between c [] ys before after h = (after, h)
IsApart-between c (x ∷ xs) ys before after (free, h) = (
  any-append (same_coin x) xs (c ∷ ys)
      ∙ ground (arith, same_coin_comm x c, any-append (same_coin x) xs ys),
  IsApart-between c xs ys (ground arith) after h,
)

-- The coins that the fills and the receive quotes hold.
abbrev others : Desk → List Outpoint
others desk = map held_coin desk.fill_coins ++ map held_coin desk.receive_coins

abbrev all_with : Desk → List HeldCoin → List Outpoint
all_with desk held = map coin_of desk.store.operator_inputs ++ (map held_coin held ++ others desk)

hold_inputs-IsApart :
    (id : Text) (desk : Desk) (cs : List Outpoint) (held held' : List HeldCoin)
    → hold_inputs id desk cs held ≡ ok held'
    → IsApart (all_with desk held)
    → IsApart (all_with desk held')
unfolding hold_inputs
hold_inputs-IsApart id desk [] held held' e h =
    subst (λ l. IsApart (all_with desk l)) (ok-injective e) h
hold_inputs-IsApart id desk (c ∷ cs) held held' e h =
    let (operator, e1) =
      >>-eq-ok
        (throw_if (any (λ q. same_coin c (coin_of q)) desk.store.operator_inputs) input_reserved) _
        e in
    let (fill, e2) =
      >>-eq-ok (throw_if (any (λ t. same_coin c (held_coin t)) desk.fill_coins) input_reserved) _
        e1 in
    let (receive, e3) =
      >>-eq-ok (throw_if (any (λ t. same_coin c (held_coin t)) desk.receive_coins) input_reserved) _
        e2 in
    let (fresh, e4) =
      >>-eq-ok
        (throw_if (not (in_range 0xffff_ffff c.vout) || any (λ t. same_coin c (held_coin t)) held)
          constraint_failed)
        _ e3 in
    let no_operator = any-coin_of c desk.store.operator_inputs ∙ throw_if-eq-ok _ _ operator in
    let no_fill = any-held_coin c desk.fill_coins ∙ throw_if-eq-ok _ _ fill in
    let no_receive = any-held_coin c desk.receive_coins ∙ throw_if-eq-ok _ _ receive in
    let new_coin = throw_if-eq-ok _ _ fresh in
    let no_other : any (same_coin c) (map held_coin held ++ others desk) ≡ false =
      any-append (same_coin c) (map held_coin held) (others desk)
      ∙ rw
          (
            any-append (same_coin c) (map held_coin desk.fill_coins)
                (map held_coin desk.receive_coins),
            no_fill,
            no_receive,
            any-held_coin c held,
          )
          (ground arith) in
    hold_inputs-IsApart id desk cs (record { coin = c; holder = id } ∷ held) held' e4 (
      IsApart-between c (map coin_of desk.store.operator_inputs) (map held_coin held ++ others desk)
        no_operator no_other h)

-- A new job takes no coin that is held already, by an advance, a receive quote, a fill or a job, and no
-- coin twice: where no coin was held twice before, none is afterwards.
pub create-IsApart :
    (id : Text) (plan : ProceedsPlan) (at : ℕ) (reserved : Option (List Outpoint))
    (office after : Office)
    → create id plan at reserved office ≡ ok after
    → IsApart (all_reserved_outpoints office.desk)
    → IsApart (all_reserved_outpoints after.desk)
unfolding create all_reserved_outpoints
create-IsApart id plan at reserved office after e h =
    let desk = expire_receive_quotes at office.desk in
    let (_, e1) = >>-eq-ok (throw_if (is_some (active office)) already_active) _ e in
    let (_, e2) = >>-eq-ok (throw_if (is_stale_selection reserved desk) reservation_changed) _ e1 in
    let (_, e3) = >>-eq-ok (throw_if (has_no_inputs plan.inputs) inputs_empty) _ e2 in
    let (_, e4) = >>-eq-ok (throw_if (any (is_job id) office.jobs) constraint_failed) _ e3 in
    let (held, taken, e5) = >>=-eq-ok (hold_inputs id desk plan.inputs desk.proceeds_coins) _ e4 in
    subst (λ (o : Office). IsApart (all_with o.desk o.desk.proceeds_coins)) (ok-injective e5)
      (hold_inputs-IsApart id desk plan.inputs desk.proceeds_coins held taken
        (expire-IsApart at office.desk h))
