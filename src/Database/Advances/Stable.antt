-- ===== src/Database/Advances/Stable.antt =====
-- packages/db/src/advances.ts, `recordStableSpendObservation`: a settled advance under further tips. The
-- clock is a natural number here; the tip's height and time are checked as the source checks them.
use arkade_taxi.Prelude.{
  ℕ, ◌+◌, Bool, false, not, ◌&&◌, ◌||◌, Option, none, some, Text, Result, ok, ◌>>=◌, if◌then◌else◌,
  ◌==◌, ltb, leb, text_eq, get_or,
}
use arkade_taxi.Prelude.Int.{pos, Number, int, in_range}
use arkade_taxi.Core.Types.{state_eq}
use arkade_taxi.Core.Ledger.{is_txid}
use arkade_taxi.Core.Submission.{Observation}
use arkade_taxi.Database.Advances.{StoredAdvance, AdvanceRow}
use arkade_taxi.Database.Advances.Store.{
  Store, AdvanceFailure, has_row_id, in_state, is_value, touched, get, changes_one, update_advances,
  pause,
}
use arkade_taxi.Database.Advances.Recovery.{or_missing}
use arkade_taxi.Database.Advances.Lockup.{seen_at}
use arkade_taxi.Database.Advances.Observation.{Outcome, outcome_state, tipped, disputed}
use arkade_taxi.Database.Advances.Messages.{
  disagreement_code, watcher_actor, Tip, stale_detail, below_detail, malformed_tip,
  malformed_persisted,
}

pub data StableResult : Type 0 where
  ignored advanced pending cleared contradicted : StableResult

abbrev max_safe : ℕ
max_safe = 9_007_199_254_740_991

abbrev value_of : Number → ℕ
value_of (int (pos n)) = n
value_of _ = 0

-- The tip that a call names, where it and the clock are well formed.
abbrev pub tip_in : ℕ → Text → Number → Number → Option Tip
tip_in at hash height time =
    if leb at max_safe && is_txid hash && in_range max_safe height && in_range max_safe time
    then some (record { hash = hash; height = value_of height })
    else none

-- The tip that the row keeps.
abbrev pub persisted_tip : Observation → Option Tip
persisted_tip o = elim o.observation_tip_hash [
  | none ↦ none
  | some hash ↦ elim o.observation_tip_height [
    | none ↦ none
    | some height ↦
        if is_txid hash && leb height max_safe
        then some (record { hash = hash; height = height })
        else none
  ]
]

abbrev pub same_tip : Tip → Tip → Bool
same_tip a b = text_eq a.hash b.hash && a.height == b.height

-- A tip below the one that is kept, another at its height, or the same hash above it.
abbrev pub is_stale : Tip → Tip → Bool
is_stale tip previous =
    ltb tip.height previous.height
    || (tip.height == previous.height && not (text_eq tip.hash previous.hash))
    || (ltb previous.height tip.height && text_eq tip.hash previous.hash)

abbrev pub is_below : Tip → Tip → Bool
is_below tip previous =
    ltb tip.height previous.height
    || (ltb previous.height tip.height && text_eq tip.hash previous.hash)

-- What the `WHERE` of every statement of the call asks of the row.
abbrev pub is_settled_row : Text → Outcome → Text → AdvanceRow → Bool
is_settled_row id outcome txid r =
    has_row_id id r && in_state (outcome_state outcome) r && is_value r.spent_txid txid

abbrev pub is_height : Option ℕ → ℕ → Bool
is_height none n = false
is_height (some m) n = m == n

abbrev keeps_tip : Tip → AdvanceRow → Bool
keeps_tip previous r =
    is_value r.observation.observation_tip_hash previous.hash
    && is_height r.observation.observation_tip_height previous.height

-- The inner function `disagree`.
unfoldable pub disagree : Text → Outcome → Text → Text → ℕ → ℕ → Store → StableResult × Store
disagree id outcome txid reason at wall_clock db =
    if changes_one (is_settled_row id outcome txid) db
    then (
      contradicted,
      pause watcher_actor wall_clock
          (update_advances (is_settled_row id outcome txid) (disputed reason at) db),
    )
    else (ignored, update_advances (is_settled_row id outcome txid) (disputed reason at) db)

abbrev pub is_disputed : Option Text → Bool
is_disputed code = is_value code disagreement_code

-- `WHERE` and `SET` of a tip that follows the one that is kept.
unfoldable pub is_following : Text → Outcome → Text → Tip → AdvanceRow → Bool
is_following id outcome txid previous r =
    is_settled_row id outcome txid r
    && keeps_tip previous r
    && not (is_disputed r.observation.failure_code)

unfoldable pub followed : Tip → ℕ → AdvanceRow → AdvanceRow
unfolding touched
followed tip at r = touched at (tipped tip.hash tip.height (seen_at at r))

-- `WHERE` and `SET` of a tip that is weighed against a disagreement.
unfoldable pub is_weighed : Text → Outcome → Text → Tip → ℕ → AdvanceRow → Bool
is_weighed id outcome txid previous count r =
    is_settled_row id outcome txid r
    && is_disputed r.observation.failure_code
    && keeps_tip previous r
    && r.observation.observation_stable_count == count

unfoldable pub weighed : Bool → Tip → ℕ → ℕ → AdvanceRow → AdvanceRow
unfolding touched
weighed is_cleared tip count at r = touched at (
    seen_at at (record r {
      observation = record r.observation {
        observation_stable_tip_hash = if is_cleared then none else some tip.hash;
        observation_stable_tip_height = if is_cleared then none else some tip.height;
        observation_stable_count = if is_cleared then 0 else count;
        observation_tip_hash =
            if is_cleared then some tip.hash else r.observation.observation_tip_hash;
        observation_tip_height =
            if is_cleared then some tip.height else r.observation.observation_tip_height;
        failure_code = if is_cleared then none else r.observation.failure_code;
        failure_detail = if is_cleared then none else r.observation.failure_detail;
      };
    }))

-- The number of calls in a row, this one included, that have named the tip.
abbrev pub stable_count : Observation → Tip → ℕ
stable_count o tip =
    if is_value o.observation_stable_tip_hash tip.hash
      && is_height o.observation_stable_tip_height tip.height
    then get_or o.observation_stable_count 0 + 1
    else 1

unfoldable pub follow : Text → Outcome → Text → ℕ → Tip → Tip → ℕ → Store → StableResult × Store
follow id outcome txid at tip previous wall_clock db =
    if is_stale tip previous
    then disagree id outcome txid (stale_detail tip.hash tip.height) at wall_clock db
    else if same_tip previous tip
    then (ignored, db)
    else (
      if changes_one (is_following id outcome txid previous) db then advanced else ignored,
      update_advances (is_following id outcome txid previous) (followed tip at) db,
    )

unfoldable pub weigh :
    Text → Outcome → Text → ℕ → Tip → Tip → Observation → ℕ → Store → StableResult × Store
weigh id outcome txid at tip previous o wall_clock db =
    let count = stable_count o tip in
    let is_cleared = leb 2 count in
    let p = is_weighed id outcome txid previous (get_or o.observation_stable_count 0) in
    if is_below tip previous
    then disagree id outcome txid (below_detail tip.hash tip.height previous.hash previous.height)
        at wall_clock db
    else (
      if changes_one p db then (if is_cleared then cleared else pending) else ignored,
      update_advances p (weighed is_cleared tip count at) db,
    )

unfoldable pub stable_current :
    Text → Outcome → Text → ℕ → Option Tip → ℕ → StoredAdvance → Store → StableResult × Store
stable_current id outcome txid at tip wall_clock current db =
    let o = current.progress.observation in
    if not (state_eq current.core.state (outcome_state outcome))
      || not (is_value current.core.spent_txid txid)
    then (ignored, db)
    else elim tip [
      | none ↦ disagree id outcome txid malformed_tip at wall_clock db
      | some t ↦ elim (persisted_tip o) [
        | none ↦ disagree id outcome txid malformed_persisted at wall_clock db
        | some previous ↦
            if not (is_disputed o.failure_code)
            then follow id outcome txid at t previous wall_clock db
            else weigh id outcome txid at t previous o wall_clock db
      ]
    ]

unfoldable pub record_stable_spend_observation :
    Text
    → Outcome
    → Text
    → ℕ
    → Text
    → Number
    → Number
    → ℕ
    → Store
    → Result AdvanceFailure (StableResult × Store)
record_stable_spend_observation id outcome txid at hash height time wall_clock db = do
  found ← get db id
  current ← or_missing found
  ok (stable_current id outcome txid at (tip_in at hash height time) wall_clock current db)
