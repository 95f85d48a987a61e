-- ===== src/Database/Advances/Messages.antt =====
-- packages/db/src/advances.ts: the failure codes of an observation, and the details beside them.
use arkade_taxi.Prelude.{ℕ, Option, [], ◌∷◌, ◌++◌, Text, get_or}
use arkade_taxi.Prelude.Decimal.{to_decimal}
use arkade_taxi.Core.Types.{
  AdvanceState, quoted, locking, locked, recovering, recycled, purchased, refunded, recovered,
  expired,
}

abbrev pub state_name : AdvanceState → Text
state_name quoted = b'q' ∷ b'u' ∷ b'o' ∷ b't' ∷ b'e' ∷ b'd' ∷ []
state_name locking = b'l' ∷ b'o' ∷ b'c' ∷ b'k' ∷ b'i' ∷ b'n' ∷ b'g' ∷ []
state_name locked = b'l' ∷ b'o' ∷ b'c' ∷ b'k' ∷ b'e' ∷ b'd' ∷ []
state_name recovering = b'r' ∷ b'e' ∷ b'c' ∷ b'o' ∷ b'v' ∷ b'e' ∷ b'r' ∷ b'i' ∷ b'n' ∷ b'g' ∷ []
state_name recycled = b'r' ∷ b'e' ∷ b'c' ∷ b'y' ∷ b'c' ∷ b'l' ∷ b'e' ∷ b'd' ∷ []
state_name purchased = b'p' ∷ b'u' ∷ b'r' ∷ b'c' ∷ b'h' ∷ b'a' ∷ b's' ∷ b'e' ∷ b'd' ∷ []
state_name refunded = b'r' ∷ b'e' ∷ b'f' ∷ b'u' ∷ b'n' ∷ b'd' ∷ b'e' ∷ b'd' ∷ []
state_name recovered = b'r' ∷ b'e' ∷ b'c' ∷ b'o' ∷ b'v' ∷ b'e' ∷ b'r' ∷ b'e' ∷ b'd' ∷ []
state_name expired = b'e' ∷ b'x' ∷ b'p' ∷ b'i' ∷ b'r' ∷ b'e' ∷ b'd' ∷ []

abbrev pub spend_unknown : Text
spend_unknown =
    b'c' ∷ b'o' ∷ b'v' ∷ b'e' ∷ b'n' ∷ b'a' ∷ b'n' ∷ b't' ∷ b'_' ∷ b's' ∷ b'p' ∷ b'e' ∷ b'n' ∷ b'd'
    ∷ b'_' ∷ b'u' ∷ b'n' ∷ b'k' ∷ b'n' ∷ b'o' ∷ b'w' ∷ b'n' ∷ []

abbrev pub covenant_unrolled : Text
covenant_unrolled =
    b'c' ∷ b'o' ∷ b'v' ∷ b'e' ∷ b'n' ∷ b'a' ∷ b'n' ∷ b't' ∷ b'_' ∷ b'u' ∷ b'n' ∷ b'r' ∷ b'o' ∷ b'l'
    ∷ b'l' ∷ b'e' ∷ b'd' ∷ []

abbrev pub disagreement_code : Text
disagreement_code =
    b'c' ∷ b'o' ∷ b'v' ∷ b'e' ∷ b'n' ∷ b'a' ∷ b'n' ∷ b't' ∷ b'_' ∷ b'o' ∷ b'b' ∷ b's' ∷ b'e' ∷ b'r'
    ∷ b'v' ∷ b'a' ∷ b't' ∷ b'i' ∷ b'o' ∷ b'n' ∷ b'_' ∷ b'd' ∷ b'i' ∷ b's' ∷ b'a' ∷ b'g' ∷ b'r'
    ∷ b'e' ∷ b'e' ∷ b'm' ∷ b'e' ∷ b'n' ∷ b't' ∷ []

abbrev pub watcher_actor : Text
watcher_actor =
    b's' ∷ b'p' ∷ b'e' ∷ b'n' ∷ b'd' ∷ b'-' ∷ b'w' ∷ b'a' ∷ b't' ∷ b'c' ∷ b'h' ∷ b'e' ∷ b'r' ∷ []

-- A canonical tip, in its own words.
pub record Tip : Type 0 where
  pub hash : Text
  pub height : ℕ

unfoldable pub tip_text : Text → ℕ → Text
tip_text hash height = hash ++ b':' ∷ to_decimal height

abbrev canonical_spend : Text
canonical_spend =
    b'c' ∷ b'a' ∷ b'n' ∷ b'o' ∷ b'n' ∷ b'i' ∷ b'c' ∷ b'a' ∷ b'l' ∷ b' ' ∷ b's' ∷ b'p' ∷ b'e' ∷ b'n'
    ∷ b'd' ∷ b' ' ∷ []

abbrev pub classified : Text
classified = b' ' ∷ b'c' ∷ b'l' ∷ b'a' ∷ b's' ∷ b's' ∷ b'i' ∷ b'f' ∷ b'i' ∷ b'e' ∷ b'd' ∷ b' ' ∷ []

abbrev pub at_tip : Text
at_tip = b' ' ∷ b'a' ∷ b't' ∷ b' ' ∷ []

abbrev pub conflicts : Text
conflicts =
    b' ' ∷ b'c' ∷ b'o' ∷ b'n' ∷ b'f' ∷ b'l' ∷ b'i' ∷ b'c' ∷ b't' ∷ b's' ∷ b' ' ∷ b'w' ∷ b'i' ∷ b't'
    ∷ b'h' ∷ b' ' ∷ b'p' ∷ b'e' ∷ b'r' ∷ b's' ∷ b'i' ∷ b's' ∷ b't' ∷ b'e' ∷ b'd' ∷ b' ' ∷ []

abbrev pub no_txid : Text
no_txid = b'n' ∷ b'o' ∷ b'n' ∷ b'e' ∷ []

abbrev pub candidate : Text
candidate = b'c' ∷ b'a' ∷ b'n' ∷ b'd' ∷ b'i' ∷ b'd' ∷ b'a' ∷ b't' ∷ b'e' ∷ b' ' ∷ []

abbrev pub unavailable : Text
unavailable = b'u' ∷ b'n' ∷ b'a' ∷ b'v' ∷ b'a' ∷ b'i' ∷ b'l' ∷ b'a' ∷ b'b' ∷ b'l' ∷ b'e' ∷ []

abbrev pub stale_tip : Text
stale_tip =
    b's' ∷ b't' ∷ b'a' ∷ b'l' ∷ b'e' ∷ b' ' ∷ b'o' ∷ b'r' ∷ b' ' ∷ b'c' ∷ b'o' ∷ b'n' ∷ b't' ∷ b'r'
    ∷ b'a' ∷ b'd' ∷ b'i' ∷ b'c' ∷ b't' ∷ b'o' ∷ b'r' ∷ b'y' ∷ b' ' ∷ b'c' ∷ b'a' ∷ b'n' ∷ b'o'
    ∷ b'n' ∷ b'i' ∷ b'c' ∷ b'a' ∷ b'l' ∷ b' ' ∷ b't' ∷ b'i' ∷ b'p' ∷ b' ' ∷ []

abbrev pub conflicts_observation : Text
conflicts_observation =
    b' ' ∷ b'c' ∷ b'o' ∷ b'n' ∷ b'f' ∷ b'l' ∷ b'i' ∷ b'c' ∷ b't' ∷ b's' ∷ b' ' ∷ b'w' ∷ b'i' ∷ b't'
    ∷ b'h' ∷ b' ' ∷ b'p' ∷ b'e' ∷ b'r' ∷ b's' ∷ b'i' ∷ b's' ∷ b't' ∷ b'e' ∷ b'd' ∷ b' ' ∷ b'o'
    ∷ b'b' ∷ b's' ∷ b'e' ∷ b'r' ∷ b'v' ∷ b'a' ∷ b't' ∷ b'i' ∷ b'o' ∷ b'n' ∷ []

abbrev pub stable_candidate : Text
stable_candidate =
    b's' ∷ b't' ∷ b'a' ∷ b'b' ∷ b'l' ∷ b'e' ∷ b' ' ∷ b'c' ∷ b'a' ∷ b'n' ∷ b'd' ∷ b'i' ∷ b'd' ∷ b'a'
    ∷ b't' ∷ b'e' ∷ b' ' ∷ []

abbrev pub contradicts : Text
contradicts =
    b' ' ∷ b'i' ∷ b's' ∷ b' ' ∷ b'b' ∷ b'e' ∷ b'l' ∷ b'o' ∷ b'w' ∷ b' ' ∷ b'o' ∷ b'r' ∷ b' ' ∷ b'c'
    ∷ b'o' ∷ b'n' ∷ b't' ∷ b'r' ∷ b'a' ∷ b'd' ∷ b'i' ∷ b'c' ∷ b't' ∷ b's' ∷ b' ' ∷ b'p' ∷ b'e'
    ∷ b'r' ∷ b's' ∷ b'i' ∷ b's' ∷ b't' ∷ b'e' ∷ b'd' ∷ b' ' ∷ b'o' ∷ b'b' ∷ b's' ∷ b'e' ∷ b'r'
    ∷ b'v' ∷ b'a' ∷ b't' ∷ b'i' ∷ b'o' ∷ b'n' ∷ b' ' ∷ []

abbrev pub malformed_tip : Text
malformed_tip =
    b's' ∷ b't' ∷ b'a' ∷ b'b' ∷ b'l' ∷ b'e' ∷ b' ' ∷ b'c' ∷ b'a' ∷ b'n' ∷ b'o' ∷ b'n' ∷ b'i' ∷ b'c'
    ∷ b'a' ∷ b'l' ∷ b' ' ∷ b't' ∷ b'i' ∷ b'p' ∷ b' ' ∷ b'i' ∷ b'd' ∷ b'e' ∷ b'n' ∷ b't' ∷ b'i'
    ∷ b't' ∷ b'y' ∷ b' ' ∷ b'i' ∷ b's' ∷ b' ' ∷ b'm' ∷ b'a' ∷ b'l' ∷ b'f' ∷ b'o' ∷ b'r' ∷ b'm'
    ∷ b'e' ∷ b'd' ∷ []

abbrev pub malformed_persisted : Text
malformed_persisted =
    b'p' ∷ b'e' ∷ b'r' ∷ b's' ∷ b'i' ∷ b's' ∷ b't' ∷ b'e' ∷ b'd' ∷ b' ' ∷ b't' ∷ b'e' ∷ b'r' ∷ b'm'
    ∷ b'i' ∷ b'n' ∷ b'a' ∷ b'l' ∷ b' ' ∷ b't' ∷ b'i' ∷ b'p' ∷ b' ' ∷ b'i' ∷ b'd' ∷ b'e' ∷ b'n'
    ∷ b't' ∷ b'i' ∷ b't' ∷ b'y' ∷ b' ' ∷ b'i' ∷ b's' ∷ b' ' ∷ b'm' ∷ b'a' ∷ b'l' ∷ b'f' ∷ b'o'
    ∷ b'r' ∷ b'm' ∷ b'e' ∷ b'd' ∷ []

unfoldable pub conflict_detail : Text → AdvanceState → Text → ℕ → Option Text → AdvanceState → Text
unfolding tip_text
conflict_detail spent_txid outcome hash height persisted state =
    canonical_spend
    ++ spent_txid
    ++ classified
    ++ state_name outcome
    ++ at_tip
    ++ tip_text hash height
    ++ conflicts
    ++ get_or persisted no_txid
    ++ b'/' ∷ state_name state

unfoldable pub candidate_detail : Option Text → Tip → Text → Text
unfolding tip_text
candidate_detail txid tip reason =
    candidate
    ++ get_or txid unavailable
    ++ at_tip
    ++ tip_text tip.hash tip.height
    ++ b':' ∷ b' ' ∷ reason

unfoldable pub reason_detail : Text → Tip → Text
unfolding tip_text
reason_detail reason tip = reason ++ at_tip ++ tip_text tip.hash tip.height

unfoldable pub stale_detail : Text → ℕ → Text
unfolding tip_text
stale_detail hash height = stale_tip ++ tip_text hash height ++ conflicts_observation

unfoldable pub below_detail : Text → ℕ → Text → ℕ → Text
unfolding tip_text
below_detail hash height previous_hash previous_height =
    stable_candidate
    ++ tip_text hash height
    ++ contradicts
    ++ tip_text previous_hash previous_height
