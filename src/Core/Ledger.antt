-- ===== src/Core/Ledger.antt =====
-- packages/core/src/ledger.ts: the states of an advance and the checks on its funding snapshot.
pub mod Snapshot
pub mod Lifecycle
use arkade_taxi.Prelude.{
  ℕ, Bool, true, false, not, ◌&&◌, ◌||◌, Option, none, some, List, [], ◌∷◌, Text, Result, ok, err,
  ◌>>=◌, ◌>>◌, throw_if, if◌then◌else◌, ◌==◌, leb, any, all, length, get_or,
}
use arkade_taxi.Prelude.Int.{ℤ, pos, Number, in_range, ltb_ℤ, leb_ℤ, eqb_ℤ}
use arkade_taxi.Prelude.Hex.{is_hex}
use arkade_taxi.Core.Types.{
  AdvanceState, quoted, locking, locked, recovering, recycled, purchased, refunded, recovered,
  expired, state_eq, Outpoint, DeadlineKind, height, time, kind_eq, ExpiryDeadline, AdvanceKind,
  covenant, sponsored, DustCovenantParams, Advance,
}

unfoldable pub advance_kind : Advance → AdvanceKind
advance_kind a = get_or a.kind covenant

abbrev pub is_sponsored : AdvanceKind → Bool
is_sponsored covenant = false
is_sponsored sponsored = true

unfoldable pub covenant_params_of : Advance → DustCovenantParams
covenant_params_of a = record {
  receiver_key = a.receiver_key;
  sender_key = a.sender_key;
  operator_key = a.operator_key;
  operator_signer_key = a.operator_signer_key;
  exit_delay = a.exit_delay;
  dust = a.dust;
  topup = a.topup;
  payment_sats = a.payment_sats;
  asset_id = a.asset_id;
  locktime = a.locktime;
  recovery_recipient = a.recovery_recipient;
  claim_mode = a.claim_mode;
  receiver_fare = a.receiver_fare;
}

unfoldable pub is_exposed : Advance → Bool
unfolding advance_kind
is_exposed a =
    if is_sponsored (advance_kind a)
    then state_eq a.state locking
    else state_eq a.state locking || state_eq a.state locked || state_eq a.state recovering

-- The table `EDGES`.
abbrev pub edges : AdvanceState → List AdvanceState
edges quoted = locking ∷ expired ∷ []
edges locking = locked ∷ []
edges locked = recycled ∷ purchased ∷ refunded ∷ recovering ∷ []
edges recovering = recovered ∷ []
edges recycled = []
edges purchased = []
edges refunded = []
edges recovered = []
edges expired = []

unfoldable pub can_transition : AdvanceState → AdvanceState → Bool
can_transition from to = any (state_eq to) (edges from)

pub data LedgerError : Type 0 where
  illegal_transition : AdvanceState → AdvanceState → LedgerError
  bad_batch_expiry bad_recovery_locktime missing_snapshot invalid_operator_input : LedgerError

-- `/^[0-9a-f]{64}$/`
abbrev pub is_txid : Text → Bool
is_txid s = length s == 64 && all is_hex s

abbrev pub is_empty {ℓ} : {A : Type ℓ} → List A → Bool
is_empty [] = true
is_empty (_ ∷ _) = false

abbrev pub is_valid_input : Outpoint → Bool
is_valid_input input = is_txid input.txid && in_range 0xffff_ffff input.vout

unfoldable pub validate_joint_snapshot : Advance → Result LedgerError (Unit {0})
validate_joint_snapshot a = do
  throw_if
      (is_empty a.funding.unsigned_lockup_tx
        || is_empty a.funding.unsigned_lockup_id
        || is_empty a.funding.operator_inputs)
      missing_snapshot
  throw_if (not (all is_valid_input a.funding.operator_inputs)) invalid_operator_input

abbrev pub is_missing {ℓ} : {A : Type ℓ} → Option A → Bool
is_missing none = true
is_missing (some _) = false

-- The lockup deadline of a covenant advance is refused.
abbrev pub bad_recovery : Option ExpiryDeadline → ℤ → ℕ → Bool
bad_recovery none locktime created_at = true
bad_recovery (some recovery) locktime created_at =
    not (eqb_ℤ recovery.value locktime)
    || not (kind_eq recovery.kind time)
    || ltb_ℤ recovery.value (pos 500_000_000)
    || leb_ℤ recovery.value (pos created_at)

unfoldable pub validate_funding_snapshot : Advance → Result LedgerError (Unit {0})
unfolding advance_kind
validate_funding_snapshot a = do
  throw_if
      (if is_sponsored (advance_kind a)
        then is_missing a.funding.batch_expiry
        else not (is_missing a.funding.batch_expiry))
      bad_batch_expiry
  throw_if
      (not (is_sponsored (advance_kind a))
        && bad_recovery a.funding.recovery_locktime a.locktime a.created_at)
      bad_recovery_locktime
  validate_joint_snapshot a

unfoldable pub transition : Advance → AdvanceState → ℕ → Result LedgerError Advance
unfolding can_transition
transition a to at = do
  throw_if (not (can_transition a.state to)) (illegal_transition a.state to)
  if state_eq to locking then validate_funding_snapshot a else ok tt
  ok (record a { state = to; updated_at = at })

-- The list `TERMINAL_STATES`.
abbrev pub terminal_states : List AdvanceState
terminal_states = recycled ∷ purchased ∷ refunded ∷ recovered ∷ expired ∷ []

unfoldable pub is_terminal : AdvanceState → Bool
is_terminal s = any (λ t. state_eq t s) terminal_states

unfoldable pub is_expired : Advance → ℕ → Bool
is_expired a now = state_eq a.state quoted && leb a.expires_at now
