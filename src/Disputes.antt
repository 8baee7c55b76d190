-- ===== src/Disputes.antt =====
-- The challenge of a decision that paid out (src/claim/dispute/dispute.service.ts) on the tables of
-- src/db/migrations/007_claim_disputes.sql. A handler is one transaction: it answers an exception and
-- leaves the tables, or answers the new tables. The database's clock is `now`, in seconds; the id of
-- a new row and `is_uuid`, the test of the pattern `UUID`, are given. `trim` has been applied to a
-- replacement id. Row locks make the transactions on a dispute follow one another.
pub mod Rows
pub mod Moves
pub mod Consistency
pub mod Update
pub mod Inserts
pub mod Transition
pub mod Lifecycle
use refract_backend.Prelude.{
  ◌==◌, err, ok, Result, ◌>>=◌, ◌∷◌, [], List, some, none, Option, false, true, Bool, String, suc,
  zero, string_discrete, ℕ, arith,
}
use refract_backend.Prelude.Dict.{lookup, Dict}

pub data DisputeStatus : Type 0 where
  open_status under_review upheld reversed withdrawn : DisputeStatus

pub data BondStatus : Type 0 where
  posted forfeited returned : BondStatus

pub data SettlementStatus : Type 0 where
  pending submitted confirmed failed : SettlementStatus

-- `UniqueViolation` and `CheckViolation` are the database's; the others are HTTP exceptions.
pub data DisputeError : Type 0 where
  not_found conflict bad_request check_violation invalid_windows : DisputeError

-- `claim_settlements`, with the coverage type of the settlement's policy.
pub record Settlement : Type 0 where
  pub decision_id : String
  pub policy_id : String
  pub coverage_type : String
  pub status : SettlementStatus
  pub amount : ℕ
  pub created_at : ℕ

-- `claim_disputes`.
pub record DisputeRow : Type 0 where
  pub id : String
  pub decision_id : String
  pub policy_id : String
  pub status : DisputeStatus
  pub reason : String
  pub bond_reference : String
  pub bond_status : BondStatus
  pub opened_by : String
  pub window_closes_at : ℕ
  pub resolution_note : Option String
  pub replacement_decision_id : Option String
  pub resolved_at : Option ℕ

pub data ReversalStatus : Type 0 where
  owed reconciled : ReversalStatus

-- `settlement_reversals`.
pub record Reversal : Type 0 where
  pub dispute_id : String
  pub decision_id : String
  pub policy_id : String
  pub amount : ℕ
  pub status : ReversalStatus

pub record DisputeTables : Type 0 where
  pub settlements : List Settlement
  pub disputes : List DisputeRow
  pub reversals : List Reversal

pub record OpenDisputeInput : Type 0 where
  pub decision_id : String
  pub reason : String
  pub bond_reference : String
  pub actor : String

pub record TransitionDisputeInput : Type 0 where
  pub to : DisputeStatus
  pub note : Option String
  pub replacement_decision_id : Option String
  pub actor : String

-- `TRANSITIONS`.
unfoldable pub can_move : DisputeStatus → DisputeStatus → Bool
can_move open_status under_review = true
can_move open_status withdrawn = true
can_move open_status open_status = false
can_move open_status upheld = false
can_move open_status reversed = false
can_move under_review upheld = true
can_move under_review reversed = true
can_move under_review withdrawn = true
can_move under_review open_status = false
can_move under_review under_review = false
can_move upheld to = false
can_move reversed to = false
can_move withdrawn to = false

abbrev status_code : DisputeStatus → ℕ
status_code open_status = 0
status_code under_review = 1
status_code upheld = 2
status_code reversed = 3
status_code withdrawn = 4

abbrev pub same_status : DisputeStatus → DisputeStatus → Bool
same_status a b = status_code a == status_code b

-- `BOND_ON_RESOLUTION`.
unfoldable pub bond_on_resolution : DisputeStatus → Option BondStatus
bond_on_resolution open_status = none
bond_on_resolution under_review = none
bond_on_resolution upheld = some forfeited
bond_on_resolution reversed = some returned
bond_on_resolution withdrawn = some returned

abbrev pub is_under_review : DisputeStatus → Bool
is_under_review under_review = true
is_under_review open_status = false
is_under_review upheld = false
is_under_review reversed = false
is_under_review withdrawn = false

abbrev pub is_reversed : DisputeStatus → Bool
is_reversed reversed = true
is_reversed open_status = false
is_reversed under_review = false
is_reversed upheld = false
is_reversed withdrawn = false

abbrev pub is_withdrawn : DisputeStatus → Bool
is_withdrawn withdrawn = true
is_withdrawn open_status = false
is_withdrawn under_review = false
is_withdrawn upheld = false
is_withdrawn reversed = false

abbrev pub is_open_status : DisputeStatus → Bool
is_open_status open_status = true
is_open_status under_review = true
is_open_status upheld = false
is_open_status reversed = false
is_open_status withdrawn = false

abbrev pub is_in_flight : SettlementStatus → Bool
is_in_flight pending = true
is_in_flight submitted = true
is_in_flight confirmed = false
is_in_flight failed = false

abbrev pub has_paid_out : SettlementStatus → Bool
has_paid_out confirmed = true
has_paid_out pending = false
has_paid_out submitted = false
has_paid_out failed = false

-- `COALESCE`.
abbrev pub value_or : {A : Type 0} → Option A → A → A
value_or none a = a
value_or (some b) a = b

abbrev pub or_keep : {A : Type 0} → Option A → Option A → Option A
or_keep none a = a
or_keep (some b) a = some b

abbrev pub default_window_hours : ℕ
default_window_hours = 72

unfoldable pub window_hours_for : Dict String ℕ → String → ℕ
window_hours_for windows coverage =
    value_or (lookup string_discrete coverage windows)
      (value_or (lookup string_discrete "default" windows) default_window_hours)

-- Each value of the parsed object: the hours, if it is a finite number.
unfoldable pub parse_dispute_windows :
    List (String × Option ℕ) → Result DisputeError (Dict String ℕ)
parse_dispute_windows [] = ok []
parse_dispute_windows ((coverage, none) ∷ rest) = err invalid_windows
parse_dispute_windows ((coverage, some zero) ∷ rest) = err invalid_windows
parse_dispute_windows ((coverage, some (suc hours)) ∷ rest) =
    parse_dispute_windows rest >>= λ windows. ok ((coverage, suc hours) ∷ windows)
