-- ===== src/Disputes/Consistency.antt =====
-- The steps that the tables take, and what it is for them to be consistent.
use refract_backend.Prelude.{
  some, none, Option, ok, Pairwise, any, All, List, ◌&&◌, not, false, true, Bool, ◌≡◌, String, same,
  ℕ,
}
use refract_backend.Disputes.{
  value_or, is_reversed, OpenDisputeInput, Settlement, posted, bond_on_resolution, is_withdrawn,
  is_open_status, DisputeTables, Reversal, TransitionDisputeInput, DisputeRow,
}
use refract_backend.Disputes.Moves.{open_dispute, transition_dispute}
use refract_backend.Prelude.Dict.{Dict}

-- A step of the tables: a request that went through, or settlements that another component wrote.
pub data Step (is_uuid : String → Bool) (windows : Dict String ℕ)
    : DisputeTables → DisputeTables → Type 0 where
  opens :
      {t u : DisputeTables} (now : ℕ) (id : String) (input : OpenDisputeInput)
      → open_dispute windows now id input t ≡ ok u
      → Step is_uuid windows t u
  moves :
      {t u : DisputeTables} (now : ℕ) (id : String) (input : TransitionDisputeInput)
      → transition_dispute is_uuid now id input t ≡ ok u
      → Step is_uuid windows t u
  settles :
      {t : DisputeTables} (settlements : List Settlement)
      → Step is_uuid windows t (record t { settlements = settlements })

pub data Steps (is_uuid : String → Bool) (windows : Dict String ℕ)
    : DisputeTables → DisputeTables → Type 0 where
  done : {t : DisputeTables} → Steps is_uuid windows t t
  then_step :
      {t u v : DisputeTables}
      → Step is_uuid windows t u
      → Steps is_uuid windows u v
      → Steps is_uuid windows t v

abbrev pub is_some : {A : Type 0} → Option A → Bool
is_some none = false
is_some (some a) = true

-- The bond, the time of resolution and the replacement that a status goes with.
abbrev pub RowOk : DisputeRow → Type 0
RowOk r =
    (r.bond_status ≡ value_or (bond_on_resolution r.status) posted)
    × (is_some r.resolved_at ≡ not (is_open_status r.status))
    × (is_some r.replacement_decision_id ≡ is_reversed r.status)

-- Of two disputes on one decision, one was withdrawn.
abbrev pub Apart : DisputeRow → DisputeRow → Type 0
Apart r s =
    same r.decision_id s.decision_id && not (is_withdrawn r.status) && not (is_withdrawn s.status)
    ≡ false

-- A reversal and the dispute that it is booked for.
abbrev pub books : Reversal → DisputeRow → Bool
books v r = is_reversed r.status && (same r.id v.dispute_id && same r.decision_id v.decision_id)

pub record Consistent (t : DisputeTables) : Type 0 where
  pub rows : All RowOk t.disputes
  pub ids : Pairwise (λ r s. same r.id s.id ≡ false) t.disputes
  pub apart : Pairwise Apart t.disputes
  pub once : Pairwise (λ v w. same v.decision_id w.decision_id ≡ false) t.reversals
  pub booked : All (λ v. any (books v) t.disputes ≡ true) t.reversals
  pub owed_for :
      All (λ r. is_reversed r.status ≡ true → any (λ v. books v r) t.reversals ≡ true) t.disputes
