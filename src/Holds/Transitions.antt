-- ===== src/Holds/Transitions.antt =====
-- How a hold moves (claim-hold.service.ts): what `dispose` and `markSettled` do to the fold of the
-- events, for the hold that they name and for the others.
use refract_backend.Prelude.{
  ℕ, Option, none, some, List, [], ◌∷◌, ◌++◌, String, Bool, true, false, ◌≡◌, ◌≢◌, inl, inr, sym,
  ap, ◌∙◌, ok, arith, Bool-cases, Option-cases, subst, fold-append, string_discrete,
}
use refract_backend.Prelude.Dict.{lookup, lookup-insert_self, lookup-insert_ne}
use refract_backend.Ledger.{
  EvidenceEvent, EventBody, HoldDisposed, HoldDisposition, approve_payout, deny, extend_hold,
  hold_disposed, audit, Audit,
}
use refract_backend.Ledger.Store.{
  Ledger, Outside, Io, now, ◌▷◌, continue_done, append_event, full_event,
}
use refract_backend.Holds.{
  ClaimHold, Holds, patch, dispose_hold, disposed_status, hold_step, fold_holds, extended,
}
use refract_backend.Holds.Service.{
  Services, get, deadline_for, write_audit, record_disposal, dispose_found, dispose, can_dispose,
}

dispose_hold-status :
    (d : HoldDisposed) (t : ℕ) (h : ClaimHold)
    → (dispose_hold d t h).status ≡ disposed_status d.disposition
unfolding dispose_hold extended
dispose_hold-status d t h = ground arith

status_of_some :
    (d : HoldDisposed) (t : ℕ) (h answer : ClaimHold)
    → some answer ≡ some (dispose_hold d t h)
    → answer.status ≡ disposed_status d.disposition
status_of_some d t h answer e = ground (arith, dispose_hold-status d t h)

lookup-patch :
    (id : String) (fields : ClaimHold → ClaimHold) (holds : Holds) (h : ClaimHold)
    → lookup string_discrete id holds ≡ some h
    → lookup string_discrete id (patch id fields holds) ≡ some (fields h)
unfolding patch
lookup-patch id fields holds h found =
    ground (arith, lookup-insert_self string_discrete id (fields h) holds)

lookup-patch_ne :
    (id other : String) (fields : ClaimHold → ClaimHold) (holds : Holds)
    → id ≢ other
    → lookup string_discrete other (patch id fields holds) ≡ lookup string_discrete other holds
unfolding patch
lookup-patch_ne id other fields holds ne = elim (Option-cases (lookup string_discrete id holds)) [
  | inl missing ↦ ground arith
  | inr (h, found) ↦ ground (arith, lookup-insert_ne string_discrete id other (fields h) holds ne)
]

module _ {N : Type 0} where
  append_ok :
      (outside : Outside) (at : Option ℕ) (body : EventBody N) (ledger after : Ledger N)
      (e : EvidenceEvent N)
      → append_event outside at body ledger ≡ (ok e, after)
      → (after.log ≡ ledger.log ++ e ∷ []) × (e.body ≡ body)
  unfolding append_event full_event
  append_ok outside at body ledger after e h = (ground arith, ground arith)

  get_ok :
      (id : String) (ledger after : Ledger N) (h : ClaimHold)
      → get id ledger ≡ (ok h, after)
      → (after ≡ ledger) × (lookup string_discrete id (fold_holds ledger.log) ≡ some h)
  unfolding get
  get_ok id ledger after h got = (ground arith, ground arith)

  pub fold_holds-append :
      (log : List (EvidenceEvent N)) (e : EvidenceEvent N)
      → fold_holds (log ++ e ∷ []) ≡ hold_step (fold_holds log) e
  unfolding fold_holds
  fold_holds-append log e = fold-append hold_step [] log (e ∷ [])

  step_disposed :
      (holds : Holds) (e : EvidenceEvent N) (d : HoldDisposed)
      → e.body ≡ hold_disposed d
      → hold_step holds e ≡ patch d.hold_id (dispose_hold d e.recorded_at) holds
  unfolding hold_step
  step_disposed holds e d h = ground arith

  pub step_audit :
      (holds : Holds) (e : EvidenceEvent N) (a : Audit)
      → e.body ≡ audit a
      → hold_step holds e ≡ holds
  unfolding hold_step
  step_audit holds e a h = ground arith

  deadline_for_log :
      (services : Services N) (disposition : HoldDisposition) (extend_ms : Option ℕ)
      (ledger after : Ledger N) (deadline : Option ℕ)
      → deadline_for services disposition extend_ms ledger ≡ (ok deadline, after)
      → after.log ≡ ledger.log
  unfolding deadline_for now
  deadline_for_log services extend_hold none ledger after deadline h = ground arith
  deadline_for_log services extend_hold (some t) ledger after deadline h = ground arith
  deadline_for_log services approve_payout extend_ms ledger after deadline h = ground arith
  deadline_for_log services deny extend_ms ledger after deadline h = ground arith

  -- The events of a disposal, an event of the disposal and one of the audit, folded.
  holds_disposed :
      (log : List (EvidenceEvent N)) (e f : EvidenceEvent N) (d : HoldDisposed) (a : Audit)
      → e.body ≡ hold_disposed d
      → f.body ≡ audit a
      → fold_holds ((log ++ e ∷ []) ++ f ∷ [])
        ≡ patch d.hold_id (dispose_hold d e.recorded_at) (fold_holds log)
  holds_disposed log e f d a h k =
      fold_holds-append (log ++ e ∷ []) f
      ∙ step_audit (fold_holds (log ++ e ∷ [])) f a k
      ∙ fold_holds-append log e
      ∙ step_disposed (fold_holds log) e d h

  second : Outside → EventBody N → EvidenceEvent N → Io N (EvidenceEvent N)
  second outside body e = append_event outside none body

  -- Two events that are written, and the hold that is read back.
  pub two_events :
      (outside : Outside) (body next : EventBody N) (id : String) (ledger after : Ledger N)
      (answer : ClaimHold)
      → (append_event outside none body ▷ (λ e. append_event outside none next) ▷ (λ e. get id))
          ledger
        ≡ (ok answer, after)
      → (e f : EvidenceEvent N) × (after.log ≡ (ledger.log ++ e ∷ []) ++ f ∷ [])
        × (e.body ≡ body)
        × (f.body ≡ next)
        × (lookup string_discrete id (fold_holds after.log) ≡ some answer)
  unfolding second
  two_events outside body next id ledger after answer run =
      let (f, final, audited, answered) =
        continue_done (λ e. get id) ((append_event outside none body ▷ second outside next) ledger)
          answer after run in
      let (e, middle, appended, logged) =
        continue_done (second outside next) (append_event outside none body ledger) f final
          audited in
      let (same_ledger, found) = get_ok id final after answer answered in
      let (first_log, first_body) = append_ok outside none body ledger middle e appended in
      let (last_log, last_body) = append_ok outside none next middle final f logged in
      (
        e,
        f,
        ap (λ l. l.log) same_ledger ∙ last_log ∙ ap (λ l. l ++ f ∷ []) first_log,
        first_body,
        last_body,
        subst (λ l. lookup string_discrete id (fold_holds l.log) ≡ some answer) (sym same_ledger)
            found,
      )

  -- What a disposal leaves of the holds.
  unfoldable pub Disposed :
      HoldDisposition → String → String → Ledger N → Ledger N → ClaimHold → Type 0
  Disposed disposition hold_id other ledger after answer =
      (answer.status ≡ disposed_status disposition)
      × (lookup string_discrete hold_id (fold_holds after.log) ≡ some answer)
      × (lookup string_discrete other (fold_holds after.log)
          ≡ lookup string_discrete other (fold_holds ledger.log))

  record_disposal-Disposed :
      (services : Services N) (hold_id other : String) (disposition : HoldDisposition)
      (actor note policy_id : String) (deadline : Option ℕ) (ledger after : Ledger N)
      (h answer : ClaimHold)
      → record_disposal services hold_id disposition actor note policy_id deadline ledger
        ≡ (ok answer, after)
      → lookup string_discrete hold_id (fold_holds ledger.log) ≡ some h
      → hold_id ≢ other
      → Disposed disposition hold_id other ledger after answer
  unfolding record_disposal write_audit Disposed
  record_disposal-Disposed services hold_id other disposition actor note policy_id deadline ledger
        after h answer run found ne =
      let (e, f, log, is_disposed, is_audit, answered) =
        two_events services.outside _ _ hold_id ledger after answer run in
      let holds = ap fold_holds log ∙ holds_disposed ledger.log e f _ _ is_disposed is_audit in
      let moved = ap (lookup string_discrete hold_id) holds ∙ lookup-patch hold_id _ _ h found in
      (
        status_of_some _ e.recorded_at h answer (sym answered ∙ moved),
        answered,
        ap (lookup string_discrete other) holds ∙ lookup-patch_ne hold_id other _ _ ne,
      )

  can_dispose_found :
      (services : Services N) (hold_id : String) (disposition : HoldDisposition)
      (actor note : String) (extend_ms : Option ℕ) (h answer : ClaimHold) (ledger after : Ledger N)
      → dispose_found services hold_id disposition actor note extend_ms h ledger
        ≡ (ok answer, after)
      → (can_dispose services h.status ≡ true)
        × ((deadline_for services disposition extend_ms
                ▷ record_disposal services hold_id disposition actor note h.policy_id)
              ledger
            ≡ (ok answer, after))
  unfolding dispose_found
  can_dispose_found services hold_id disposition actor note extend_ms h answer ledger after run =
      elim (Bool-cases (can_dispose services h.status)) [
        | inl can ↦ (can, ground arith)
        | inr cannot ↦ absurd (ground arith)
      ]

  -- A disposal that answers found the hold held or escalated; after it the hold is approved,
  -- denied or held again as the disposition says, the answer is the hold as the ledger now has
  -- it, and any other hold is as it was.
  pub dispose-Disposed :
      (services : Services N) (hold_id other : String) (disposition : HoldDisposition)
      (actor note : String) (has_texts : Bool) (extend_ms : Option ℕ) (ledger after : Ledger N)
      (answer : ClaimHold)
      → dispose services hold_id disposition actor note has_texts extend_ms ledger
        ≡ (ok answer, after)
      → hold_id ≢ other
      → (h : ClaimHold) × (lookup string_discrete hold_id (fold_holds ledger.log) ≡ some h)
        × (can_dispose services h.status ≡ true)
        × Disposed disposition hold_id other ledger after answer
  unfolding dispose Disposed
  dispose-Disposed services hold_id other disposition actor note true extend_ms ledger after answer
        run ne =
      let (h, found_ledger, got, done) =
        continue_done (dispose_found services hold_id disposition actor note extend_ms)
          (get hold_id ledger) answer after run in
      let (same_ledger, found) = get_ok hold_id ledger found_ledger h got in
      let (can, rest) =
        can_dispose_found services hold_id disposition actor note extend_ms h answer ledger after (
          subst
            (λ l.
              dispose_found services hold_id disposition actor note extend_ms h l
              ≡ (ok answer, after))
            same_ledger done) in
      let (deadline, timed, set, written) =
        continue_done (record_disposal services hold_id disposition actor note h.policy_id)
          (deadline_for services disposition extend_ms ledger) answer after rest in
      let same_log = deadline_for_log services disposition extend_ms ledger timed deadline set in
      let (status, answered, others) =
        record_disposal-Disposed services hold_id other disposition actor note h.policy_id deadline
          timed after h answer written
          (ap (λ log. lookup string_discrete hold_id (fold_holds log)) same_log ∙ found) ne in
      (
        h,
        found,
        can,
        (
          status,
          answered,
          others ∙ ap (λ log. lookup string_discrete other (fold_holds log)) same_log,
        ),
      )
  dispose-Disposed services hold_id other disposition actor note false extend_ms ledger after answer
        run ne =
      absurd (ground arith)
