-- ===== src/Ingestion/Nonces.antt =====
-- The nonces that are remembered (src/oracle/sources/nonce-store.ts), and that a nonce stays recorded
-- until it expires, in a store that never outgrows its capacity.
use refract_backend.Prelude.{
  Option-cases, Bool-cases, ℕ, ◌≤◌, ◌<◌, true, false, Option, none, some, [], ◌∷◌, length, keep,
  ltb, leb, ◌≡◌, ◌≢◌, refl, ap, ◌∙◌, arith, ◌⊎◌, inl, inr, length-keep-le,
}
use refract_backend.Prelude.Tests.{elim_intro}
use refract_backend.Prelude.Dict.{
  Dict, lookup, insert, lookup-insert_self, lookup-insert_ne, length-insert, length-insert-le,
}
use refract_backend.Ingestion.{Text, text_discrete}

pub data Claim : Type 0 where
  fresh replayed full : Claim

-- `entries`: each key with the time at which it expires.
abbrev pub Nonces : Type 0
Nonces = Dict Text ℕ

-- `sweep`.
abbrev pub sweep_nonces : ℕ → Nonces → Nonces
sweep_nonces now entries = keep (λ entry. ltb now entry.1) entries

-- The part of `claim` where the key is not recorded.
unfoldable pub claim_new : ℕ → Text → ℕ → ℕ → Nonces → Claim × Nonces
claim_new capacity key expires_at now entries = elim (leb capacity (length entries)) [
  | false ↦ (fresh, insert text_discrete key expires_at entries)
  | true ↦ elim (leb capacity (length (sweep_nonces now entries))) [
    | true ↦ (full, sweep_nonces now entries)
    | false ↦ (fresh, insert text_discrete key expires_at (sweep_nonces now entries))
  ]
]

-- The part of `claim` after the lookup.
unfoldable pub claim_found : ℕ → Text → ℕ → ℕ → Nonces → Option ℕ → Claim × Nonces
claim_found capacity key expires_at now entries none = claim_new capacity key expires_at now entries
claim_found capacity key expires_at now entries (some expiry) = elim (ltb now expiry) [
  | true ↦ (replayed, entries)
  | false ↦ (fresh, insert text_discrete key expires_at entries)
]

-- `claim`.
unfoldable pub claim : ℕ → Text → ℕ → ℕ → Nonces → Claim × Nonces
unfolding claim_found
claim capacity key expires_at now entries =
    claim_found capacity key expires_at now entries (lookup text_discrete key entries)

lookup-sweep_live :
    (now : ℕ) (key : Text) (expiry : ℕ) (entries : Nonces)
    → lookup text_discrete key entries ≡ some expiry
    → ltb now expiry ≡ true
    → lookup text_discrete key (sweep_nonces now entries) ≡ some expiry
lookup-sweep_live now key expiry [] found live = found
lookup-sweep_live now key expiry ((j, e) ∷ entries) found live =
    ground (arith, lookup-sweep_live now key expiry entries)

-- At the time, the nonce has expired or is recorded until it does.
abbrev pub IsKept : Text → ℕ → ℕ → Nonces → Type 0
IsKept key expiry time entries = (expiry ≤ time) ⊎ (lookup text_discrete key entries ≡ some expiry)

sweep-IsKept :
    (key : Text) (expiry now time : ℕ) (entries : Nonces)
    → now ≤ time
    → IsKept key expiry time entries
    → IsKept key expiry time (sweep_nonces now entries)
sweep-IsKept key expiry now time entries h (inl past) = inl past
sweep-IsKept key expiry now time entries h (inr found) = elim (Bool-cases (ltb now expiry)) [
  | inl live ↦ inr (lookup-sweep_live now key expiry entries found live)
  | inr dead ↦ inl (ground arith)
]

insert-IsKept :
    (key other : Text) (expiry e time : ℕ) (entries : Nonces)
    → other ≢ key
    → IsKept key expiry time entries
    → IsKept key expiry time (insert text_discrete other e entries)
insert-IsKept key other expiry e time entries ne (inl past) = inl past
insert-IsKept key other expiry e time entries ne (inr found) =
    inr (lookup-insert_ne text_discrete other key e entries ne ∙ found)

claim_new-IsKept :
    (capacity : ℕ) (key other : Text) (expiry e now time : ℕ) (entries : Nonces)
    → now ≤ time
    → other ≢ key
    → IsKept key expiry time entries
    → IsKept key expiry time (claim_new capacity other e now entries).1
unfolding claim_new
claim_new-IsKept capacity key other expiry e now time entries h ne kept =
    let swept = sweep-IsKept key expiry now time entries h kept in
    elim_intro (λ (r : Claim × Nonces). IsKept key expiry time r.1) (leb capacity (length entries))
      (λ _.
        elim_intro (λ (r : Claim × Nonces). IsKept key expiry time r.1)
          (leb capacity (length (sweep_nonces now entries))) (λ _. swept)
          (λ _. insert-IsKept key other expiry e time (sweep_nonces now entries) ne swept))
      (λ _. insert-IsKept key other expiry e time entries ne kept)

claim_found-IsKept :
    (capacity : ℕ) (key other : Text) (expiry e now time : ℕ) (entries : Nonces) (o : Option ℕ)
    → now ≤ time
    → lookup text_discrete other entries ≡ o
    → IsKept key expiry time entries
    → IsKept key expiry time (claim_found capacity other e now entries o).1
unfolding claim_found
claim_found-IsKept capacity key other expiry e now time entries o h looked (inl past) = inl past
claim_found-IsKept capacity key other expiry e now time entries none h looked (inr found) =
    claim_new-IsKept capacity key other expiry e now time entries h
      (λ eq. absurd (ground (arith, ap (λ k. lookup text_discrete k entries) eq))) (inr found)
claim_found-IsKept capacity key other expiry e now time entries (some until) h looked (inr found) =
    elim_intro (λ (r : Claim × Nonces). IsKept key expiry time r.1) (ltb now until) (λ _. inr found)
      (λ dead. elim (text_discrete other key) [
        | yes eq ↦ inl (ground (arith, ap (λ k. lookup text_discrete k entries) eq))
        | no ne ↦ insert-IsKept key other expiry e time entries ne (inr found)
      ])

-- A claim of any key, at a time that is not later, keeps what is recorded.
pub claim-IsKept :
    (capacity : ℕ) (key other : Text) (expiry e now time : ℕ) (entries : Nonces)
    → now ≤ time
    → IsKept key expiry time entries
    → IsKept key expiry time (claim capacity other e now entries).1
unfolding claim
claim-IsKept capacity key other expiry e now time entries h kept =
    claim_found-IsKept capacity key other expiry e now time entries
      (lookup text_discrete other entries) h refl kept

-- A key that is claimed is recorded until it expires.
pub claim_fresh :
    (capacity : ℕ) (key : Text) (e now : ℕ) (entries : Nonces)
    → (claim capacity key e now entries).0 ≡ fresh
    → lookup text_discrete key (claim capacity key e now entries).1 ≡ some e
unfolding claim claim_found claim_new
claim_fresh capacity key e now entries h = ground (
  arith,
  lookup-insert_self text_discrete key e entries,
  lookup-insert_self text_discrete key e (sweep_nonces now entries),
)

-- A key that is recorded and has not expired is replayed.
pub claim_replayed :
    (capacity : ℕ) (key : Text) (e expiry now : ℕ) (entries : Nonces)
    → lookup text_discrete key entries ≡ some expiry
    → now < expiry
    → (claim capacity key e now entries).0 ≡ replayed
unfolding claim claim_found
claim_replayed capacity key e expiry now entries found live = ground arith

-- The store never outgrows its capacity.
pub length-claim-le :
    (capacity : ℕ) (key : Text) (e now : ℕ) (entries : Nonces)
    → length entries ≤ capacity
    → length (claim capacity key e now entries).1 ≤ capacity
unfolding claim claim_found claim_new
length-claim-le capacity key e now entries h =
    elim (Option-cases (lookup text_discrete key entries)) [
      | inl missing ↦ ground (
        arith,
        length-insert-le text_discrete key e entries,
        length-insert-le text_discrete key e (sweep_nonces now entries),
        length-keep-le (λ (entry : Text × ℕ). ltb now entry.1) entries,
      )
      | inr (until, known) ↦ ground (arith, length-insert text_discrete key e entries until known)
    ]
