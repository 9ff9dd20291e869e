-- ===== src/Finality/Steps.antt =====
-- The wait of finality.go as a step relation: the rounds after which it still waits, and what the
-- count of incomplete rounds then means.
use xrpl_go.Base.{
  ℕ, suc, ◌≤◌, ◌<◌, ◌≡◌, ◌⊎◌, inl, inr, refl, sym, ap, subst, ◌∙◌, List, [], ◌∷◌, ◌++◌,
  append_assoc, append-nil, true, false, ◌&&◌, ltb, ltb→lt, Bool-cases, Option, none, some,
  Option-cases, arith,
}
use xrpl_go.Base.Int.{pos, leb_ℤ, ◌<ℤ◌, ◌≤ℤ◌}
use xrpl_go.Base.Results.{ok, err, Result-cases}
use xrpl_go.Finality.{
  Operation, Cause, TransactionStatus, FinalityConfig, Round, Progress, waiting, returned, failed,
  cancelled, finality_transport, transaction_expired, validated_ledger_lookup, transaction_lookup,
  validated_transaction_response, of_query, nil_response, incomplete_round, settle, poll,
  poll_rounds,
}

-- Why a round is incomplete.
pub data IsIncomplete {ℓ} {T : Type ℓ} {E C : Type 0} (r : Round T E C) : Type ℓ where
  no_ledger : (e : E) → r.ledger ≡ err e → IsIncomplete r
  no_status : (e : E) → r.status ≡ err e → IsIncomplete r
  no_response :
      (status : TransactionStatus T)
      → r.status ≡ ok status
      → (status.found && status.validated) ≡ true
      → status.response ≡ none
      → IsIncomplete r

abbrev pub IsDone {ℓ} : {T : Type ℓ} {E C : Type 0} → Progress T E C → Type 0
IsDone (waiting n) = ⊥
IsDone (returned x) = Unit
IsDone (failed e) = Unit

module _ {ℓ} {T : Type ℓ} {E C : Type 0} (cfg : FinalityConfig) where
  -- After these rounds the loop waits, with this count.
  pub data Waits : List (Round T E C) → ℕ → Type ℓ where
    start : Waits [] 0
    polled :
        (rs : List (Round T E C)) (n m : ℕ) (r : Round T E C)
        → Waits rs n
        → poll cfg n r ≡ waiting m
        → Waits (rs ++ (r ∷ [])) m

  -- The loop ended with p, in a round after which no other was read.
  pub data Ends (rounds : List (Round T E C)) (p : Progress T E C) : Type ℓ where
    ended :
        (before after : List (Round T E C)) (n : ℕ) (r : Round T E C)
        → rounds ≡ before ++ (r ∷ after)
        → Waits before n
        → poll cfg n r ≡ p
        → IsDone p
        → Ends rounds p

  pub poll_rounds_step :
      (n : ℕ) (r : Round T E C) (rs : List (Round T E C)) (p : Progress T E C)
      → poll_rounds cfg n (r ∷ rs) ≡ p
      → ((m : ℕ) × (poll cfg n r ≡ waiting m) × (poll_rounds cfg m rs ≡ p))
        ⊎ ((poll cfg n r ≡ p) × IsDone p)
  unfolding poll_rounds
  poll_rounds_step n r rs p e = by_poll (poll cfg n r) refl
    where
      by_poll :
          (q : Progress T E C)
          → poll cfg n r ≡ q
          → ((m : ℕ) × (poll cfg n r ≡ waiting m) × (poll_rounds cfg m rs ≡ p))
            ⊎ ((poll cfg n r ≡ p) × IsDone p)
      by_poll (waiting m) eq = inl (m, eq, rw (eq, poll_rounds) at e)
      by_poll (returned x) eq =
          let q : returned x ≡ p = rw (eq, poll_rounds) at e in (inr (eq ∙ q, rw (← q) tt))
      by_poll (failed x) eq =
          let q : failed x ≡ p = rw (eq, poll_rounds) at e in (inr (eq ∙ q, rw (← q) tt))

  -- What the loop computes is what the relation says.
  pub poll_rounds_reaches :
      (rs before : List (Round T E C)) (n : ℕ) (p : Progress T E C)
      → Waits before n
      → poll_rounds cfg n rs ≡ p
      → ((m : ℕ) × (p ≡ waiting m) × Waits (before ++ rs) m) ⊎ Ends (before ++ rs) p
  poll_rounds_reaches [] before n p w e =
      inl (n, sym (unfold poll_rounds in e), rw (append-nil before) w)
  poll_rounds_reaches (r ∷ rs) before n p w e = elim (poll_rounds_step n r rs p e) [
    | inl (m, eq, later) ↦
        rw (← append_assoc before (r ∷ []) rs)
          (poll_rounds_reaches rs (before ++ (r ∷ [])) m p (polled before n m r w eq) later)
    | inr (now, done) ↦ inr (ended before rs n r refl w now done)
  ]

  -- From where the loop waits after some rounds, it goes on with those that follow.
  pub Waits-append :
      (rs tail : List (Round T E C)) (n : ℕ)
      → Waits rs n
      → poll_rounds cfg 0 (rs ++ tail) ≡ poll_rounds cfg n tail
  unfolding poll_rounds
  Waits-append _ tail _ start = refl
  Waits-append _ tail _ (polled rs n m r w e) =
      ap (poll_rounds cfg 0) (append_assoc rs (r ∷ []) tail)
      ∙ Waits-append rs (r ∷ tail) n w
      ∙ rw (e, poll_rounds) refl

  -- A round in which the loop ends gives its result.
  pub poll_rounds-done :
      (n : ℕ) (r : Round T E C) (rs : List (Round T E C)) (p : Progress T E C)
      → poll cfg n r ≡ p
      → IsDone p
      → poll_rounds cfg n (r ∷ rs) ≡ p
  unfolding poll_rounds
  poll_rounds-done n r rs (waiting m) e done = absurd done
  poll_rounds-done n r rs (returned x) e done = rw (e, poll_rounds) refl
  poll_rounds-done n r rs (failed x) e done = rw (e, poll_rounds) refl

-- What one round comes to, and what it met.
module _ {ℓ} {T : Type ℓ} {E C : Type 0} (cfg : FinalityConfig) (n : ℕ) (r : Round T E C) where
  pub data Polled : Progress T E C → Type ℓ where
    stopped : (c : C) → Polled (failed (cancelled c))
    counted : IsIncomplete r → pos (suc n) <ℤ cfg.max_attempts → Polled (waiting (suc n))
    given_up :
        (operation : Operation) (cause : Cause E)
        → IsIncomplete r
        → cfg.max_attempts ≤ℤ pos (suc n)
        → Polled (failed (finality_transport (suc n) operation cause))
    found_validated :
        (status : TransactionStatus T) (response : T)
        → r.status ≡ ok status
        → (status.found && status.validated) ≡ true
        → status.response ≡ some response
        → Polled (returned response)
    expired :
        (ledger : ℕ) (status : TransactionStatus T)
        → r.ledger ≡ ok ledger
        → r.status ≡ ok status
        → (status.found && status.validated) ≡ false
        → cfg.last_ledger_sequence < ledger
        → Polled
            (failed (transaction_expired ledger cfg.last_ledger_sequence cfg.preliminary_result))
    pending :
        (ledger : ℕ) (status : TransactionStatus T)
        → r.ledger ≡ ok ledger
        → r.status ≡ ok status
        → (status.found && status.validated) ≡ false
        → ledger ≤ cfg.last_ledger_sequence
        → Polled (waiting 0)

  incomplete_round-Polled :
      (ctx_err : Option C) (operation : Operation) (cause : Cause E)
      → IsIncomplete r
      → Polled (incomplete_round cfg n ctx_err operation cause)
  unfolding incomplete_round
  incomplete_round-Polled (some c) operation cause i = stopped c
  incomplete_round-Polled none operation cause i =
      elim (Bool-cases (leb_ℤ cfg.max_attempts (pos (suc n)))) [
        | inl last ↦ rw last (given_up operation cause i (ground (arith, last)))
        | inr more ↦ rw more (counted i (ground (arith, more)))
      ]

  settle-Polled :
      (ctx_err : Option C) (ledger : ℕ) (status : TransactionStatus T)
      → r.ledger ≡ ok ledger
      → r.status ≡ ok status
      → Polled (settle cfg n ctx_err ledger status)
  unfolding settle
  settle-Polled ctx_err ledger status el es = elim (Bool-cases (status.found && status.validated)) [
    | inl final ↦ elim (Option-cases status.response) [
      | inl absent ↦
          rw (final, absent)
            (incomplete_round-Polled ctx_err validated_transaction_response nil_response
              (no_response status es final absent))
      | inr (response, present) ↦
          rw (final, present) (found_validated status response es final present)
    ]
    | inr unsettled ↦ elim (Bool-cases (ltb cfg.last_ledger_sequence ledger)) [
      | inl past ↦ rw (unsettled, past) (expired ledger status el es unsettled (ltb→lt _ _ past))
      | inr within ↦
          rw (unsettled, within) (pending ledger status el es unsettled (ground (arith, within)))
    ]
  ]

  from_result : {p q : Progress T E C} → p ≡ q → Polled q → Polled p
  from_result e h = subst Polled (sym e) h

  pub poll-Polled : Polled (poll cfg n r)
  unfolding poll
  poll-Polled = elim (Option-cases r.waited) [
    | inr (c, stop) ↦ from_result (rw stop refl) (stopped c)
    | inl go ↦ elim (Result-cases r.ledger) [
      | inr (e, el) ↦
          from_result (rw (go, el) refl) (
            incomplete_round-Polled r.ctx_err validated_ledger_lookup (of_query e) (no_ledger e el))
      | inl (ledger, el) ↦ elim (Result-cases r.status) [
        | inr (e, es) ↦
            from_result (rw (go, el, es) refl)
              (incomplete_round-Polled r.ctx_err transaction_lookup (of_query e) (no_status e es))
        | inl (status, es) ↦ elim (Option-cases r.ctx_err) [
          | inr (c, stop) ↦ from_result (rw (go, el, es, stop) refl) (stopped c)
          | inl still ↦
              from_result (rw (go, el, es, still) refl)
                (settle-Polled r.ctx_err_again ledger status el es)
        ]
      ]
    ]
  ]
