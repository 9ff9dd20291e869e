-- ===== src/Finality/Results.antt =====
-- What WaitForFinality of xrpl/internal/client/finality.go returns, and that it ends.
use xrpl_go.Base.{
  ℕ, suc, ◌≤◌, ◌<◌, ◌≡◌, ◌⊎◌, inl, inr, refl, sym, subst, ap, ◌∙◌, List, [], ◌∷◌, ◌++◌,
  append_assoc, append-nil, true, false, ◌&&◌, some, length, length-append, All, All-append, arith,
  Bytes,
}
use xrpl_go.Base.Int.{pos, ◌<ℤ◌, ◌≤ℤ◌}
use xrpl_go.Base.Results.{Result, ok, ◌>>◌}
use xrpl_go.Finality.{
  Operation, Cause, FinalityError, TransactionStatus, FinalityConfig, Round, Progress, waiting,
  returned, failed, finality_transport, transaction_expired, poll, poll_rounds, wait_for_finality,
  validate_finality_monitoring, validate_poll_interval, validate_max_retries,
  validate_last_ledger_sequence,
}
use xrpl_go.Finality.Steps.{
  IsIncomplete, Waits, start, polled, ended, poll_rounds_reaches, Polled, counted, given_up,
  found_validated, expired, pending, poll-Polled, Waits-append, poll_rounds-done, IsDone,
}

module _ {ℓ} {T : Type ℓ} {E C : Type 0} where
  -- The rounds end with n incomplete ones.
  abbrev pub EndsIncomplete : List (Round T E C) → ℕ → Type ℓ
  EndsIncomplete rounds n =
      (before tail : List (Round T E C)) × (rounds ≡ before ++ tail)
      × (length tail ≡ n)
      × All IsIncomplete tail

  add_incomplete :
      (rounds : List (Round T E C)) (n : ℕ) (r : Round T E C)
      → EndsIncomplete rounds n
      → IsIncomplete r
      → EndsIncomplete (rounds ++ (r ∷ [])) (suc n)
  add_incomplete rounds n r (before, tail, eq, size, all) i = (
    before,
    tail ++ (r ∷ []),
    ap (λ l. l ++ (r ∷ [])) eq ∙ append_assoc before tail (r ∷ []),
    omega (arith, length-append tail (r ∷ []), size),
    All-append IsIncomplete tail (r ∷ []) all (i, tt),
  )

  none_incomplete : (rounds : List (Round T E C)) → EndsIncomplete rounds 0
  none_incomplete rounds = (rounds, [], sym (append-nil rounds), refl, tt)

module _ {ℓ} {T : Type ℓ} {E C : Type 0} (cfg : FinalityConfig) where
  next_count :
      (rounds : List (Round T E C)) (n m : ℕ) (r : Round T E C)
      → EndsIncomplete rounds n
      → Polled cfg n r (waiting m)
      → EndsIncomplete (rounds ++ (r ∷ [])) m × ((m ≡ 0) ⊎ (pos m <ℤ cfg.max_attempts))
  next_count rounds n _ r w (counted i below) = (add_incomplete rounds n r w i, inr below)
  next_count rounds n _ r w (pending ledger status el es unsettled within) =
      (none_incomplete (rounds ++ (r ∷ [])), inl refl)

  -- While the loop waits, its count is that of the incomplete rounds at the end, and it is 0 or below
  -- the limit.
  Waits-EndsIncomplete :
      {rounds : List (Round T E C)} {n : ℕ}
      → Waits cfg rounds n
      → EndsIncomplete rounds n × ((n ≡ 0) ⊎ (pos n <ℤ cfg.max_attempts))
  Waits-EndsIncomplete start = (none_incomplete [], inl refl)
  Waits-EndsIncomplete (polled rs n m r w e) =
      next_count rs n m r (Waits-EndsIncomplete w).0
        (subst (Polled cfg n r) e (poll-Polled cfg n r))

-- The settings that the validation lets through.
abbrev pub IsValid : FinalityConfig → Type 0
IsValid cfg =
    (pos 0 ≤ℤ cfg.poll_interval) × (pos 1 ≤ℤ cfg.max_attempts) × (1 ≤ cfg.last_ledger_sequence)

settings_hold :
    {E C : Type 0} (cfg : FinalityConfig)
    → IsValid cfg
    → ◌≡◌ {A = Result (FinalityError E C) (Unit {0})}
        (validate_finality_monitoring cfg.poll_interval cfg.max_attempts
          >> validate_last_ledger_sequence cfg.last_ledger_sequence)
        (ok tt)
unfolding validate_finality_monitoring validate_poll_interval validate_max_retries
    validate_last_ledger_sequence
settings_hold cfg (a, b, c) = ground arith

at_limit :
    (cfg : FinalityConfig) (n : ℕ)
    → (n ≡ 0) ⊎ (pos n <ℤ cfg.max_attempts)
    → pos 1 ≤ℤ cfg.max_attempts
    → cfg.max_attempts ≤ℤ pos (suc n)
    → pos (suc n) ≡ cfg.max_attempts
at_limit cfg n (inl none_yet) positive last = ground arith
at_limit cfg n (inr below) positive last = ground arith

module _ {ℓ} {T : Type ℓ} {E C : Type 0} (cfg : FinalityConfig) (rounds : List (Round T E C)) where
  pub wait_valid : IsValid cfg → wait_for_finality cfg rounds ≡ poll_rounds cfg 0 rounds
  unfolding wait_for_finality
  wait_valid valid = rw (settings_hold {E = E} {C = C} cfg valid, wait_for_finality) refl

module _ {ℓ} {T : Type ℓ} {E C : Type 0} (cfg : FinalityConfig) where
  wait-Waits :
      (before : List (Round T E C)) (n : ℕ)
      → IsValid cfg
      → Waits cfg before n
      → wait_for_finality cfg before ≡ waiting n
  unfolding poll_rounds
  wait-Waits before n valid w =
      wait_valid cfg before valid
      ∙ ap (poll_rounds cfg 0) (sym (append-nil before))
      ∙ Waits-append cfg before [] n w

  ends_with :
      (before : List (Round T E C)) (n : ℕ) (r : Round T E C) (p : Progress T E C)
      → IsValid cfg
      → Waits cfg before n
      → poll cfg n r ≡ p
      → IsDone p
      → wait_for_finality cfg (before ++ (r ∷ [])) ≡ p
  ends_with before n r p valid w e done =
      wait_valid cfg (before ++ (r ∷ [])) valid
      ∙ Waits-append cfg before (r ∷ []) n w
      ∙ poll_rounds-done cfg n r [] p e done

-- The round in which the loop ended, as it was met.
module _ {ℓ} {T : Type ℓ} {E C : Type 0} (cfg : FinalityConfig) (rounds : List (Round T E C)) where
  -- The wait ends in the round r: after the rounds before it the wait goes on, and with r it is over,
  -- with this result.
  abbrev pub EndsIn :
      List (Round T E C) → Round T E C → List (Round T E C) → Progress T E C → Type ℓ
  EndsIn before r after p =
      (rounds ≡ before ++ (r ∷ after))
      × ((n : ℕ) × (wait_for_finality cfg before ≡ waiting n))
      × (wait_for_finality cfg (before ++ (r ∷ [])) ≡ p)

  abbrev EndsPolled : Progress T E C → Type ℓ
  EndsPolled p =
      (before after : List (Round T E C)) × (n : ℕ) × (r : Round T E C) × EndsIn before r after p
      × EndsIncomplete before n
      × ((n ≡ 0) ⊎ (pos n <ℤ cfg.max_attempts))
      × Polled cfg n r p

  wait-EndsPolled :
      (p : Progress T E C)
      → IsValid cfg
      → wait_for_finality cfg rounds ≡ p
      → ((m : ℕ) × (p ≡ waiting m) × Waits cfg rounds m) ⊎ EndsPolled p
  wait-EndsPolled p valid e =
      elim (poll_rounds_reaches cfg rounds [] 0 p start (sym (wait_valid cfg rounds valid) ∙ e)) [
        | inl still ↦ inl still
        | inr (ended before after n r eq w at_r done) ↦
            let (tail, below) = Waits-EndsIncomplete cfg w in
            inr (
              before,
              after,
              n,
              r,
              (
                eq,
                (n, wait-Waits cfg before n valid w),
                ends_with cfg before n r p valid w at_r done,
              ),
              tail,
              below,
              subst (Polled cfg n r) at_r (poll-Polled cfg n r),
            )
      ]

module _ {ℓ} {T : Type ℓ} {E C : Type 0} (cfg : FinalityConfig) where
  response_met :
      (n : ℕ) (r : Round T E C) (x : T)
      → Polled cfg n r (returned x)
      → (status : TransactionStatus T) × (r.status ≡ ok status)
        × ((status.found && status.validated) ≡ true)
        × (status.response ≡ some x)
  response_met n r x (found_validated status x' es final present) = (status, es, final, present)

  -- With valid settings, a response that the wait returns is the one that the transaction lookup
  -- gave in the round that ended the wait, together with the word that it was found and is validated:
  -- after the rounds before that round the wait goes on.
  pub wait_for_finality-returned :
      (rounds : List (Round T E C)) (x : T)
      → IsValid cfg
      → wait_for_finality cfg rounds ≡ returned x
      → (before after : List (Round T E C)) × (r : Round T E C) × (status : TransactionStatus T)
        × EndsIn cfg rounds before r after (returned x)
        × (r.status ≡ ok status)
        × ((status.found && status.validated) ≡ true)
        × (status.response ≡ some x)
  wait_for_finality-returned rounds x valid e =
      elim (wait-EndsPolled cfg rounds (returned x) valid e) [
        | inl (m, eq, w) ↦ cc
        | inr (before, after, n, r, eq, tail, below, met) ↦
            let (status, es, final, present) = response_met n r x met in
            (before, after, r, status, eq, es, final, present)
      ]

  expiry_met :
      (n : ℕ) (r : Round T E C) (ledger last : ℕ) (text : Bytes)
      → Polled cfg n r (failed (transaction_expired ledger last text))
      → (status : TransactionStatus T) × (r.ledger ≡ ok ledger)
        × (r.status ≡ ok status)
        × ((status.found && status.validated) ≡ false)
        × (last < ledger)
        × (last ≡ cfg.last_ledger_sequence)
  expiry_met n r ledger last text (expired l status el es unsettled past) =
      (status, el, es, unsettled, past, refl)

  -- With valid settings, where a transaction is reported as expired, the round that ended the wait
  -- gave the reported validated ledger, which is past the last ledger sequence, and a lookup that still
  -- did not show a validated result: after the rounds before that round the wait goes on.
  pub wait_for_finality-expired :
      (rounds : List (Round T E C)) (ledger last : ℕ) (text : Bytes)
      → IsValid cfg
      → wait_for_finality cfg rounds ≡ failed (transaction_expired ledger last text)
      → (before after : List (Round T E C)) × (r : Round T E C) × (status : TransactionStatus T)
        × EndsIn cfg rounds before r after (failed (transaction_expired ledger last text))
        × (r.ledger ≡ ok ledger)
        × (r.status ≡ ok status)
        × ((status.found && status.validated) ≡ false)
        × (cfg.last_ledger_sequence < ledger)
  wait_for_finality-expired rounds ledger last text valid e =
      elim (wait-EndsPolled cfg rounds _ valid e) [
        | inl (m, eq, w) ↦ cc
        | inr (before, after, n, r, eq, tail, below, met) ↦
            let (status, el, es, unsettled, past, same) = expiry_met n r ledger last text met in
            (before, after, r, status, eq, el, es, unsettled, rw (← same) past)
      ]

  give_up_met :
      (n k : ℕ) (r : Round T E C) (operation : Operation) (cause : Cause E)
      → Polled cfg n r (failed (finality_transport k operation cause))
      → (k ≡ suc n) × IsIncomplete r × (cfg.max_attempts ≤ℤ pos (suc n))
  give_up_met n k r operation cause (given_up o c i last) = (refl, i, last)

  -- With valid settings, the wait gives up for incomplete rounds only after as many of them in a
  -- row as the limit says, the last of which is the round that ended the wait: after the rounds
  -- before that round the wait goes on.
  pub wait_for_finality-transport :
      (rounds : List (Round T E C)) (k : ℕ) (operation : Operation) (cause : Cause E)
      → IsValid cfg
      → wait_for_finality cfg rounds ≡ failed (finality_transport k operation cause)
      → (pos k ≡ cfg.max_attempts)
        × ((before after : List (Round T E C)) × (r : Round T E C) × EndsIn cfg rounds before r
              after
              (failed (finality_transport k operation cause))
            × EndsIncomplete (before ++ (r ∷ [])) k)
  wait_for_finality-transport rounds k operation cause valid e =
      elim (wait-EndsPolled cfg rounds _ valid e) [
        | inl (m, eq, w) ↦ cc
        | inr (before, after, n, r, eq, tail, below, met) ↦
            let (count, i, last) = give_up_met n k r operation cause met in
            let (interval, positive, sequence) = valid in
            (
              ap pos count ∙ at_limit cfg n below positive last,
              (before, after, r, eq, rw count (add_incomplete before n r tail i)),
            )
      ]
