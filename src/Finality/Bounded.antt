-- ===== src/Finality/Bounded.antt =====
-- WaitForFinality of xrpl/internal/client/finality.go makes progress: which rounds end it.
use xrpl_go.Base.{
  ℕ, suc, ◌+◌, ◌≤◌, ◌<◌, ◌≡◌, ◌≢◌, ◌⊎◌, inl, inr, refl, sym, subst, ◌∙◌, List, [], ◌∷◌, ◌++◌, true,
  false, ◌&&◌, some, length, All, arith,
}
use xrpl_go.Base.Int.{pos, ◌<ℤ◌, ◌≤ℤ◌}
use xrpl_go.Base.Results.{ok}
use xrpl_go.Finality.{
  TransactionStatus, FinalityConfig, Round, waiting, poll_rounds, wait_for_finality,
}
use xrpl_go.Finality.Steps.{
  IsIncomplete, no_ledger, no_status, no_response, poll_rounds_step, Polled, counted, pending,
  poll-Polled,
}
use xrpl_go.Finality.Results.{IsValid, wait_valid}

-- The queries of the round gave a validated response, or showed that the last ledger has passed.
pub data IsDecisive {ℓ} {T : Type ℓ} {E C : Type 0} (cfg : FinalityConfig) (r : Round T E C)
    : Type ℓ where
  validated_response :
      (ledger : ℕ) (status : TransactionStatus T) (response : T)
      → r.ledger ≡ ok ledger
      → r.status ≡ ok status
      → (status.found && status.validated) ≡ true
      → status.response ≡ some response
      → IsDecisive cfg r
  ledger_passed :
      (ledger : ℕ) (status : TransactionStatus T)
      → r.ledger ≡ ok ledger
      → r.status ≡ ok status
      → (status.found && status.validated) ≡ false
      → cfg.last_ledger_sequence < ledger
      → IsDecisive cfg r

module _ {ℓ} {T : Type ℓ} {E C : Type 0} (cfg : FinalityConfig) where
  module _ (n : ℕ) (r : Round T E C) where
    -- A decisive round is complete.
    decisive_complete : IsDecisive cfg r → IsIncomplete r → ⊥
    decisive_complete (validated_response l s x el es f p) (no_ledger e d) = cc
    decisive_complete (validated_response l s x el es f p) (no_status e d) = cc
    decisive_complete (validated_response l s x el es f p) (no_response t d g q) =
        let same : s ≡ t = cc in cc
    decisive_complete (ledger_passed l s el es u past) (no_ledger e d) = cc
    decisive_complete (ledger_passed l s el es u past) (no_status e d) = cc
    decisive_complete (ledger_passed l s el es u past) (no_response t d g q) =
        let same : s ≡ t = cc in cc

    pending_undecided :
        (ledger : ℕ) (status : TransactionStatus T)
        → r.ledger ≡ ok ledger
        → r.status ≡ ok status
        → (status.found && status.validated) ≡ false
        → ledger ≤ cfg.last_ledger_sequence
        → IsDecisive cfg r
        → ⊥
    pending_undecided ledger status el es u within (validated_response l s x dl ds f p) =
        let same : s ≡ status = cc in cc
    pending_undecided ledger status el es u within (ledger_passed l s dl ds v past) =
        let same : l ≡ ledger = cc in omega (arith, same, within, past)

    waiting_undecided : {m : ℕ} → Polled cfg n r (waiting m) → IsDecisive cfg r → ⊥
    waiting_undecided (counted i below) d = decisive_complete d i
    waiting_undecided (pending ledger status el es u within) d =
        pending_undecided ledger status el es u within d

    pending_complete :
        (ledger : ℕ) (status : TransactionStatus T)
        → r.ledger ≡ ok ledger
        → r.status ≡ ok status
        → (status.found && status.validated) ≡ false
        → IsIncomplete r
        → ⊥
    pending_complete ledger status el es u (no_ledger e d) = cc
    pending_complete ledger status el es u (no_status e d) = cc
    pending_complete ledger status el es u (no_response t d g q) = let same : status ≡ t = cc in cc

    waiting_counted :
        {m : ℕ}
        → Polled cfg n r (waiting m)
        → IsIncomplete r
        → (m ≡ suc n) × (pos (suc n) <ℤ cfg.max_attempts)
    waiting_counted (counted j below) i = (refl, below)
    waiting_counted (pending ledger status el es u within) i =
        absurd (pending_complete ledger status el es u i)

  next_waits :
      (n m : ℕ) (r : Round T E C) (rs : List (Round T E C))
      → poll_rounds cfg n (r ∷ rs) ≡ waiting m
      → (k : ℕ) × Polled cfg n r (waiting k) × (poll_rounds cfg k rs ≡ waiting m)
  next_waits n m r rs e = elim (poll_rounds_step cfg n r rs (waiting m) e) [
    | inl (k, at_r, later) ↦ (k, subst (Polled cfg n r) at_r (poll-Polled cfg n r), later)
    | inr (now, done) ↦ absurd done
  ]

  split_waits :
      (before rs : List (Round T E C)) (n m : ℕ)
      → poll_rounds cfg n (before ++ rs) ≡ waiting m
      → (k : ℕ) × (poll_rounds cfg k rs ≡ waiting m)
  split_waits [] rs n m e = (n, e)
  split_waits (r ∷ before) rs n m e =
      let (k, met, later) = next_waits n m r (before ++ rs) e in split_waits before rs k m later

  tail_counted :
      (tail : List (Round T E C)) (n m : ℕ)
      → poll_rounds cfg n tail ≡ waiting m
      → All IsIncomplete tail
      → (tail ≡ []) ⊎ (pos (n + length tail) <ℤ cfg.max_attempts)
  tail_counted [] n m e h = inl refl
  tail_counted (r ∷ tail) n m e (i, h) =
      let (k, met, later) = next_waits n m r tail e in
      let (count, below) = waiting_counted n r met i in
      elim (tail_counted tail k m later h) [
        | inl none_left ↦ inr (rw none_left (omega (arith, below)))
        | inr below' ↦ inr (omega (arith, count, below'))
      ]

  -- With valid settings, the wait is over once there was a round in which both queries succeeded and
  -- gave a validated response, or no validated result and a validated ledger past the last ledger
  -- sequence: whatever the other rounds met.
  pub wait_for_finality_decided :
      (before after : List (Round T E C)) (r : Round T E C) (m : ℕ)
      → IsValid cfg
      → IsDecisive cfg r
      → wait_for_finality cfg (before ++ (r ∷ after)) ≢ waiting m
  wait_for_finality_decided before after r m valid d e =
      let (n, at_r) = split_waits before (r ∷ after) 0 m (sym (wait_valid cfg _ valid) ∙ e) in
      let (k, met, later) = next_waits n m r after at_r in waiting_undecided n r met d

  -- With valid settings, the wait is over once there were as many incomplete rounds in a row as the
  -- limit says: whatever the rounds before them met.
  pub wait_for_finality_bounded :
      (before tail : List (Round T E C)) (m : ℕ)
      → IsValid cfg
      → All IsIncomplete tail
      → cfg.max_attempts ≤ℤ pos (length tail)
      → wait_for_finality cfg (before ++ tail) ≢ waiting m
  wait_for_finality_bounded before tail m valid h enough e =
      let (n, at_tail) = split_waits before tail 0 m (sym (wait_valid cfg _ valid) ∙ e) in
      let (interval, positive, sequence) = valid in
      elim (tail_counted tail n m at_tail h) [
        | inl none_left ↦ too_few tail none_left positive enough
        | inr below ↦ omega (arith, below, enough)
      ]
    where
      too_few :
          (tail : List (Round T E C))
          → tail ≡ []
          → pos 1 ≤ℤ cfg.max_attempts
          → cfg.max_attempts ≤ℤ pos (length tail)
          → ⊥
      too_few [] e positive enough = ground arith
      too_few (r ∷ tail) e positive enough = cc
