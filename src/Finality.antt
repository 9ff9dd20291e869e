-- ===== src/Finality.antt =====
-- xrpl/internal/client/finality.go: the wait for a validated transaction. What the hooks and the
-- context answer in a polling round is the round's record, so a run is a list of rounds.
use xrpl_go.Base.{
  ℕ, suc, ◌<◌, ◌≡◌, List, [], ◌∷◌, Bool, true, false, ◌&&◌, ltb, ◌==◌, if◌then◌else◌, Bytes, codes,
  beq_bytes, not, Option, none, some, length, take,
}
use xrpl_go.Base.Int.{ℤ, pos, ltb_ℤ, leb_ℤ}
use xrpl_go.Base.Results.{Result, ok, err, ◌>>◌, guard}
pub mod Steps
pub mod Results
pub mod Bounded
pub mod Preliminary

-- `EngineResultFamily`; `unknown` is the empty string.
pub data EngineResultFamily : Type 0 where
  tes ter tec tef tel tem unknown : EngineResultFamily

-- The `switch` on the first three bytes.
unfoldable pub family_of : Bytes → EngineResultFamily
family_of family =
    if beq_bytes family (codes "tes")
    then tes
    else if beq_bytes family (codes "ter")
    then ter
    else if beq_bytes family (codes "tec")
    then tec
    else if beq_bytes family (codes "tef")
    then tef
    else if beq_bytes family (codes "tel")
    then tel
    else if beq_bytes family (codes "tem")
    then tem
    else unknown

-- `ClassifyEngineResult`, on the bytes of the token.
unfoldable pub classify_engine_result : Bytes → EngineResultFamily
unfolding family_of
classify_engine_result engine_result =
    if ltb (length engine_result) 3 then unknown else family_of (take 3 engine_result)

-- `classification != EngineResultTEM`
unfoldable pub is_tem : EngineResultFamily → Bool
is_tem tem = true
is_tem _ = false

-- The `ErrPreliminaryResult` of a token and its message.
pub data PreliminaryError : Type 0 where
  preliminary_result : Bytes → Bytes → PreliminaryError

-- `ValidatePreliminaryResult`
unfoldable pub validate_preliminary_result : Bytes → Bytes → Result PreliminaryError (Unit {0})
unfolding classify_engine_result is_tem
validate_preliminary_result engine_result engine_result_message =
    if not (length engine_result == 0) && not (is_tem (classify_engine_result engine_result))
    then ok tt
    else err (preliminary_result engine_result engine_result_message)

-- The part of the wait that fails in an incomplete round.
pub data Operation : Type 0 where
  validated_ledger_lookup transaction_lookup validated_transaction_response : Operation

-- The cause of an incomplete round: an error of a query, or a validated result without a response.
pub data Cause (E : Type 0) : Type 0 where
  of_query : E → Cause E
  nil_response : Cause E

-- The errors, with what their messages tell. `cancelled` passes the context's error on.
pub data FinalityError (E C : Type 0) : Type 0 where
  invalid_poll_interval invalid_max_retries : ℤ → FinalityError E C
  invalid_last_ledger_sequence : FinalityError E C
  cancelled : C → FinalityError E C
  finality_transport : ℕ → Operation → Cause E → FinalityError E C
  transaction_expired : ℕ → ℕ → Bytes → FinalityError E C

-- `TransactionStatus`
pub record TransactionStatus {ℓ} (T : Type ℓ) : Type ℓ where
  pub response : Option T
  pub found : Bool
  pub validated : Bool

-- `FinalityConfig`
pub record FinalityConfig : Type 0 where
  pub last_ledger_sequence : ℕ
  pub preliminary_result : Bytes
  pub poll_interval : ℤ
  pub max_attempts : ℤ

-- What one polling round meets: the end of `Wait`, the two hooks, and `ctx.Err()` where the round
-- asks for it the first and the second time.
pub record Round {ℓ} (T : Type ℓ) (E C : Type 0) : Type ℓ where
  pub waited : Option C
  pub ledger : Result E ℕ
  pub status : Result E (TransactionStatus T)
  pub ctx_err : Option C
  pub ctx_err_again : Option C

-- Where the loop is: waiting, with the number of incomplete rounds, or done.
pub data Progress {ℓ} (T : Type ℓ) (E C : Type 0) : Type ℓ where
  waiting : ℕ → Progress T E C
  returned : T → Progress T E C
  failed : FinalityError E C → Progress T E C

module _ {E C : Type 0} where
  -- `ValidatePollInterval`
  unfoldable pub validate_poll_interval : ℤ → Result (FinalityError E C) (Unit {0})
  validate_poll_interval poll_interval =
      if ltb_ℤ poll_interval (pos 0) then err (invalid_poll_interval poll_interval) else ok tt

  -- `ValidateMaxRetries`
  unfoldable pub validate_max_retries : ℤ → Result (FinalityError E C) (Unit {0})
  validate_max_retries max_retries =
      if leb_ℤ max_retries (pos 0) then err (invalid_max_retries max_retries) else ok tt

  -- `ValidateLastLedgerSequence`
  unfoldable pub validate_last_ledger_sequence : ℕ → Result (FinalityError E C) (Unit {0})
  validate_last_ledger_sequence last_ledger_sequence =
      if last_ledger_sequence == 0 then err invalid_last_ledger_sequence else ok tt

  -- `ValidateFinalityMonitoring`
  unfoldable pub validate_finality_monitoring : ℤ → ℤ → Result (FinalityError E C) (Unit {0})
  validate_finality_monitoring poll_interval max_retries = do
    validate_poll_interval poll_interval
    validate_max_retries max_retries

module _ {ℓ} {T : Type ℓ} {E C : Type 0} (cfg : FinalityConfig) where
  -- `incompleteRound`, and the `continue` behind it.
  unfoldable pub incomplete_round : ℕ → Option C → Operation → Cause E → Progress T E C
  incomplete_round incomplete_rounds ctx_err operation cause = elim ctx_err [
    | some e ↦ failed (cancelled e)
    | none ↦
        if leb_ℤ cfg.max_attempts (pos (suc incomplete_rounds))
        then failed (finality_transport (suc incomplete_rounds) operation cause)
        else waiting (suc incomplete_rounds)
  ]

  -- The end of a round whose queries succeeded.
  unfoldable pub settle : ℕ → Option C → ℕ → TransactionStatus T → Progress T E C
  unfolding incomplete_round
  settle incomplete_rounds ctx_err validated_ledger status =
      if status.found && status.validated
      then (elim status.response [
        | none ↦
            incomplete_round incomplete_rounds ctx_err validated_transaction_response nil_response
        | some response ↦ returned response
      ])
      else if ltb cfg.last_ledger_sequence validated_ledger
      then failed
          (transaction_expired validated_ledger cfg.last_ledger_sequence cfg.preliminary_result)
      else waiting 0

  -- One round of the loop.
  unfoldable pub poll : ℕ → Round T E C → Progress T E C
  unfolding incomplete_round settle
  poll incomplete_rounds r = elim r.waited [
    | some e ↦ failed (cancelled e)
    | none ↦ elim r.ledger [
      | err e ↦ incomplete_round incomplete_rounds r.ctx_err validated_ledger_lookup (of_query e)
      | ok validated_ledger ↦ elim r.status [
        | err e ↦ incomplete_round incomplete_rounds r.ctx_err transaction_lookup (of_query e)
        | ok status ↦ elim r.ctx_err [
          | some e ↦ failed (cancelled e)
          | none ↦ settle incomplete_rounds r.ctx_err_again validated_ledger status
        ]
      ]
    ]
  ]

  -- The loop, over the rounds that have come so far.
  unfoldable pub poll_rounds : ℕ → List (Round T E C) → Progress T E C
  unfolding poll
  poll_rounds incomplete_rounds [] = waiting incomplete_rounds
  poll_rounds incomplete_rounds (r ∷ rs) = elim (poll incomplete_rounds r) [
    | waiting n ↦ poll_rounds n rs
    | returned response ↦ returned response
    | failed e ↦ failed e
  ]

  -- `WaitForFinality`
  unfoldable pub wait_for_finality : List (Round T E C) → Progress T E C
  unfolding poll_rounds validate_finality_monitoring validate_last_ledger_sequence
  wait_for_finality rounds =
      elim (validate_finality_monitoring cfg.poll_interval cfg.max_attempts
        >> validate_last_ledger_sequence cfg.last_ledger_sequence) [
          | err e ↦ failed e
          | ok u ↦ poll_rounds 0 rounds
        ]
