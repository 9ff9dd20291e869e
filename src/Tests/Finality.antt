-- ===== src/Tests/Finality.antt =====
-- Tests and examples of the theorems on xrpl/internal/client/finality.go.
use xrpl_go.Base.{
  ℕ, ◌≡◌, ◌≢◌, ◌<◌, refl, List, [], ◌∷◌, ◌++◌, Bytes, codes, true, false, ◌&&◌, none, some, arith,
}
use xrpl_go.Base.Int.{pos}
use xrpl_go.Base.Results.{ok, err}
use xrpl_go.Finality.{
  TransactionStatus, FinalityConfig, Round, waiting, returned, failed, finality_transport,
  transaction_expired, transaction_lookup, of_query, validate_poll_interval, validate_max_retries,
  wait_for_finality, preliminary_result,
}
use xrpl_go.Finality.Steps.{IsIncomplete, no_status}
use xrpl_go.Finality.Results.{
  EndsIncomplete, EndsIn, IsValid, wait_for_finality-returned, wait_for_finality-expired,
  wait_for_finality-transport,
}
use xrpl_go.Finality.Bounded.{
  IsDecisive, ledger_passed, wait_for_finality_decided, wait_for_finality_bounded,
}

-- Last ledger 100, and at most two incomplete rounds in a row. A response is a number here, and an
-- error a text.
abbrev cfg : FinalityConfig
cfg = record {
  last_ledger_sequence = 100;
  preliminary_result = codes "tes";
  poll_interval = pos 1;
  max_attempts = pos 2;
}

abbrev Met : Type 0
Met = Round ℕ Bytes Bytes

abbrev met : ℕ → TransactionStatus ℕ → Met
met ledger status = record {
  waited = none;
  ledger = ok ledger;
  status = ok status;
  ctx_err = none;
  ctx_err_again = none;
}

abbrev not_yet : TransactionStatus ℕ
not_yet = record { response = none; found = false; validated = false }

abbrev in_ledger : TransactionStatus ℕ
in_ledger = record { response = some 7; found = true; validated = true }

abbrev lookup_fails : Met
lookup_fails = record {
  waited = none;
  ledger = ok 99;
  status = err (codes "io");
  ctx_err = none;
  ctx_err_again = none;
}

cfg-IsValid : IsValid cfg
cfg-IsValid = omega arith

found_late : wait_for_finality cfg (lookup_fails ∷ met 101 in_ledger ∷ []) ≡ returned 7
unfolding wait_for_finality validate_poll_interval validate_max_retries
found_late = refl

wait_for_finality-returned_example :
    (before after : List Met) × (r : Met) × (status : TransactionStatus ℕ) × EndsIn cfg
      (lookup_fails ∷ met 101 in_ledger ∷ [])
      before
      r
      after
      (returned 7)
    × (r.status ≡ ok status)
    × ((status.found && status.validated) ≡ true)
    × (status.response ≡ some 7)
wait_for_finality-returned_example =
    wait_for_finality-returned cfg (lookup_fails ∷ met 101 in_ledger ∷ []) 7 cfg-IsValid found_late

too_late :
    wait_for_finality cfg (met 100 not_yet ∷ met 101 not_yet ∷ [])
    ≡ failed (transaction_expired 101 100 (codes "tes"))
unfolding wait_for_finality validate_poll_interval validate_max_retries
too_late = refl

wait_for_finality-expired_example :
    (before after : List Met) × (r : Met) × (status : TransactionStatus ℕ) × EndsIn cfg
      (met 100 not_yet ∷ met 101 not_yet ∷ [])
      before
      r
      after
      (failed (transaction_expired 101 100 (codes "tes")))
    × (r.ledger ≡ ok 101)
    × (r.status ≡ ok status)
    × ((status.found && status.validated) ≡ false)
    × (100 < 101)
wait_for_finality-expired_example =
    wait_for_finality-expired cfg (met 100 not_yet ∷ met 101 not_yet ∷ []) 101 100 (codes "tes")
      cfg-IsValid too_late

gives_up :
    wait_for_finality cfg (lookup_fails ∷ lookup_fails ∷ [])
    ≡ failed (finality_transport 2 transaction_lookup (of_query (codes "io")))
unfolding wait_for_finality validate_poll_interval validate_max_retries
gives_up = refl

wait_for_finality-transport_example :
    (pos 2 ≡ pos 2)
    × ((before after : List Met) × (r : Met) × EndsIn cfg
          (lookup_fails ∷ lookup_fails ∷ [])
          before
          r
          after
          (failed (finality_transport 2 transaction_lookup (of_query (codes "io"))))
        × EndsIncomplete (before ++ (r ∷ [])) 2)
wait_for_finality-transport_example =
    wait_for_finality-transport cfg (lookup_fails ∷ lookup_fails ∷ []) 2 transaction_lookup
      (of_query (codes "io")) cfg-IsValid gives_up

passed : IsDecisive cfg (met 101 not_yet)
passed = ledger_passed 101 not_yet refl refl refl (omega arith)

wait_for_finality_decided_example :
    wait_for_finality cfg (lookup_fails ∷ met 101 not_yet ∷ met 102 not_yet ∷ []) ≢ waiting 0
wait_for_finality_decided_example =
    wait_for_finality_decided cfg (lookup_fails ∷ []) (met 102 not_yet ∷ []) (met 101 not_yet) 0
      cfg-IsValid passed

fails : IsIncomplete lookup_fails
fails = no_status (codes "io") refl

wait_for_finality_bounded_example :
    wait_for_finality cfg (met 98 not_yet ∷ lookup_fails ∷ lookup_fails ∷ []) ≢ waiting 2
wait_for_finality_bounded_example =
    wait_for_finality_bounded cfg (met 98 not_yet ∷ []) (lookup_fails ∷ lookup_fails ∷ []) 2
      cfg-IsValid (fails, (fails, tt)) (omega arith)
