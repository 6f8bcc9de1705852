-- ===== src/Banking/Tests.antt =====
-- platforms/banking: runs at concrete inputs.
use openmodelops.Base.{
  arith, ◌≤◌, ◌≡◌, refl, ◌⊎◌, true, false, [], ◌∷◌, eq_of_nat, eq_of_string, length,
}
use openmodelops.Base.Dict.{lookup}
use openmodelops.Banking.Score.{transfer, Transaction, decline, score, decision_for}
use openmodelops.Banking.Score.Points.{points, decision_exact}
use openmodelops.Banking.Api.{score_transaction, score_all, without_event}
use openmodelops.Banking.Api.Remembered.{Answers, Known, replayed_answer}

abbrev risky : Transaction
risky = record {
  event_id = "event-01";
  account_token = "account-0001";
  amount_cents = 100;
  province = "ON";
  channel = transfer;
  merchant_category = "books";
  occurred_at = "t";
  device_trusted = true;
  international = true;
  transactions_last_10m = 8;
  failed_auth_last_24h = 3;
}

exactly_seventy : points risky ≡ 70
exactly_seventy = refl

risky_reasons : (score risky).reasons ≡ "INTERNATIONAL" ∷ "HIGH_VELOCITY" ∷ "AUTH_FAILURES" ∷ []
unfolding score
risky_reasons = refl

decision_exact_example : decision_for (score risky).score ≡ decline
decision_exact_example = decision_exact risky

abbrev repeated : Transaction
repeated = record risky { amount_cents = 900000 }

-- Another transaction that comes between
abbrev other : Transaction
other = record risky { event_id = "event-02" }

replayed_answer_example :
    let seen = score_all 2 (other ∷ []) [] in
    let (r, next) = score_transaction 2 risky seen in
    (length seen ≤ 2)
    × ((Answers risky "event-01" r × (r.duplicate ≡ false))
        ⊎ (Known (other ∷ []) "event-01" r × (r.duplicate ≡ true)))
    × ((score_transaction 2 repeated (score_all 2 (other ∷ []) next)).0
        ≡ record r { duplicate = true })
replayed_answer_example =
    replayed_answer 2 (other ∷ []) (other ∷ []) risky repeated (omega arith) refl

seen_before : (score_transaction 2 repeated (score_all 2 (risky ∷ []) [])).0.duplicate ≡ true
unfolding score_transaction score_all lookup without_event
seen_before = refl
