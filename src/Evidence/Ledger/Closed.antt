-- ===== src/Evidence/Ledger/Closed.antt =====
-- What an accepted ledger says of the findings' severities.
use qing_yin.Prelude.{
  All, List, [], ap, contains, inl, inr, ok, some, subst, true, ◌∙◌, ◌∷◌, ◌≡◌, ◌⊎◌,
}
use qing_yin.Prelude.Checks.{Pointwise}
use qing_yin.Text.{Text, lit}
use qing_yin.Json.{Fields, Value, found, obj, str}
use qing_yin.Platform.{Platform}
use qing_yin.Shape.Digests.{HasText}
use qing_yin.Evidence.Bundle.{Reader}
use qing_yin.Evidence.Request.Sources.{OneOf}
use qing_yin.Evidence.Ledger.Shape.{Context, expected_residual_ids, statuses}
use qing_yin.Evidence.Ledger.Resolution.{given}
use qing_yin.Evidence.Ledger.Rounds.{FindingRound, Request, context_of, validate_finding_ledger}
use qing_yin.Evidence.Ledger.Settled.{IsRound}
use qing_yin.Evidence.Ledger.Reviews.{HoldsFindings}
use qing_yin.Evidence.Ledger.Accepted.{validate_finding_ledger_iff}

-- what the status of a finding says of its severity and its id
abbrev pub IsClosed : Text → Value → Type 0
IsClosed target_type v =
    (d : Fields) × (id : Text) × (v ≡ obj d)
    × (HasText d (lit "id") id
        × ((HasText d (lit "status") (lit "Accepted-Residual")
              × (HasText d (lit "severity") (lit "P1")
                  × (contains id (expected_residual_ids target_type) ≡ true)))
            ⊎ (HasText d (lit "status") (lit "Resolved")
                ⊎ (HasText d (lit "status") (lit "Deferred-P2")
                    × HasText d (lit "severity") (lit "P2")))))

last_status :
    (status : Value)
    → OneOf status statuses
    → ((status ≡ str (lit "Open")) → ⊥)
    → ((status ≡ str (lit "Accepted-Residual")) → ⊥)
    → ((status ≡ str (lit "Resolved")) → ⊥)
    → status ≡ str (lit "Deferred-P2")
last_status status (inl e) a b c = absurd (a e)
last_status status (inr (inl e)) a b c = absurd (b e)
last_status status (inr (inr (inl e))) a b c = absurd (c e)
last_status status (inr (inr (inr (inl e)))) a b c = e
last_status status (inr (inr (inr (inr e)))) a b c = absurd e

round-IsClosed :
    (p : Platform) (r : Reader) (x : Context) (v : Value) (t : FindingRound)
    → IsRound p r x v t
    → IsClosed x.target_type v
round-IsClosed p r x v t (d, (e, k), (id, has_id, (shaped, (status, given, (settled, s))))) =
    let (other, other_given, known) = shaped.1.0 in
    let same_status : other ≡ status = cc in
    (
      d,
      id,
      e,
      (
        has_id.0,
        elim settled.1 [
          | inl (a, residual) ↦ inl (given ∙ ap some a, (residual.0.0, residual.0.1.0))
          | inr (not_a, inl (b, resolved)) ↦ inr (inl (given ∙ ap some b))
          | inr (not_a, inr (not_b, deferred)) ↦ inr (
              inr (
                given
                    ∙ ap some (
                        last_status status (subst (λ w. OneOf w statuses) same_status known)
                          settled.0 not_a not_b),
                deferred.0,
              ))
        ],
      ),
    )

rounds-IsClosed :
    (p : Platform) (r : Reader) (x : Context) (vs : List Value) (ts : List FindingRound)
    → Pointwise (IsRound p r x) vs ts
    → All (IsClosed x.target_type) vs
rounds-IsClosed p r x [] [] h = tt
rounds-IsClosed p r x [] (t ∷ ts) h = absurd h
rounds-IsClosed p r x (v ∷ vs) [] h = absurd h
rounds-IsClosed p r x (v ∷ vs) (t ∷ ts) (h, k) =
    (round-IsClosed p r x v t h, rounds-IsClosed p r x vs ts k)

-- In an accepted ledger every finding is an accepted residual of severity P1 that the target may
-- accept, or is resolved, or is a deferred P2: none is open, and a P0 is resolved.
pub validate_finding_ledger-IsClosed :
    (p : Platform) (r : Reader) (q : Request)
    → validate_finding_ledger p r q ≡ ok tt
    → (findings : List Value) × HoldsFindings p r q.bundle findings
      × All (IsClosed q.target_type) findings
validate_finding_ledger-IsClosed p r q h =
    let ledger = (validate_finding_ledger_iff p r q).0 h in
    let (findings, holds, (cutoff, c, (reports, a, (reviews, b, (times, t, (latest, l, found)))))) =
      ledger.1.1 in
    let (rounds, each_round, rest) = found in
    (
      findings,
      holds,
      rounds-IsClosed p r (context_of q cutoff reports latest) findings rounds each_round,
    )
