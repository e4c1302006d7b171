-- ===== src/Control/Classify/Executed.antt =====
-- What `classify_results` says of one claim that was executed or skipped: a confirmation comes from an
-- assigned order that is filled.
use safe_agent.Prelude.{
  ℕ, ◌<◌, List, [], ◌∷◌, length, some, Bool, true, false, ◌||◌, ◌≡◌, refl, inl, inr, arith,
  if◌then◌else◌, Bool-cases, is_some,
}
use safe_agent.Prelude.Lists.{get_elem?, get_elem?-some}
use safe_agent.Prelude.Members.{In}
use safe_agent.Prelude.Table.{Table, lookup}
use safe_agent.Control.Models.{
  EvidenceTier, full_identifier, partial_identifier, weak_heuristic, identifier_conflict,
  incompatible, OrderDisposition, Timeliness, Result, confirmed, unrecorded_internally,
  missing_externally, uncertain, MatchConfidence, BrokerOrder, InternalClaim, is_filled, is_given,
  no_case, open_case, not_applicable, unknown_position, ambiguous_provider_response,
  ambiguous_multiple_identifier_matches, ambiguous_multiple_weak_matches,
  identifier_conflict_reason, broker_match_not_found,
}
use safe_agent.Control.Resolution.{Assignment, assigned, ambiguous, conflict, no_order}
use safe_agent.Control.Assignments.States.{involved_of}
use safe_agent.Control.Assignments.Pairs.{is_graded}
use safe_agent.Control.Results.{
  ReconciliationResult, plain, matched, several, is_success_interpretation, is_skip_interpretation,
  classify_skipped,
}
use safe_agent.Control.Classify.{reasons_of, confidence_of, classify_executed}
use safe_agent.Control.Classify.Parts.{is_quiet, AllThere, stable_ids_lem, disposed_some}

unfoldable pub is_unrecorded : Result → Bool
is_unrecorded unrecorded_internally = true
is_unrecorded r = false

confidence_of_graded :
    (t : EvidenceTier) → is_graded t ≡ true → (x : MatchConfidence) × (confidence_of t ≡ some x)
unfolding is_graded confidence_of
confidence_of_graded full_identifier h = (_, refl)
confidence_of_graded partial_identifier h = (_, refl)
confidence_of_graded weak_heuristic h = (_, refl)
confidence_of_graded identifier_conflict h = absurd (ground (arith, h))
confidence_of_graded incompatible h = absurd (ground (arith, h))

module _ (orders : List BrokerOrder) (assignments : Table Assignment) where
  -- The confirmation of a claim: a filled order is assigned to it.
  abbrev pub Confirms : ℕ → ReconciliationResult → Type 0
  Confirms i r =
      (o : ℕ) × (t : EvidenceTier) × (x : BrokerOrder) × (r.matched_broker_order ≡ some o)
      × (lookup i assignments ≡ some (assigned o t))
      × (get_elem? orders o ≡ some x)
      × (is_filled x.status ≡ true)

  pub record Says (i : ℕ) (r : ReconciliationResult) : Type 0 where
    pub own : r.claim ≡ some i
    pub recorded : is_unrecorded r.result ≡ false
    pub confirmation : r.result ≡ confirmed → Confirms i r

  pub Says-quiet :
      (i : ℕ) (r : ReconciliationResult) → r.claim ≡ some i → is_quiet r.result ≡ true → Says i r
  unfolding is_quiet is_unrecorded
  Says-quiet i r e q = record {
    own = e;
    recorded = quiet_recorded r.result q;
    confirmation = λ h. absurd (ground (arith, q, h));
  }
    where
      quiet_recorded : (x : Result) → is_quiet x ≡ true → is_unrecorded x ≡ false
      quiet_recorded unrecorded_internally h = ground (arith, h)
      quiet_recorded _ h = refl

  -- The results of one claim.
  abbrev pub About : ℕ → List ReconciliationResult → Type 0
  About i rs =
      ((r : ReconciliationResult) × In r rs) × ((r : ReconciliationResult) → In r rs → Says i r)

  pub About-one : (i : ℕ) (r : ReconciliationResult) → Says i r → About i (r ∷ [])
  About-one i r s = ((r, inl refl), λ r' m. elim m [ inl same ↦ rw same s | inr h ↦ absurd h ])

  module _ (disposition : Table OrderDisposition)
      (disposed : (o : ℕ) → o < length orders → is_some (lookup o disposition) ≡ true) where
    pub classify_executed_lem :
        (i : ℕ) (claim : InternalClaim) (age : Timeliness) (res : Assignment)
        → lookup i assignments ≡ some res
        → ((o : ℕ) (t : EvidenceTier)
            → res ≡ assigned o t
            → (o < length orders) × (is_graded t ≡ true))
        → AllThere orders (involved_of (some res))
        → (rs : List ReconciliationResult) × (classify_executed i claim age orders disposition res
            ≡ some rs)
          × About i rs
    unfolding classify_executed is_quiet involved_of
    classify_executed_lem i claim age (assigned o t) here there named =
        let (x, e) = get_elem?-some orders o (there o t refl).0 in
        let (category, g) = disposed_some orders disposition disposed o (there o t refl).0 in
        let (confidence, f) = confidence_of_graded t (there o t refl).1 in
        elim (Bool-cases (is_filled x.status)) [
          | inl filled ↦
              let r =
                matched i o age confirmed (reasons_of t) no_case confidence not_applicable
                  category in
              (
                r ∷ [],
                ground (arith, e, f, g, filled),
                About-one i r (record {
                  own = refl;
                  recorded = unfold is_unrecorded in refl;
                  confirmation = λ h. (o, t, x, refl, here, e, filled);
                }),
              )
          | inr other ↦
              let r =
                matched i o age uncertain (ambiguous_provider_response ∷ []) open_case confidence
                  unknown_position category in
              (r ∷ [], ground (arith, e, f, g, other), About-one i r (Says-quiet i r refl refl))
        ]
    classify_executed_lem i claim age (ambiguous t os) here there named =
        let (ids, e) = stable_ids_lem orders os named in
        let r =
          several i age uncertain
            ((if is_given claim.broker_order_id || is_given claim.client_order_id
                then ambiguous_multiple_identifier_matches
                else ambiguous_multiple_weak_matches)
              ∷ [])
            ids in
        (r ∷ [], ground (arith, e), About-one i r (Says-quiet i r refl refl))
    classify_executed_lem i claim age (conflict os) here there named =
        let (ids, e) = stable_ids_lem orders os named in
        let r = several i age uncertain (identifier_conflict_reason ∷ []) ids in
        (r ∷ [], ground (arith, e), About-one i r (Says-quiet i r refl refl))
    classify_executed_lem i claim age no_order here there named =
        let r =
          plain i age
            (if is_success_interpretation claim.caller_interpretation
              then missing_externally
              else uncertain)
            (broker_match_not_found ∷ []) open_case unknown_position in
        (
          r ∷ [],
          refl,
          About-one i r (
              Says-quiet i r refl
                (quiet_either (is_success_interpretation claim.caller_interpretation))),
        )
      where
        quiet_either : (b : Bool) → is_quiet (if b then missing_externally else uncertain) ≡ true
        quiet_either true = refl
        quiet_either false = refl

    pub classify_skipped-Says :
        (i : ℕ) (claim : InternalClaim) (age : Timeliness) → Says i (classify_skipped i claim age)
    unfolding classify_skipped is_quiet
    classify_skipped-Says i claim age =
        elim (Bool-cases (is_skip_interpretation claim.caller_interpretation)) [
          | inl e ↦ rw e (Says-quiet i _ refl refl)
          | inr e ↦ rw e (Says-quiet i _ refl refl)
        ]
