-- ===== src/Integrations/Http/Retries.antt =====
-- platforms/integrations/http.py: how often a request is sent, and which answer is returned.
use openmodelops.Base.{
  ℕ, zero, suc, ◌+◌, ◌≤◌, ◌<◌, String, ◌≡◌, refl, ◌⊎◌, inl, inr, Bool, true, false, not, ◌&&◌, ◌||◌,
  Option, [], ◌∷◌, arith, ltb, leb, nat_eq, if◌then◌else◌, Bool-cases, eq_of_nat, eq_of_string,
  Result, ok,
}
use openmodelops.Base.Json.{Json}
use openmodelops.Base.Dict.{Dict}
use openmodelops.Base.Floats.{Float, fin, ℤ, le_float}
use openmodelops.Integrations.Http.{
  HttpRequest, Content, Reply, response, http_failure, unreachable, Server, JsonResponse,
  JsonHttpClient, make_client, merged, with_type, parsed, attempt, request,
}

-- Failures that another attempt may mend.
abbrev pub is_transient : Reply → Bool
is_transient (response status content) = false
is_transient (http_failure code) = leb 500 code
is_transient unreachable = true

Reply-cases :
    (x : Reply)
    → ((status : ℕ) × (content : Content) × (x ≡ response status content))
      ⊎ (((code : ℕ) × (x ≡ http_failure code)) ⊎ (x ≡ unreachable))
Reply-cases (response s c) = inl (s, c, refl)
Reply-cases (http_failure c) = inr (inl (c, refl))
Reply-cases unreachable = inr (inr refl)

attempt-bound :
    (server : Server) (r : HttpRequest) (left sent : ℕ)
    → ((attempt server r left sent).1 ≤ left + sent) × (sent ≤ (attempt server r left sent).1)
unfolding attempt
attempt-bound server r zero sent = (omega arith, omega arith)
attempt-bound server r (suc left) sent = ground (arith, attempt-bound server r left (suc sent))

-- The answer `x` after `after` requests: the failures before it were transient.
abbrev pub Answered : Server → HttpRequest → ℕ → ℕ → JsonResponse → ℕ → Type 0
Answered server r zero sent x after = ⊥
Answered server r (suc left) sent x after =
    ((status : ℕ) × (content : Content) × (server r sent ≡ response status content)
      × (parsed status content ≡ ok x)
      × (after ≡ suc sent))
    ⊎ ((is_transient (server r sent) ≡ true) × Answered server r left (suc sent) x after)

attempt-Answered :
    (server : Server) (r : HttpRequest) (left sent : ℕ) {x : JsonResponse} {after : ℕ}
    → attempt server r left sent ≡ (ok x, after)
    → Answered server r left sent x after
unfolding attempt
attempt-Answered server r zero sent h = ground arith
attempt-Answered server r (suc left) sent h = elim (Reply-cases (server r sent)) [
  | inl (status, content, e) ↦ inl (status, content, e, ground arith, ground arith)
  | inr (inl (code, e)) ↦ elim (Bool-cases (ltb code 500 || nat_eq left 0)) [
    | inl t ↦ ground arith
    | inr t ↦ inr (ground arith, attempt-Answered server r left (suc sent) (ground arith))
  ]
  | inr (inr e) ↦ elim (Bool-cases (nat_eq left 0)) [
    | inl t ↦ ground arith
    | inr t ↦ inr (ground arith, attempt-Answered server r left (suc sent) (ground arith))
  ]
]

-- The attempts that a request is allowed.
abbrev pub allowed : JsonHttpClient → Bool → ℕ
allowed client idempotent = if idempotent then client.maximum_attempts else 1

attempt_some :
    (server : Server) (r : HttpRequest) (left sent : ℕ)
    → 1 ≤ left
    → sent < (attempt server r left sent).1
unfolding attempt
attempt_some server r zero sent h = ground arith
attempt_some server r (suc left) sent h = ground (arith, attempt-bound server r left (suc sent))

made :
    (timeout : Float) (attempts : ℕ) (client : JsonHttpClient)
    → make_client timeout attempts ≡ ok client
    → (1 ≤ client.maximum_attempts) × (client.maximum_attempts ≤ 5)
unfolding make_client
made timeout attempts client h =
    elim (Bool-cases (le_float timeout (fin (ℤ.pos 0)) || not (leb 1 attempts && leb attempts 5))) [
      | inl t ↦ ground arith
      | inr t ↦ ground arith
    ]

module _ (timeout : Float) (attempts : ℕ) (client : JsonHttpClient) (server : Server)
    (method url : String) (payload : Option Json) (headers : Dict String String) (sent : ℕ) where
  abbrev sending : Bool → Result JsonResponse × ℕ
  sending idempotent = request client server method url payload headers idempotent sent

  -- A client that could be made sends a request at least once and at most five times, and one that is
  -- not idempotent exactly once, whatever the server does.
  pub request_bounded :
      make_client timeout attempts ≡ ok client
      → (sent < (sending true).1) × ((sending true).1 ≤ sent + 5) × ((sending false).1 ≡ sent + 1)
  unfolding request
  request_bounded h =
      let r : HttpRequest = record {
        method = method;
        url = url;
        payload = payload;
        headers = with_type payload (merged (("Accept", "application/json") ∷ []) headers);
      } in
      let (least, most) = made timeout attempts client h in
      (
        attempt_some server r client.maximum_attempts sent least,
        omega (arith, most, (attempt-bound server r client.maximum_attempts sent).0),
        omega
            (arith, attempt_some server r 1 sent (omega arith), (attempt-bound server r 1 sent).0),
      )

  -- What a request returns is the answer to one of its allowed attempts, and each attempt before that
  -- one failed in a way that another could mend: no answer was passed over.
  pub request_answer :
      (idempotent : Bool) {x : JsonResponse} {after : ℕ}
      → sending idempotent ≡ (ok x, after)
      → Answered server
          (record {
            method = method;
            url = url;
            payload = payload;
            headers = with_type payload (merged (("Accept", "application/json") ∷ []) headers);
          })
          (allowed client idempotent)
          sent
          x
          after
  unfolding request
  request_answer idempotent h = attempt-Answered server _ (allowed client idempotent) sent h
