-- ===== src/Integrations/Http.antt =====
-- platforms/integrations/http.py: a client for JSON over HTTP that tries again. What a request meets
-- is given by the number of requests that went out before it.
pub mod Retries
use openmodelops.Base.{
  ℕ, zero, suc, ◌+◌, ◌-◌, ◌*◌, ◌/◌, ◌%◌, ◌^◌, ◌≤◌, ◌<◌, String, ◌<>◌, ◌≡◌, refl, sym, ap, ◌∙◌,
  subst, ◌≢◌, ◌↔◌, ◌⊎◌, inl, inr, Bool, true, false, not, ◌&&◌, ◌||◌, false≢true, Option, none,
  some, List, [], ◌∷◌, ◌++◌, map, arith, str_eq, starts_with, eq_iff, ltb, leb, nat_eq, nat_eq_iff,
  if◌then◌else◌, Bool-cases, Option-cases, Eq, ◌==◌, eq_of_nat, eq_of_string, length, take,
  length-append, keep, length-keep, any, any-append, all, All, All-append, All-take, All-keep,
  All-every, All-map, length-take, contains, is_space, is_blank, is_empty, ends_with, text_leb,
  codes, is_lower, is_digit, name_tail, is_name, repr_items, repr_list, upper, same_codes, is_part,
  lower_char, type_error, attribute_error, integration_error, Error, value_error, runtime_error,
  key_error, permission_error, concurrency_error, policy_denied, safety_violation,
  guardrail_unavailable, integrity_error, http_error, Result, ok, err, ◌>>=◌, ◌>>◌, raise_if, is_ok,
  >>=-eq-ok, Result-cases,
}
use openmodelops.Base.Decimal.{decimal, parse_decimal, parse-decimal}
use openmodelops.Base.Json.{
  Json, null, boolean, number, text, array, object, Items, no_items, item, Fields, no_fields, field,
  to_list, get_field, or_default, truthy, or_else, fields_of,
}
use openmodelops.Base.Dict.{
  Dict, keys, values, lookup, insert, has_key, lookup-nil, lookup-insert, lookup-insert_self,
  lookup-insert_ne, lookup-insert_inv, has_key_lem,
}
use openmodelops.Base.Floats.{
  Float, nan, neg_inf, pos_inf, fin, ℤ, lt_float, le_float, double, ltb_ℤ,
}
use openmodelops.Base.Audit.{Entry, Chain, Chain-append, length-audit}

pub record HttpRequest : Type 0 where
  pub method : String
  pub url : String
  pub payload : Option Json
  pub headers : Dict String String

-- The content of an answer: none, JSON, or neither.
pub data Content : Type 0 where
  blank_body malformed : Content
  json : Json → Content

-- How `urlopen` ends: with an answer, with an `HTTPError`, or with a `URLError` or a timeout.
pub data Reply : Type 0 where
  response : ℕ → Content → Reply
  http_failure : ℕ → Reply
  unreachable : Reply

abbrev pub Server : Type 0
Server = HttpRequest → ℕ → Reply

pub record JsonResponse : Type 0 where
  pub status : ℕ
  pub body : Json

pub record JsonHttpClient : Type 0 where
  pub timeout_seconds : Float
  pub maximum_attempts : ℕ

unfoldable pub make_client : Float → ℕ → Result JsonHttpClient
make_client timeout_seconds maximum_attempts =
    if le_float timeout_seconds (fin (ℤ.pos 0))
      || not (leb 1 maximum_attempts && leb maximum_attempts 5)
    then err (value_error "invalid HTTP retry configuration")
    else ok (record { timeout_seconds = timeout_seconds; maximum_attempts = maximum_attempts })

-- `{**first, **second}`
abbrev pub merged : Dict String String → Dict String String → Dict String String
merged first [] = first
merged first ((k, v) ∷ d) = merged (insert k v first) d

abbrev pub with_type : Option Json → Dict String String → Dict String String
with_type none headers = headers
with_type (some payload) headers = insert "Content-Type" "application/json" headers

-- `json.loads(content) if content else {}`
abbrev pub parsed : ℕ → Content → Result JsonResponse
parsed status blank_body = ok (record { status = status; body = object no_fields })
parsed status malformed = err (value_error "JSONDecodeError")
parsed status (json x) = ok (record { status = status; body = x })

-- The attempts that are left, at the `for`; the result with the count of the requests sent so far.
unfoldable pub attempt : Server → HttpRequest → ℕ → ℕ → Result JsonResponse × ℕ
attempt server r zero sent = (err (integration_error "integration request failed"), sent)
attempt server r (suc left) sent =
    let rest = attempt server r left (suc sent) in
    elim (server r sent) [
      | response status content ↦ (parsed status content, suc sent)
      | http_failure code ↦
          if ltb code 500 || nat_eq left 0
          then (err (integration_error ("integration returned HTTP " <> decimal code)), suc sent)
          else rest
      | unreachable ↦
          if nat_eq left 0
          then (err (integration_error "integration is unavailable"), suc sent)
          else rest
    ]

unfoldable pub request :
    JsonHttpClient
    → Server
    → String
    → String
    → Option Json
    → Dict String String
    → Bool
    → ℕ
    → Result JsonResponse × ℕ
request client server method url payload headers idempotent sent =
    attempt server
      (record {
        method = method;
        url = url;
        payload = payload;
        headers = with_type payload (merged (("Accept", "application/json") ∷ []) headers);
      })
      (if idempotent then client.maximum_attempts else 1) sent
