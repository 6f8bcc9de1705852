-- ===== src/Reviewer/Github/Pages.antt =====
-- platforms/reviewer/github.py: what the walk over the pages of a list returns.
use openmodelops.Base.{
  ℕ, zero, suc, ◌+◌, ◌*◌, ◌≤◌, ◌<◌, String, ◌≡◌, sym, ◌∙◌, subst, ◌↔◌, inl, inr, none, some, List,
  [], ◌++◌, arith, ltb, Bool-cases, Option-cases, eq_of_nat, eq_of_string, length, Result, ok,
  Result-cases,
}
use openmodelops.Base.Json.{Json, Fields}
use openmodelops.Base.Floats.{Float}
use mathlib.Core.List.{append_assoc}
use openmodelops.Integrations.Http.{JsonResponse, Server, make_client}
use openmodelops.Integrations.Http.Retries.{request_bounded}
use openmodelops.Reviewer.Github.{
  GithubReviewClient, dicts, Fetch, items_of, pages, fetch_page, page_url, all_pages,
}

-- The answer holds this list.
abbrev pub Holds : Result JsonResponse → List Json → Type 0
Holds answer body = (x : JsonResponse) × (answer ≡ ok x) × (items_of x.body ≡ some body)

-- At most `left` pages from `page` on, the requests one after the other: full pages, then one that is
-- not full; `fs` are the dicts of all of them in order.
pub data Walk (fetch : Fetch) : ℕ → ℕ → ℕ → List Fields → ℕ → Type 0 where
  last :
      (left page sent : ℕ) (body : List Json)
      → Holds (fetch page sent).0 body
      → length body < 100
      → Walk fetch (suc left) page sent (dicts body) (fetch page sent).1
  more :
      (left page sent after : ℕ) (body : List Json) (fs : List Fields)
      → Holds (fetch page sent).0 body
      → 100 ≤ length body
      → Walk fetch left (suc page) (fetch page sent).1 fs after
      → Walk fetch (suc left) page sent (dicts body ++ fs) after

module _ (fetch : Fetch) where
  pages-Walk :
      (left page sent : ℕ) (output : List Fields) {xs : List Fields} {after : ℕ}
      → pages fetch left page output sent ≡ (ok xs, after)
      → (fs : List Fields) × (xs ≡ output ++ fs) × Walk fetch left page sent fs after
  unfolding pages
  pages-Walk zero page sent output h = absurd (ground arith)
  pages-Walk (suc left) page sent output {after = after} h =
      elim (Result-cases (fetch page sent).0) [
        | inr (e, p) ↦ absurd (ground arith)
        | inl (x, p) ↦ elim (Option-cases (items_of x.body)) [
          | inl q ↦ absurd (ground arith)
          | inr (body, q) ↦ elim (Bool-cases (ltb (length body) 100)) [
            | inl t ↦ (
              dicts body,
              ground arith,
              subst (Walk fetch (suc left) page sent (dicts body)) (ground arith)
                  (last left page sent body (x, p, q) (ground arith)),
            )
            | inr t ↦
                (let (fs, k, w) =
                    pages-Walk left (suc page) (fetch page sent).1 (output ++ dicts body)
                      (ground arith) in
                  (
                    dicts body ++ fs,
                    k ∙ append_assoc output (dicts body) fs,
                    more left page sent after body fs (x, p, q) (ground arith) w,
                  ))
          ]
        ]
      ]

  Walk-pages :
      (left page sent : ℕ) (output fs : List Fields) (after : ℕ)
      → Walk fetch left page sent fs after
      → pages fetch left page output sent ≡ (ok (output ++ fs), after)
  unfolding pages
  Walk-pages _ _ _ output _ _ (last left page sent body (x, p, q) h) = ground arith
  Walk-pages _ _ _ output _ _ (more left page sent after body fs (x, p, q) h w) = ground (
    arith,
    append_assoc output (dicts body) fs,
    Walk-pages left (suc page) (fetch page sent).1 (output ++ dicts body) fs after w,
  )

  -- Every page costs at most `k` requests.
  pages-bound :
      (k : ℕ)
      → ((page sent : ℕ) → (fetch page sent).1 ≤ sent + k)
      → (left page sent : ℕ) (output : List Fields)
      → (pages fetch left page output sent).1 ≤ sent + left * k
  unfolding pages
  pages-bound k h zero page sent output = omega arith
  pages-bound k h (suc left) page sent output = elim (Result-cases (fetch page sent).0) [
    | inr (e, p) ↦ ground (arith, h page sent)
    | inl (x, p) ↦ elim (Option-cases (items_of x.body)) [
      | inl q ↦ ground (arith, h page sent)
      | inr (body, q) ↦ ground (
        arith,
        h page sent,
        pages-bound k h left (suc page) (fetch page sent).1 (output ++ dicts body),
      )
    ]
  ]

-- The walk over the pages of a list ends, after five hundred requests at most. It returns a list if
-- and only if each of at most a hundred pages, asked for in turn from the first, holds a list, all but
-- the last of a hundred items or more and the last of fewer; then it returns the dicts of all of these
-- pages in order.
pub all_pages_exact :
    (timeout : Float) (attempts : ℕ) (client : GithubReviewClient) (server : Server) (url : String)
    (sent : ℕ) (fs : List Fields) (after : ℕ)
    → make_client timeout attempts ≡ ok client.http
    → ((all_pages client server url sent).1 ≤ sent + 500)
      × ((all_pages client server url sent ≡ (ok fs, after))
          ↔ Walk (fetch_page client server url) 100 1 sent fs after)
unfolding all_pages
all_pages_exact timeout attempts client server url sent fs after h =
    let fetch = fetch_page client server url in
    (
      omega (
        arith,
        pages-bound fetch 5
            (λ page n.
              (request_bounded timeout attempts client.http server "GET" (page_url url page) none
                client.headers n h).1)
            100 1 sent [],
      ),
      (
        (λ e.
            let (gs, k, w) = pages-Walk fetch 100 1 sent [] e in
            subst (λ l. Walk fetch 100 1 sent l after) (sym k) w),
        (λ w. Walk-pages fetch 100 1 sent [] fs after w),
      ),
    )
