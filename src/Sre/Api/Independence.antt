-- ===== src/Sre/Api/Independence.antt =====
-- platforms/kubernetes_sre: which calls the cluster can get, whatever the service is asked.
use openmodelops.Base.{
  ℕ, ◌≤◌, String, refl, inl, inr, some, List, [], ◌∷◌, arith, Bool-cases, ◌==◌, eq_of_nat,
  eq_of_string, All, Result-cases,
}
use openmodelops.Sre.Executor.{ActionProposal, Executor}
use openmodelops.Sre.Store.{SreStore, get_proposal}
use openmodelops.Sre.Store.Rows.{Keeps, Keeps-refl, save_proposal-Keeps, approve-Keeps}
use openmodelops.Sre.Service.{System, Service, propose, approve}
use openmodelops.Sre.Service.Effects.{count, IsJustified, Inv, Keeps-Inv, execute-Inv}
use openmodelops.Sre.Api.Requested.{IsRequested, served_requested}
use openmodelops.Sre.Api.{
  require_role, proposal_of, Request, proposing, approving, executing, post_proposal, post_approval,
  post_execution, handle, serve,
}

approve_store-Keeps :
    (service : Service) (now later : ℕ) (id approver : String) (s : SreStore)
    → Keeps s (approve service now later id approver s).1
unfolding approve
approve_store-Keeps service now later id approver s = elim (Result-cases (get_proposal id s)) [
  | inr (x, g) ↦ rw (approve, g) (Keeps-refl s)
  | inl (p, g) ↦
      rw (approve, g)
        (elim (Bool-cases (p.requested_by == approver)) [
          | inl t ↦ rw t (Keeps-refl s)
          | inr f ↦ rw f (approve-Keeps _ s)
        ])
]

abbrev pub empty : System
empty = record { store = []; log = [] }

module _ (digest : ActionProposal → String) (executor : Executor) where
  abbrev service : Service
  service = record { digest = digest; executor = some executor }

  handle-Inv :
      (r : Request) (y : System) → Inv digest executor y → Inv digest executor (handle service r y)
  unfolding handle post_proposal propose post_approval post_execution
  handle-Inv (proposing now uuid request identity) y h =
      elim (Result-cases (require_role identity "sre-proposer")) [
        | inr (x, e) ↦ rw (handle, post_proposal, e) h
        | inl (u, e) ↦
            rw (handle, post_proposal, e)
              (Keeps-Inv digest executor y.store _ y.log
                (save_proposal-Keeps digest (proposal_of now uuid identity request) y.store) h)
      ]
  handle-Inv (approving now later id identity) y h =
      elim (Result-cases (require_role identity "sre-approver")) [
        | inr (x, e) ↦ rw (handle, post_approval, e) h
        | inl (u, e) ↦
            rw (handle, post_approval, e)
              (Keeps-Inv digest executor y.store _ y.log
                (approve_store-Keeps service now later id identity.subject y.store) h)
      ]
  handle-Inv (executing now id identity) y h =
      elim (Result-cases (require_role identity "sre-executor")) [
        | inr (x, e) ↦ rw (handle, post_execution, e) h
        | inl (u, e) ↦
            rw (handle, post_execution, e) (execute-Inv digest executor now id identity.subject y h)
      ]

  serve-Inv :
      (rs : List Request) (y : System)
      → Inv digest executor y
      → Inv digest executor (serve service rs y)
  unfolding serve
  serve-Inv [] y h = h
  serve-Inv (r ∷ rs) y h = serve-Inv rs (handle service r y) (handle-Inv r y h)

-- Whatever requests the service served from an empty table, the cluster was called at most once for
-- each proposal. Every call restarts the proposed resource or scales it to the proposed replicas, at
-- most 100, in a managed namespace and with a way back; and the table shows for it an approval of this
-- very proposal, which expires after the time of the call, of three people none of whom is another:
-- the author, the approver and the actor of the call. One of the requests asked for this very
-- execution, at the time of the call, and its caller is the actor and has the executor's role.
pub served_once :
    (digest : ActionProposal → String) (executor : Executor) (rs : List Request)
    → let y = serve (record { digest = digest; executor = some executor }) rs empty in
      ((id : String) → count id y.log ≤ 1)
      × All (IsJustified digest executor y.store) y.log
      × All (IsRequested rs) y.log
unfolding count
served_once digest executor rs =
    let h =
      serve-Inv digest executor rs empty (record {
        justified = tt;
        claimed = tt;
        once = λ id. omega arith;
        unused = λ id c. refl;
      }) in
    (h.once, h.justified, served_requested digest executor rs)
