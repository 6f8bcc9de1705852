-- ===== src/Agents/Policy/Tools.antt =====
-- platforms/agents/policy.py: who may call a tool.
use openmodelops.Base.{
  String, ◌<>◌, ◌≡◌, refl, sym, ◌∙◌, subst, ◌⊎◌, inl, inr, Bool, true, not, ◌&&◌, Option, none,
  some, List, [], ◌∷◌, arith, Bool-cases, Option-cases, eq_of_nat, eq_of_string, keep, All,
  contains, repr_list, sorted_set, policy_denied, Result, err,
}
use openmodelops.Base.Dict.{Dict, lookup, has_key}
use openmodelops.Agents.Policy.{ToolSpec, missing, is_nil, call_tool, invoke_tool}

module _ {ℓ} {V : Type ℓ} where
  complete-missing :
      (arguments : Dict String V) (ks : List String)
      → All (λ k. has_key k arguments ≡ true) ks
      → is_nil (keep (λ k. not (has_key k arguments)) ks) ≡ true
  unfolding keep
  complete-missing arguments [] h = refl
  complete-missing arguments (k ∷ ks) h = ground (arith, h.0, complete-missing arguments ks h.1)

  missing_complete :
      (arguments : Dict String V) (ks : List String)
      → is_nil (keep (λ k. not (has_key k arguments)) ks) ≡ true
      → All (λ k. has_key k arguments ≡ true) ks
  unfolding keep
  missing_complete arguments [] h = tt
  missing_complete arguments (k ∷ ks) h =
      (ground arith, missing_complete arguments ks (ground arith))

module _ {ℓ κ} {V : Type ℓ} {A : Type κ} where
  some_same : {a b : ToolSpec V A} → some a ≡ some b → a ≡ b
  some_same h = cc

  -- A call that the tool's entry allows
  pub record Permitted (spec : ToolSpec V A) (arguments : Dict String V) (role : String)
      (approved : Bool) : Type 0 where
    pub has_role : contains spec.allowed_roles role ≡ true
    pub complete : All (λ k. has_key k arguments ≡ true) spec.required_arguments
    pub confirmed : spec.side_effecting ≡ true → approved ≡ true

  -- The same entry, but for its handler; or no entry in both registries
  abbrev pub SameEntry : Option (ToolSpec V A) → Option (ToolSpec V A) → Type (ℓ ⊔ κ)
  SameEntry o o' =
      ((o ≡ none) × (o' ≡ none))
      ⊎ ((spec : ToolSpec V A) × (handler : Dict String V → Result A) × (o ≡ some spec)
          × (o' ≡ some (record spec { handler = handler })))

  -- A call is denied with one message, also by every registry whose entry differs in the handler only.
  pub record Refused (name : String) (arguments : Dict String V) (role : String) (approved : Bool)
      (tools : Dict String (ToolSpec V A)) : Type (ℓ ⊔ κ) where
    pub message : String
    pub denied : invoke_tool name arguments role approved tools ≡ err (policy_denied message)
    pub whatever_handler :
        (other : Dict String (ToolSpec V A))
        → SameEntry (lookup name tools) (lookup name other)
        → invoke_tool name arguments role approved other ≡ err (policy_denied message)

  called :
      (name : String) (arguments : Dict String V) (role : String) (approved : Bool)
      (spec : ToolSpec V A) (tools : Dict String (ToolSpec V A))
      → lookup name tools ≡ some spec
      → invoke_tool name arguments role approved tools ≡ call_tool spec arguments role approved
  unfolding invoke_tool
  called name arguments role approved spec tools l = rw (invoke_tool, l) refl

  unknown :
      (name : String) (arguments : Dict String V) (role : String) (approved : Bool)
      (tools : Dict String (ToolSpec V A))
      → lookup name tools ≡ none
      → invoke_tool name arguments role approved tools
        ≡ err (policy_denied "tool is not allow-listed")
  unfolding invoke_tool
  unknown name arguments role approved tools l = rw (invoke_tool, l) refl

  unregistered :
      (name : String) (arguments : Dict String V) (role : String) (approved : Bool)
      (tools : Dict String (ToolSpec V A))
      → lookup name tools ≡ none
      → Refused name arguments role approved tools
  unregistered name arguments role approved tools n = record {
    message = "tool is not allow-listed";
    denied = unknown name arguments role approved tools n;
    whatever_handler = λ other same. elim same [
      | inl (a, b) ↦ unknown name arguments role approved other b
      | inr (spec, handler, a, b) ↦ absurd (ground (arith, n, a))
    ];
  }

  -- The guards read everything of the entry but its handler.
  abbrev Outcome : ToolSpec V A → Dict String V → String → Bool → Type (ℓ ⊔ κ)
  Outcome spec arguments role approved =
      (Permitted spec arguments role approved
        × (call_tool spec arguments role approved ≡ spec.handler arguments))
      ⊎ ((¬ Permitted spec arguments role approved)
          × ((message : String) × ((handler : Dict String V → Result A)
                → call_tool (record spec { handler = handler }) arguments role approved
                  ≡ err (policy_denied message))))

  outcome :
      (spec : ToolSpec V A) (arguments : Dict String V) (role : String) (approved : Bool)
      → Outcome spec arguments role approved
  outcome spec arguments role approved = elim (Bool-cases (contains spec.allowed_roles role)) [
    | inr e ↦ inr (
      (λ p. absurd (ground (arith, p.has_role))),
      ("caller role is not permitted for this tool", λ h. rw e refl),
    )
    | inl e ↦ elim (Bool-cases (is_nil (missing spec arguments))) [
      | inr f ↦ inr (
        (λ p.
            absurd (ground (arith, complete-missing arguments spec.required_arguments p.complete))),
        (
          "missing required arguments: " <> repr_list (sorted_set (missing spec arguments)),
          λ h. rw (e, f) refl,
        ),
      )
      | inl f ↦ elim (Bool-cases (spec.side_effecting && not approved)) [
        | inl g ↦ inr (
          (λ p. absurd (ground (arith, p.confirmed))),
          ("side-effecting tool requires explicit approval", λ h. rw (e, f, g) refl),
        )
        | inr g ↦ inl (
          record {
            has_role = e;
            complete = missing_complete arguments spec.required_arguments f;
            confirmed = λ h. ground arith;
          },
          rw (e, f, g) refl,
        )
      ]
    ]
  ]

  -- A call of a tool runs its handler, with the arguments of the call, if the tool is registered and its
  -- entry permits the call: the role is allowed, no required argument is missing, and a side effect
  -- has been approved. Any other call is denied, of a tool that is not registered too, and by the same
  -- message whatever the tool's handler is.
  pub tool_exact :
      (name : String) (arguments : Dict String V) (role : String) (approved : Bool)
      (tools : Dict String (ToolSpec V A))
      → ((spec : ToolSpec V A) × (lookup name tools ≡ some spec)
          × Permitted spec arguments role approved
          × (invoke_tool name arguments role approved tools ≡ spec.handler arguments))
        ⊎ (((spec : ToolSpec V A)
              → lookup name tools ≡ some spec
              → ¬ Permitted spec arguments role approved)
            × Refused name arguments role approved tools)
  tool_exact name arguments role approved tools = elim (Option-cases (lookup name tools)) [
    | inl n ↦ inr (
      (λ spec l. absurd (ground (arith, n, l))),
      unregistered name arguments role approved tools n,
    )
    | inr (spec, l) ↦ elim (outcome spec arguments role approved) [
      | inl (p, e) ↦ inl (spec, l, p, called name arguments role approved spec tools l ∙ e)
      | inr (n, (message, e)) ↦ inr (
        (λ s m. subst (λ x. ¬ Permitted x arguments role approved) (some_same (sym l ∙ m)) n),
        record {
          message = message;
          denied = called name arguments role approved spec tools l ∙ e spec.handler;
          whatever_handler = λ other same. elim same [
            | inl (a, b) ↦ absurd (ground (arith, l, a))
            | inr (t, handler, a, b) ↦
                called name arguments role approved (record t { handler = handler }) other b
                ∙ subst
                    (λ x.
                      call_tool (record x { handler = handler }) arguments role approved
                      ≡ err (policy_denied message))
                    (some_same (sym l ∙ a)) (e handler)
          ];
        },
      )
    ]
  ]
