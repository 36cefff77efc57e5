-- ===== src/Plugins/Dispatch.antt =====
-- The lists of capabilities answer what a walk over all registered plugins answers.
use moon_bridge.Prelude.{
  String, ◌≡◌, refl, ◌∙◌, ap, inl, inr, Bool-cases, Option, none, some, List, [], ◌∷◌, ◌++◌,
  if◌then◌else◌,
}
use moon_bridge.Format.Messages.{CoreMessage, CoreRequest}
use moon_bridge.Plugins.{
  Transform, Plugin, With, detected, chain, Registry, new_registry, register, register_all,
  preprocess_input, mutate_request, rewrite_messages, transform_error,
}

module _ (W Data : Type 0) where
  -- What one plugin does with a capability, if it has it and is enabled.
  abbrev pub apply :
      {A : Type 0} → String → Plugin W Data → Option (Transform W Data A) → A → W → A × W
  apply model p none a w = (a, w)
  apply model p (some f) a w = if p.enabled_for_model model then f model a w else (a, w)

  -- All plugins in the order of their registration.
  unfoldable pub walk :
      {A : Type 0}
      → (Plugin W Data → Option (Transform W Data A))
      → String
      → List (Plugin W Data)
      → A
      → W
      → A × W
  walk capability model [] a w = (a, w)
  walk capability model (p ∷ ps) a w =
      let (a', w') = apply model p (capability p) a w in walk capability model ps a' w'

  -- The list of a capability after registrations.
  unfoldable collect :
      {F : Type 0}
      → (Plugin W Data → Option F)
      → List (Plugin W Data)
      → With W Data F
      → With W Data F
  collect capability [] list = list
  collect capability (p ∷ ps) list = collect capability ps (detected W Data p (capability p) list)

  chain-append :
      {A : Type 0} (model : String) (p : Plugin W Data) (f : Transform W Data A)
      (list : With W Data (Transform W Data A)) (a : A) (w : W)
      → chain W Data model (list ++ (p, f) ∷ []) a w
        ≡ apply model p (some f) (chain W Data model list a w).0 (chain W Data model list a w).1
  unfolding chain
  chain-append model p f [] a w = elim (Bool-cases (p.enabled_for_model model)) [
    | inl on ↦ rw on refl
    | inr off ↦ rw off refl
  ]
  chain-append model p f ((q, g) ∷ list) a w = elim (Bool-cases (q.enabled_for_model model)) [
    | inl on ↦ rw on (chain-append model p f list (g model a w).0 (g model a w).1)
    | inr off ↦ rw off (chain-append model p f list a w)
  ]

  chain-detected :
      {A : Type 0} (model : String) (p : Plugin W Data) (o : Option (Transform W Data A))
      (list : With W Data (Transform W Data A)) (a : A) (w : W)
      → chain W Data model (detected W Data p o list) a w
        ≡ apply model p o (chain W Data model list a w).0 (chain W Data model list a w).1
  unfolding chain
  chain-detected model p none list a w = refl
  chain-detected model p (some f) list a w = chain-append model p f list a w

  chain-collect :
      {A : Type 0} (capability : Plugin W Data → Option (Transform W Data A)) (model : String)
      (ps : List (Plugin W Data)) (list : With W Data (Transform W Data A)) (a : A) (w : W)
      → chain W Data model (collect capability ps list) a w
        ≡ walk capability model ps (chain W Data model list a w).0 (chain W Data model list a w).1
  unfolding collect walk
  chain-collect capability model [] list a w = refl
  chain-collect capability model (p ∷ ps) list a w =
      chain-collect capability model ps (detected W Data p (capability p) list) a w
      ∙ ap (λ (x : _ × W). walk capability model ps x.0 x.1)
          (chain-detected model p (capability p) list a w)

  -- Each list of the registry is the list of its capability.
  preprocessors_collect :
      (ps : List (Plugin W Data)) (r : Registry W Data)
      → (register_all W Data ps r).input_preprocessors
        ≡ collect (λ p. p.input_preprocessor) ps r.input_preprocessors
  unfolding register_all register collect
  preprocessors_collect [] r = refl
  preprocessors_collect (p ∷ ps) r = preprocessors_collect ps (register W Data p r)

  mutators_collect :
      (ps : List (Plugin W Data)) (r : Registry W Data)
      → (register_all W Data ps r).request_mutators
        ≡ collect (λ p. p.request_mutator) ps r.request_mutators
  unfolding register_all register collect
  mutators_collect [] r = refl
  mutators_collect (p ∷ ps) r = mutators_collect ps (register W Data p r)

  rewriters_collect :
      (ps : List (Plugin W Data)) (r : Registry W Data)
      → (register_all W Data ps r).message_rewriters
        ≡ collect (λ p. p.message_rewriter) ps r.message_rewriters
  unfolding register_all register collect
  rewriters_collect [] r = refl
  rewriters_collect (p ∷ ps) r = rewriters_collect ps (register W Data p r)

  transformers_collect :
      (ps : List (Plugin W Data)) (r : Registry W Data)
      → (register_all W Data ps r).error_transformers
        ≡ collect (λ p. p.error_transformer) ps r.error_transformers
  unfolding register_all register collect
  transformers_collect [] r = refl
  transformers_collect (p ∷ ps) r = transformers_collect ps (register W Data p r)

  -- A chain over a collected list is the walk.
  chain_walks :
      {A : Type 0} (capability : Plugin W Data → Option (Transform W Data A)) (model : String)
      (ps : List (Plugin W Data)) (list : With W Data (Transform W Data A))
      → list ≡ collect capability ps []
      → (a : A) (w : W) → chain W Data model list a w ≡ walk capability model ps a w
  unfolding chain
  chain_walks capability model ps list same a w =
      ap (λ l. chain W Data model l a w) same ∙ chain-collect capability model ps [] a w

  -- Whatever plugins are registered, preprocessing input, mutating a request, rewriting messages
  -- and transforming an error do what a walk over all plugins in the order of their registration
  -- does, which applies to the value and the state what each plugin has for it, if the plugin is
  -- enabled for the model.
  pub dispatch-register_all :
      (ps : List (Plugin W Data)) (model raw msg : String) (req : CoreRequest)
      (messages : List CoreMessage) (w : W)
      → (preprocess_input W Data (register_all W Data ps (new_registry W Data)) model raw w
          ≡ walk (λ p. p.input_preprocessor) model ps raw w)
        × (mutate_request W Data (register_all W Data ps (new_registry W Data)) model req w
            ≡ walk (λ p. p.request_mutator) model ps req w)
        × (rewrite_messages W Data (register_all W Data ps (new_registry W Data)) model messages w
            ≡ walk (λ p. p.message_rewriter) model ps messages w)
        × (transform_error W Data (register_all W Data ps (new_registry W Data)) model msg w
            ≡ walk (λ p. p.error_transformer) model ps msg w)
  dispatch-register_all ps model raw msg req messages w = (
    chain_walks (λ p. p.input_preprocessor) model ps _
        (preprocessors_collect ps (new_registry W Data)) raw w,
    chain_walks (λ p. p.request_mutator) model ps _ (mutators_collect ps (new_registry W Data)) req
        w,
    chain_walks (λ p. p.message_rewriter) model ps _ (rewriters_collect ps (new_registry W Data))
        messages w,
    chain_walks (λ p. p.error_transformer) model ps _
        (transformers_collect ps (new_registry W Data)) msg w,
  )
