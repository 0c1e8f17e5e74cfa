-- ===== src/Model/Loading.antt =====
-- bat/adapters/llama_cpp_client.py: what loading leaves, and what it does when it is done again.
use bat_ai.Prelude.{
  ◌≡◌, refl, sym, ap, ◌∙◌, ◌⊎◌, inl, inr, some, arith, string_eq, if_rule, option_cases,
}
use bat_ai.Prelude.Text.{Text}
use bat_ai.Domain.Errors.{Result, ok}
use bat_ai.Model.Client.{
  Handle, Client, Engine, Built, built, broken, load_blocking, load, construct_model,
}

Built-cases : (b : Built) → ((h : Handle) × (b ≡ built h)) ⊎ ((m : Text) × (b ≡ broken m))
Built-cases (built h) = inl (h, refl)
Built-cases (broken m) = inr (m, refl)

module _ {W : Type 0} (engine : Engine W) where
  pub load-loaded :
      (c : Client) (w : W) (h : Handle) → c.llama ≡ some h → load engine c w ≡ (ok tt, c, w)
  unfolding load
  load-loaded c w h there = rw there refl

  -- A load that succeeds leaves a model.
  abbrev Leaves : Result (Unit {0}) × Client × W → Type 0
  Leaves r = r.0 ≡ ok tt → (h : Handle) × (r.1.llama ≡ some h)

  construct_model-Leaves : (c : Client) (w : W) → Leaves (construct_model engine c w)
  unfolding construct_model
  construct_model-Leaves c w = elim (Built-cases (engine.construct c.settings w).0) [
    | inl (h, is) ↦ rw (is, construct_model) (λ _. (h, refl))
    | inr (m, is) ↦ rw (is, construct_model) (λ k. absurd (ground arith))
  ]

  load_blocking-Leaves : (c : Client) (w : W) → Leaves (load_blocking engine c w)
  unfolding load_blocking
  load_blocking-Leaves c w =
      option_cases Leaves c.llama _ _
        (λ absent.
          option_cases Leaves c.settings.model_path _ _ (λ _ k. absurd (ground arith))
            (λ path _.
              if_rule Leaves (engine.is_file path w) _ _
                (option_cases Leaves (engine.import_llama w) _ _ (λ _. construct_model-Leaves c w)
                  (λ m _ k. absurd (ground arith)))
                (λ k. absurd (ground arith))))
        (λ h there _. (h, there))

  load-Leaves : (c : Client) (w : W) → Leaves (load engine c w)
  unfolding load
  load-Leaves c w =
      option_cases Leaves c.llama _ _ (λ absent. load_blocking-Leaves c w) (λ h there _. (h, there))

  -- Loading is idempotent: once it has succeeded, the client stays as it is and the world is not
  -- touched when it is asked to load again.
  pub load_idempotent :
      (c : Client) (w : W)
      → (load engine c w).0 ≡ ok tt
      → load engine (load engine c w).1 (load engine c w).2 ≡ load engine c w
  load_idempotent c w loaded =
      let (h, there) = load-Leaves c w loaded in
      load-loaded (load engine c w).1 (load engine c w).2 h there
      ∙ ap (λ (r : Result (Unit {0})). (r, (load engine c w).1, (load engine c w).2)) (sym loaded)
