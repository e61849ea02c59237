-- ===== src/Cleanup.antt =====
-- The list of functions to call at the end, prototype-integrator/src/cleanup.c. `call` stands for the
-- calls of the registered functions, which may do anything to the state, and register others. The
-- allocations succeed.
use virtual_machine.Prelude.{ℕ, ◌≡◌, refl, sym, ap, ◌∙◌, Option, none, some, List, [], ◌∷◌, ◌++◌}
use mathlib.Core.List.{append_assoc, append-nil}

-- The list, with the newest registration first, and the rest of the state.
pub record Cleanups (Fn World : Type 0) : Type 0 where
  pub cleanup_list : List (Fn × ℕ)
  pub world : World

abbrev pub backwards {ℓ} : {A : Type ℓ} → List A → List A
backwards [] = []
backwards (r ∷ rs) = backwards rs ++ r ∷ []

module _ {Fn World : Type 0} where
  -- `none` stands for NULL.
  unfoldable pub vm_register_cleanup : Option Fn → ℕ → Cleanups Fn World → Cleanups Fn World
  vm_register_cleanup none ctx s = s
  vm_register_cleanup (some f) ctx s = record s { cleanup_list = (f, ctx) ∷ s.cleanup_list }

  -- The loop over the list as it was at the start.
  unfoldable pub call_all :
      (Fn → ℕ → Cleanups Fn World → Cleanups Fn World)
      → List (Fn × ℕ)
      → Cleanups Fn World
      → Cleanups Fn World
  call_all call [] s = s
  call_all call ((f, ctx) ∷ cs) s = call_all call cs (call f ctx s)

  unfoldable pub run_cleanups :
      (Fn → ℕ → Cleanups Fn World → Cleanups Fn World) → Cleanups Fn World → Cleanups Fn World
  unfolding call_all
  run_cleanups call s = call_all call s.cleanup_list (record s { cleanup_list = [] })

  -- Registrations one after another.
  unfoldable pub register_all : List (Fn × ℕ) → Cleanups Fn World → Cleanups Fn World
  unfolding vm_register_cleanup
  register_all [] s = s
  register_all ((f, ctx) ∷ rs) s = register_all rs (vm_register_cleanup (some f) ctx s)

  registered :
      (rs : List (Fn × ℕ)) (s : Cleanups Fn World)
      → register_all rs s ≡ record s { cleanup_list = backwards rs ++ s.cleanup_list }
  unfolding register_all
  registered [] s = refl
  registered (r ∷ rs) s =
      registered rs (record s { cleanup_list = r ∷ s.cleanup_list })
      ∙ ap (λ (l : List (Fn × ℕ)). record s { cleanup_list = l })
          (sym (append_assoc (backwards rs) (r ∷ []) s.cleanup_list))

  call_all-list :
      (call : Fn → ℕ → Cleanups Fn World → Cleanups Fn World)
      → ((f : Fn) (ctx : ℕ) (s : Cleanups Fn World) → (call f ctx s).cleanup_list ≡ s.cleanup_list)
      → (cs : List (Fn × ℕ)) (s : Cleanups Fn World)
      → (call_all call cs s).cleanup_list ≡ s.cleanup_list
  unfolding call_all
  call_all-list call h [] s = refl
  call_all-list call h ((f, ctx) ∷ cs) s = call_all-list call h cs (call f ctx s) ∙ h f ctx s

  run_cleanups-none :
      (call : Fn → ℕ → Cleanups Fn World → Cleanups Fn World) (s : Cleanups Fn World)
      → s.cleanup_list ≡ []
      → run_cleanups call s ≡ s
  unfolding run_cleanups
  run_cleanups-none call s e =
      ap (λ (l : List (Fn × ℕ)). call_all call l (record s { cleanup_list = [] })) e
      ∙ ap (λ (l : List (Fn × ℕ)). record s { cleanup_list = l }) (sym e)

  -- On an empty list: functions that are registered and do not touch the list are called once each,
  -- the last registered first, and another run of the cleanups calls none.
  pub run_cleanups-register_all :
      (call : Fn → ℕ → Cleanups Fn World → Cleanups Fn World)
      → ((f : Fn) (ctx : ℕ) (s : Cleanups Fn World) → (call f ctx s).cleanup_list ≡ s.cleanup_list)
      → (rs : List (Fn × ℕ)) (s : Cleanups Fn World) → s.cleanup_list ≡ []
      → let after = run_cleanups call (register_all rs s) in
        (after ≡ call_all call (backwards rs) s) × (run_cleanups call after ≡ after)
  unfolding run_cleanups
  run_cleanups-register_all call h rs s e =
      let listed : register_all rs s ≡ record s { cleanup_list = backwards rs } =
        registered rs s
        ∙ ap (λ (l : List (Fn × ℕ)). record s { cleanup_list = backwards rs ++ l }) e
        ∙ ap (λ (l : List (Fn × ℕ)). record s { cleanup_list = l }) (append-nil (backwards rs)) in
      let first : run_cleanups call (register_all rs s) ≡ call_all call (backwards rs) s =
        ap (run_cleanups call) listed
        ∙ ap (λ (l : List (Fn × ℕ)). call_all call (backwards rs) (record s { cleanup_list = l }))
            (sym e) in
      (
        first,
        run_cleanups-none call (run_cleanups call (register_all rs s)) (
            ap (λ (t : Cleanups Fn World). t.cleanup_list) first
            ∙ call_all-list call h (backwards rs) s
            ∙ e),
      )
