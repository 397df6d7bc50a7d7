-- ===== src/Demo/Async/Runs.antt =====
-- demo/demo_hook_async.c: what every call keeps is kept by a schedule of calls.
use mathlib.Core.Path.{subst}
use mathlib.Core.Option.{some_inj}
use libuiohook.Prelude.{ℕ, ◌≡◌, refl, Bool, true, false, ◌&&◌, List, [], ◌∷◌, Option, none, some}
use libuiohook.Demo.Async.{Demo, Action, act, run}

-- Whether all calls of a schedule pass a test.
abbrev pub every : (Action → Bool) → List Action → Bool
every test [] = true
every test (a ∷ rest) = test a && every test rest

both : (b c : Bool) → b && c ≡ true → (b ≡ true) × (c ≡ true)
both true c h = (refl, h)
both false c h = cc

module _ (answer : Option ℕ) (test : Action → Bool) (P : Demo → Type 0)
    (keep : (a : Action) (d d' : Demo)
      → test a ≡ true
      → P d
      → act answer a d ≡ some d'
      → P d') where
  pub run_keeps :
      (schedule : List Action) (d d' : Demo)
      → every test schedule ≡ true
      → P d
      → run answer schedule d ≡ some d'
      → P d'
  unfolding run
  run_keeps [] d d' allowed p e = subst P (some_inj.0 e) p
  run_keeps (a ∷ rest) d d' allowed p e =
      let (here, later) = both (test a) (every test rest) allowed in
      by_next (λ next q more. run_keeps rest next d' later q more) (act answer a d)
        (λ next moved. keep a d next here p moved) e
    where
      by_next :
          ((next : Demo) → P next → run answer rest next ≡ some d' → P d')
          → (o : Option Demo) → ((next : Demo) → o ≡ some next → P next)
          → (elim o as (λ o. Option Demo) [ none ↦ none | some next ↦ run answer rest next ])
            ≡ some d'
          → P d'
      by_next onward none found e = cc
      by_next onward (some next) found e = onward next (found next refl) e
