-- ===== src/Darwin/Run/Release.antt =====
-- src/darwin/input_hook.c: what `hook_run` holds when it returns, where nothing that it needs
-- fails to be allocated.
use libuiohook.Prelude.{
  ℕ, inl, inr, Bool-cases, ◌+◌, ◌-◌, ◌≡◌, refl, sym, ◌∙◌, ap, Bool, true, false, Option, none, some,
  ◌==◌, arith, if◌then◌else◌, if_both,
}
use libuiohook.Event.{uiohook_success}
use libuiohook.Darwin.Hook.State.{initialize_modifiers}
use libuiohook.Darwin.Run.{
  MainInfo, Held, World, RunAnswers, release, destroy_event_runloop_info, create_main_source,
  create_main_observer, create_main_runloop_info, destroy_main_runloop_info, run_loop, needs_main,
  run_and_free, start_main, allocate_messages, start_hook, hook_run,
}
use libuiohook.Darwin.Run.Laws.{
  if_needed, full, with_hook, all_created, main_created, created, not_created,
}

-- With the two messages, and with the structure for the main loop as well.
abbrev with_messages : Held → Held
with_messages held = record held { blocks = held.blocks + 1 + 1 }

abbrev with_main : Held → Held
with_main held = record {
  blocks = held.blocks + 1;
  ports = held.ports;
  sources = held.sources + 1;
  observers = held.observers + 1;
}

abbrev full_main : MainInfo
full_main = record { has_source = true; has_observer = true }

Held_ext :
    (g h : Held)
    → g.blocks ≡ h.blocks
    → g.ports ≡ h.ports
    → g.sources ≡ h.sources
    → g.observers ≡ h.observers
    → g ≡ h
Held_ext g h a b c d = ground arith

destroy_event :
    (w : World) (held : Held)
    → w.hook ≡ some full
    → w.held ≡ with_hook held
    → destroy_event_runloop_info w ≡ record w { hook = none; held = held }
unfolding destroy_event_runloop_info release
destroy_event w held h e =
    let counts =
      Held_ext
        (record {
          blocks = held.blocks + 1 - 1;
          ports = held.ports + 1 - 1;
          sources = held.sources + 1 - 1;
          observers = held.observers + 1 - 1;
        })
        held (omega arith) (omega arith) (omega arith) (omega arith) in
    rw (h, e) (ap (λ (g : Held). record w { hook = none; held = g }) counts)

run_plain :
    (a : RunAnswers) (w : World) (held : Held)
    → needs_main a ≡ false
    → w.hook ≡ some full
    → w.held ≡ with_messages (with_hook held)
    → (run_and_free a w).0 ≡ record w { hook = none; held = held; state = run_loop a w.state }
unfolding run_and_free
run_plain a w held n h e =
    let freed : World = record w {
      held = record (w.held) { blocks = w.held.blocks - 1 - 1 };
      state = run_loop a w.state;
    } in
    rw n (
      destroy_event freed held h (
        Held_ext _ _ (omega (arith, ap (λ (g : Held). g.blocks) e)) (ap (λ (g : Held). g.ports) e)
          (ap (λ (g : Held). g.sources) e) (ap (λ (g : Held). g.observers) e)))

run_with_main :
    (a : RunAnswers) (w : World) (held : Held)
    → needs_main a ≡ true
    → w.hook ≡ some full
    → w.main ≡ some full_main
    → w.held ≡ with_main (with_messages (with_hook held))
    → (run_and_free a w).0
      ≡ record w { hook = none; main = none; held = held; state = run_loop a w.state }
unfolding run_and_free destroy_main_runloop_info release
run_with_main a w held n h m e =
    let freed : World = record w {
      main = none;
      held = record {
        blocks = w.held.blocks - 1 - 1 - 1;
        ports = w.held.ports;
        sources = w.held.sources - 1;
        observers = w.held.observers - 1;
      };
      state = run_loop a w.state;
    } in
    rw (n, m)
      (destroy_event freed held h (
        Held_ext _ _ (omega (arith, ap (λ (g : Held). g.blocks) e)) (ap (λ (g : Held). g.ports) e)
          (omega (arith, ap (λ (g : Held). g.sources) e))
          (omega (arith, ap (λ (g : Held). g.observers) e))))

created_main :
    (a : RunAnswers) (w : World)
    → w.main ≡ none
    → main_created a ≡ true
    → create_main_runloop_info a w
      ≡ (record w { main = some full_main; held = with_main w.held }, uiohook_success)
unfolding create_main_runloop_info create_main_observer create_main_source
created_main a w h c = rw h (ground arith)

if_true {ℓ} : {A : Type ℓ} (b : Bool) (x y : A) → b ≡ true → (if b then x else y) ≡ x
if_true true x y e = refl
if_true false x y e = cc

if_false {ℓ} : {A : Type ℓ} (b : Bool) (x y : A) → b ≡ false → (if b then x else y) ≡ y
if_false true x y e = cc
if_false false x y e = refl

both_allocated :
    (a : RunAnswers) (w : World)
    → a.keycode_allocated ≡ true
    → a.event_allocated ≡ true
    → allocate_messages a w ≡ start_main a (record w { held = with_messages w.held })
unfolding allocate_messages
both_allocated a w k v = if_true a.keycode_allocated _ _ k ∙ if_true a.event_allocated _ _ v

main_started :
    (a : RunAnswers) (w : World)
    → needs_main a ≡ true
    → w.main ≡ none
    → main_created a ≡ true
    → start_main a w ≡ run_and_free a (record w { main = some full_main; held = with_main w.held })
unfolding start_main
main_started a w n m c =
    if_true (needs_main a) _ _ n
    ∙ ap
        (λ (made : World × ℕ).
          if made.1 == uiohook_success
          then run_and_free a made.0
          else (destroy_main_runloop_info made.0, made.1))
        (created_main a w m c)

needed : (a : RunAnswers) (x : Bool) → needs_main a ≡ true → if_needed a x ≡ true → x ≡ true
needed a x n r = sym (if_true (needs_main a) x true n) ∙ r

-- Where both messages are allocated and the main loop is ready the loop runs, and everything is freed.
messages_released :
    (a : RunAnswers) (w : World) (held : Held)
    → w.hook ≡ some full
    → w.main ≡ none
    → w.held ≡ with_hook held
    → a.keycode_allocated ≡ true
    → a.event_allocated ≡ true
    → if_needed a (main_created a) ≡ true
    → (allocate_messages a w).0
      ≡ record w { hook = none; main = none; held = held; state = run_loop a w.state }
unfolding start_main
messages_released a w held h m e k v r =
    let ready : World = record w { held = with_messages w.held } in
    let fits : ready.held ≡ with_messages (with_hook held) = ap with_messages e in
    ap (λ (z : World × ℕ). z.0) (both_allocated a w k v) ∙ elim (Bool-cases (needs_main a)) [
      | inl n ↦
          ap (λ (z : World × ℕ). z.0) (main_started a ready n m (needed a (main_created a) n r))
          ∙ run_with_main a (record ready { main = some full_main; held = with_main ready.held })
              held n h refl (ap with_main fits)
      | inr n ↦
          ap (λ (z : World × ℕ). z.0) (if_false (needs_main a) _ _ n)
          ∙ run_plain a ready held n h fits
          ∙ ap
              (λ (o : Option MainInfo). record w {
                hook = none;
                main = o;
                held = held;
                state = run_loop a w.state;
              })
              m
    ]

pub created_start :
    (a : RunAnswers) (w : World)
    → w.hook ≡ none
    → all_created a ≡ true
    → start_hook a w
      ≡ allocate_messages a (record w {
        hook = some full;
        held = with_hook w.held;
        state = initialize_modifiers a.starting w.state;
      })
unfolding start_hook
created_start a w h c =
    ap
      (λ (made : World × ℕ).
        if made.1 == uiohook_success
        then allocate_messages a made.0
        else (destroy_event_runloop_info made.0, made.1))
      (created a (record w { state = initialize_modifiers a.starting w.state }) h c)

-- No hook is stored, and `held` is held.
abbrev pub Free : Held → World → Type 0
Free held w = (w.held ≡ held) × (w.hook ≡ none) × (w.main ≡ none)

Free-eq : (held : Held) (v w : World) → v ≡ w → Free held w → Free held v
Free-eq held v w e f = rw e f

start-Free :
    (a : RunAnswers) (w : World)
    → w.hook ≡ none
    → w.main ≡ none
    → a.keycode_allocated ≡ true
    → a.event_allocated ≡ true
    → if_needed a (main_created a) ≡ true
    → Free w.held (start_hook a w).0
unfolding start_hook
start-Free a w h m k v r = elim (Bool-cases (all_created a)) [
  | inl c ↦
      Free-eq w.held _ _
        (ap (λ (z : World × ℕ). z.0) (created_start a w h c)
          ∙ messages_released a _ w.held refl m refl k v r)
        (refl, refl, refl)
  | inr c ↦
      let (held, hook, main, failed) =
        not_created a (record w { state = initialize_modifiers a.starting w.state }) h c in
      Free-eq w.held _ _ (ap (λ (z : World × ℕ). z.0) (if_false _ _ _ failed))
        (held, hook, main ∙ m)
]

-- On macOS, with no hook of before, `hook_run` gives back all that it creates, whichever step of
-- creating the hook failed, where both messages are allocated and what the main run loop may need is
-- created.
pub hook_run-Free :
    (a : RunAnswers) (w : World)
    → w.hook ≡ none
    → w.main ≡ none
    → a.keycode_allocated ≡ true
    → a.event_allocated ≡ true
    → if_needed a (main_created a) ≡ true
    → Free w.held (hook_run a w).0
unfolding hook_run
hook_run-Free a w h m k v r =
    if_both (λ (z : World × ℕ). Free w.held z.0) a.accessible
      (if_both (λ (z : World × ℕ). Free w.held z.0) a.has_loop (start-Free a w h m k v r)
        (refl, h, m))
      (refl, h, m)
