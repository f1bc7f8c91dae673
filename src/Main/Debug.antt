-- ===== src/Main/Debug.antt =====
-- The option --debug of daemon/main.c.
use isoft_package_installer.Main.{
  Action, logs, debugs, prints_version, handles_debug, sets_level, owns_name, says_started,
  complains, Options, LoopEvent, Environment, main_loop, Ended, exits, waits, out, set_up, serve,
  main, bus_acquired, name_lost, quit_signal, installs_handler, on_event, prepend_actions,
}
use isoft_package_installer.Utils.LogWriter.{log_debug, log_notice}
use isoft_package_installer.Base.{
  if◌then◌else◌, codes, ◌≡◌, refl, sym, ap, ◌∙◌, Bool, true, false, not, Option, none, some, List,
  [], ◌∷◌, ◌++◌, inl, Bytes, ◌⊎◌, append_assoc,
}
use isoft_package_installer.Daemon.Lifecycle.{Process}
use isoft_package_installer.Main.Exits.{quits}

-- The actions of a run but for the installation of the handler and the messages of g_debug.
abbrev pub without_handler : List Action → List Action
without_handler [] = []
without_handler (handles_debug ∷ acts) = without_handler acts
without_handler (logs n s ∷ acts) = logs n s ∷ without_handler acts
without_handler (debugs m ∷ acts) = without_handler acts
without_handler (prints_version ∷ acts) = prints_version ∷ without_handler acts
without_handler (sets_level n ∷ acts) = sets_level n ∷ without_handler acts
without_handler (owns_name b ∷ acts) = owns_name b ∷ without_handler acts
without_handler (says_started ∷ acts) = says_started ∷ without_handler acts
without_handler (complains s ∷ acts) = complains s ∷ without_handler acts

abbrev pub plain : Ended → Ended
plain (exits c acts) = exits c (without_handler acts)
plain (waits acts) = waits (without_handler acts)

without_handler-append :
    (xs ys : List Action) → without_handler (xs ++ ys) ≡ without_handler xs ++ without_handler ys
without_handler-append [] ys = refl
without_handler-append (handles_debug ∷ xs) ys = without_handler-append xs ys
without_handler-append (logs n s ∷ xs) ys = ap (λ r. logs n s ∷ r) (without_handler-append xs ys)
without_handler-append (debugs m ∷ xs) ys = without_handler-append xs ys
without_handler-append (prints_version ∷ xs) ys =
    ap (λ r. prints_version ∷ r) (without_handler-append xs ys)
without_handler-append (sets_level n ∷ xs) ys =
    ap (λ r. sets_level n ∷ r) (without_handler-append xs ys)
without_handler-append (owns_name b ∷ xs) ys =
    ap (λ r. owns_name b ∷ r) (without_handler-append xs ys)
without_handler-append (says_started ∷ xs) ys =
    ap (λ r. says_started ∷ r) (without_handler-append xs ys)
without_handler-append (complains s ∷ xs) ys =
    ap (λ r. complains s ∷ r) (without_handler-append xs ys)

set_up-without_handler :
    (env : Environment) (o : Options)
    → without_handler (set_up env o)
      ≡ sets_level log_debug
        ∷ owns_name o.replace
        ∷ logs log_debug (codes "entering main loop.")
        ∷ []
unfolding set_up
set_up-without_handler env o = level (installs_handler env o)
  where
    level :
        (x : Bool)
        → without_handler (
            (if x then handles_debug ∷ sets_level log_debug ∷ [] else sets_level log_debug ∷ [])
            ++ (owns_name o.replace ∷ logs log_debug (codes "entering main loop.") ∷ []))
          ≡ sets_level log_debug
            ∷ owns_name o.replace
            ∷ logs log_debug (codes "entering main loop.")
            ∷ []
    level true = refl
    level false = refl

-- What the loop does, but for the messages of g_debug.
abbrev loop_plain : Option (List Action × Process) → Option (List Action × Process)
loop_plain none = none
loop_plain (some (acts, p)) = some (without_handler acts, p)

abbrev event_plain : Bool × (List Action × Process) → Bool × (List Action × Process)
event_plain (quits, (acts, p)) = (quits, (without_handler acts, p))

module _ (env : Environment) (x : Options ⊎ Option Bytes) (o : Options) (b : Bool) where
  abbrev other_env : Environment
  other_env = record env { parsed = x }

  abbrev other : Options
  other = record o { debug = b }

  on_event-event_plain :
      (e : LoopEvent) (p : Process)
      → event_plain (on_event env o e p) ≡ event_plain (on_event other_env other e p)
  unfolding on_event
  on_event-event_plain (bus_acquired bus) p = refl
  on_event-event_plain name_lost p = refl
  on_event-event_plain quit_signal p = refl

  prepend_actions-loop_plain :
      (acts : List Action) (r : Option (List Action × Process))
      → loop_plain (prepend_actions acts r) ≡ prepend_actions (without_handler acts) (loop_plain r)
  prepend_actions-loop_plain acts none = refl
  prepend_actions-loop_plain acts (some (bs, p)) =
      ap (λ l. some (l, p)) (without_handler-append acts bs)

  -- A round, by what its event does and what the rounds behind it do.
  abbrev round_of :
      Bool × (List Action × Process)
      → Option (List Action × Process)
      → Option (List Action × Process)
  round_of (quits, (acts, p)) r = if quits then some (acts, p) else prepend_actions acts r

  round_of-loop_plain :
      (e : Bool × (List Action × Process)) (r : Option (List Action × Process))
      → loop_plain (round_of e r) ≡ round_of (event_plain e) (loop_plain r)
  round_of-loop_plain (true, (acts, p)) r = refl
  round_of-loop_plain (false, (acts, p)) r = prepend_actions-loop_plain acts r

  main_loop-loop_plain :
      (es : List LoopEvent) (p : Process)
      → loop_plain (main_loop env o es p) ≡ loop_plain (main_loop other_env other es p)
  unfolding main_loop
  main_loop-loop_plain [] p = refl
  main_loop-loop_plain (e ∷ es) p =
      let here = on_event env o e p in
      let there = on_event other_env other e p in
      let behind = λ (f : Bool × (List Action × Process)).
        round_of f (loop_plain (main_loop other_env other es (f.1.1))) in
      round_of-loop_plain here (main_loop env o es (here.1.1))
      ∙ (ap (round_of (event_plain here)) (main_loop-loop_plain es (here.1.1))
          ∙ (ap behind (on_event-event_plain e p)
              ∙ sym (round_of-loop_plain there (main_loop other_env other es (there.1.1)))))

abbrev at_start : Process
at_start = record { references = 0; exported = false }

abbrev farewell : List Action
farewell = logs log_debug (codes "exiting.") ∷ []

-- The end of a run, by the actions before the loop and those in it.
abbrev ending : Environment → List Action → Option (List Action × Process) → Ended
ending env before none = waits before
ending env before (some (bs, p)) =
    exits 0 ((before ++ (bs ++ farewell)) ++ (logs log_notice env.leaving ∷ []))

ending-plain :
    (env : Environment) (o : Options) (acts : List Action) (r : Option (List Action × Process))
    → plain (elim r [
      | none ↦ waits (acts ++ set_up env o)
      | some (bs, p) ↦ out env 0 (acts ++ (set_up env o ++ (bs ++ farewell)))
    ])
      ≡ ending env (without_handler (acts ++ set_up env o)) (loop_plain r)
ending-plain env o acts none = refl
ending-plain env o acts (some (bs, p)) = ap (exits 0) (
    without_handler-append (acts ++ (set_up env o ++ (bs ++ farewell)))
      (logs log_notice env.leaving ∷ [])
    ∙ ap (λ l. l ++ (logs log_notice env.leaving ∷ []))
        (ap without_handler (sym (append_assoc acts (set_up env o) (bs ++ farewell)))
          ∙ (without_handler-append (acts ++ set_up env o) (bs ++ farewell)
              ∙ ap (λ l. without_handler (acts ++ set_up env o) ++ l)
                  (without_handler-append bs farewell))))

without_handler-set_up :
    (env : Environment) (x : Options ⊎ Option Bytes) (o : Options) (b : Bool) (acts : List Action)
    → without_handler (acts ++ set_up env o)
      ≡ without_handler (acts ++ set_up (record env { parsed = x }) (record o { debug = b }))
without_handler-set_up env x o b acts =
    let env' : Environment = record env { parsed = x } in
    let o' : Options = record o { debug = b } in
    without_handler-append acts (set_up env o)
    ∙ (ap (λ r. without_handler acts ++ r)
          (set_up-without_handler env o ∙ sym (set_up-without_handler env' o'))
        ∙ sym (without_handler-append acts (set_up env' o')))

serve-plain :
    (env : Environment) (x : Options ⊎ Option Bytes) (o : Options) (b : Bool)
    (events : List LoopEvent) (acts : List Action)
    → plain (serve env o events acts)
      ≡ plain (serve (record env { parsed = x }) (record o { debug = b }) events acts)
unfolding serve
serve-plain env x o b events acts =
    let env' : Environment = record env { parsed = x } in
    let o' : Options = record o { debug = b } in
    ending-plain env o acts (main_loop env o events at_start)
    ∙ (ap (λ before. ending env before (loop_plain (main_loop env o events at_start)))
          (without_handler-set_up env x o b acts)
        ∙ (ap (ending env (without_handler (acts ++ set_up env' o')))
              (main_loop-loop_plain env x o b events at_start)
            ∙ sym (ending-plain env' o' acts (main_loop env' o' events at_start))))

-- But for the handler of the messages of g_debug and where these messages go, a run does the same
-- and ends in the same way with the option --debug and without it: the level of the log is set to
-- debug in both.
main-plain :
    (env : Environment) (o : Options) (b : Bool) (events : List LoopEvent)
    → plain (main (record env { parsed = inl o }) events)
      ≡ plain (main (record env { parsed = inl (record o { debug = b }) }) events)
unfolding main
main-plain env o b events = by_options env.sets_environment o.show_version
  where
    by_options :
        (can_set shows : Bool)
        → plain (
            if not can_set
            then out env 1
                (logs log_notice env.entering ∷ logs 4 (codes "Couldn't set GIO_USE_GVFS") ∷ [])
            else (if shows
                then out env 0 (logs log_notice env.entering ∷ prints_version ∷ [])
                else serve
                    (record env { parsed = inl o })
                    o
                    events
                    (logs log_notice env.entering ∷ [])))
          ≡ plain (
              if not can_set
              then out env 1
                  (logs log_notice env.entering ∷ logs 4 (codes "Couldn't set GIO_USE_GVFS") ∷ [])
              else (if shows
                  then out env 0 (logs log_notice env.entering ∷ prints_version ∷ [])
                  else serve
                      (record env { parsed = inl (record o { debug = b }) })
                      (record o { debug = b })
                      events
                      (logs log_notice env.entering ∷ [])))
    by_options false shows = refl
    by_options true true = refl
    by_options true false =
        serve-plain (record env { parsed = inl o }) (inl (record o { debug = b })) o b events
          (logs log_notice env.entering ∷ [])
