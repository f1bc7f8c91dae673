-- ===== src/Main/Heard.antt =====
-- What of the lines of daemon/main.c the log of daemon/utils.c lets through.
use isoft_package_installer.Main.{
  written, to_default, dropped, Action, logs, prints_version, handles_debug, debugs, sets_level,
  owns_name, says_started, complains, Options, LoopEvent, bus_acquired, name_lost, quit_signal,
  Environment, on_log_debug, log_handler, installs_handler, debug_message, on_bus_acquired,
  on_event, prepend_actions, main_loop, Ended, exits, waits, out, set_up, serve, main, log_crit,
}
use isoft_package_installer.Utils.LogWriter.{
  Logger, log_notice, log_debug, set_write_log_level, Store, logger_init,
}
use isoft_package_installer.Base.{
  ltb, if◌then◌else◌, Bytes, codes, All, All-append, ◌≡◌, ap, ◌∙◌, Bool, true, false, not, Option,
  none, some, List, [], ◌∷◌, ◌++◌, arith, refl, sym, subst, ◌⊎◌, inl, inr, append-nil, append_assoc,
  map,
}
use isoft_package_installer.Daemon.Lifecycle.{Process, daemon_new, register_lines}

-- Every line is of a level that the test of `do_write_log` lets through, at the level that was last
-- set before it.
abbrev pub AllHeard : List Action → Logger → Type 0
AllHeard [] g = Unit
AllHeard (logs n s ∷ acts) g = (ltb g.g_log_level n ≡ false) × AllHeard acts g
AllHeard (debugs (written n s) ∷ acts) g = (ltb g.g_log_level n ≡ false) × AllHeard acts g
AllHeard (sets_level n ∷ acts) g = AllHeard acts (set_write_log_level n g)
AllHeard (a ∷ acts) g = AllHeard acts g

abbrev pub actions_of : Ended → List Action
actions_of (exits c acts) = acts
actions_of (waits acts) = acts

-- The action sets no level, and is let through at the level of debug messages.
abbrev IsAtDebug : Action → Type 0
IsAtDebug (logs n s) = ltb log_debug n ≡ false
IsAtDebug (debugs (written n s)) = ltb log_debug n ≡ false
IsAtDebug (sets_level n) = ⊥
IsAtDebug a = Unit

AllHeard-append :
    (xs ys : List Action) (g : Logger)
    → g.g_log_level ≡ log_debug
    → All IsAtDebug xs
    → AllHeard ys g
    → AllHeard (xs ++ ys) g
AllHeard-append [] ys g e h k = k
AllHeard-append (logs n s ∷ xs) ys g e h k =
    (ap (λ l. ltb l n) e ∙ h.0, AllHeard-append xs ys g e (h.1) k)
AllHeard-append (debugs (written n s) ∷ xs) ys g e h k =
    (ap (λ l. ltb l n) e ∙ h.0, AllHeard-append xs ys g e (h.1) k)
AllHeard-append (debugs (to_default s) ∷ xs) ys g e h k = AllHeard-append xs ys g e (h.1) k
AllHeard-append (debugs dropped ∷ xs) ys g e h k = AllHeard-append xs ys g e (h.1) k
AllHeard-append (prints_version ∷ xs) ys g e h k = AllHeard-append xs ys g e (h.1) k
AllHeard-append (handles_debug ∷ xs) ys g e h k = AllHeard-append xs ys g e (h.1) k
AllHeard-append (sets_level n ∷ xs) ys g e h k = absurd (h.0)
AllHeard-append (owns_name b ∷ xs) ys g e h k = AllHeard-append xs ys g e (h.1) k
AllHeard-append (says_started ∷ xs) ys g e h k = AllHeard-append xs ys g e (h.1) k
AllHeard-append (complains s ∷ xs) ys g e h k = AllHeard-append xs ys g e (h.1) k

module _ (env : Environment) (o : Options) where
  debug_message-IsAtDebug : (m : Bytes) → IsAtDebug (debugs (debug_message env o m))
  unfolding debug_message on_log_debug log_handler
  debug_message-IsAtDebug m = by_tests (installs_handler env o) o.debug
    where
      by_tests :
          (b c : Bool)
          → IsAtDebug
              (debugs (if b then written log_debug m else if c then to_default m else dropped))
      by_tests true c = ground arith
      by_tests false true = tt
      by_tests false false = tt

  on_event-IsAtDebug : (e : LoopEvent) (p : Process) → All IsAtDebug ((on_event env o e p).1.0)
  unfolding on_event on_bus_acquired
  on_event-IsAtDebug (bus_acquired b) p = made_or_not ((daemon_new b p).0) ((daemon_new b p).1)
    where
      done : Bool → Process → Bool × (List Action × Process)
      done made after =
          if not made
          then (
            true,
            (
              map (λ line. logs log_crit line) (register_lines b)
                  ++ (complains (codes "Failed to initialize daemon") ∷ []),
              after,
            ),
          )
          else (false, (says_started ∷ [], after))

      all_critical : (l : List Bytes) → All IsAtDebug (map (λ line. logs log_crit line) l)
      all_critical [] = tt
      all_critical (line ∷ l) = (refl, all_critical l)

      made_or_not : (made : Bool) (after : Process) → All IsAtDebug ((done made after).1.0)
      made_or_not true after = (tt, tt)
      made_or_not false after =
          All-append IsAtDebug (map (λ line. logs log_crit line) (register_lines b))
            (complains (codes "Failed to initialize daemon") ∷ []) (all_critical (register_lines b))
            (tt, tt)
  on_event-IsAtDebug name_lost p = (debug_message-IsAtDebug (codes "got NameLost, exiting"), tt)
  on_event-IsAtDebug quit_signal p = tt

  abbrev IsLoopAtDebug : Option (List Action × Process) → Type 0
  IsLoopAtDebug none = Unit
  IsLoopAtDebug (some (acts, p)) = All IsAtDebug acts

  IsLoopAtDebug-if :
      (b : Bool) (acts : List Action) (p : Process) (r : Option (List Action × Process))
      → All IsAtDebug acts
      → IsLoopAtDebug r
      → IsLoopAtDebug (if b then some (acts, p) else prepend_actions acts r)
  IsLoopAtDebug-if true acts p r h k = h
  IsLoopAtDebug-if false acts p none h k = tt
  IsLoopAtDebug-if false acts p (some (bs, p')) h k = All-append IsAtDebug acts bs h k

  main_loop-IsLoopAtDebug :
      (es : List LoopEvent) (p : Process) → IsLoopAtDebug (main_loop env o es p)
  unfolding main_loop
  main_loop-IsLoopAtDebug [] p = tt
  main_loop-IsLoopAtDebug (e ∷ es) p =
      let r = on_event env o e p in
      IsLoopAtDebug-if (r.0) (r.1.0) (r.1.1) (main_loop env o es (r.1.1)) (on_event-IsAtDebug e p)
        (main_loop-IsLoopAtDebug es (r.1.1))

  -- Behind `set_up` the level is that of debug messages.
  set_up-AllHeard :
      (ys : List Action) (g : Logger)
      → AllHeard ys (set_write_log_level log_debug g)
      → AllHeard (set_up env o ++ ys) g
  unfolding set_up set_write_log_level
  set_up-AllHeard ys g k = by_handler (installs_handler env o)
    where
      by_handler :
          (b : Bool)
          → AllHeard
              (((if b then handles_debug ∷ sets_level log_debug ∷ [] else sets_level log_debug ∷ [])
                  ++ (owns_name o.replace ∷ logs log_debug (codes "entering main loop.") ∷ []))
                ++ ys)
              g
      by_handler true = (ground arith, k)
      by_handler false = (ground arith, k)

  serve-AllHeard :
      (events : List LoopEvent) (s : Bytes) (g : Logger)
      → ltb g.g_log_level log_notice ≡ false
      → AllHeard (actions_of (serve env o events (logs log_notice s ∷ []))) g
  unfolding serve set_write_log_level
  serve-AllHeard events s g h =
      at_end (main_loop env o events (record { references = 0; exported = false }))
        (main_loop-IsLoopAtDebug events (record { references = 0; exported = false }))
    where
      exiting : List Action
      exiting = logs log_debug (codes "exiting.") ∷ []

      last_line : List Action
      last_line = logs log_notice env.leaving ∷ []

      at_end :
          (r : Option (List Action × Process))
          → IsLoopAtDebug r
          → AllHeard
              (actions_of (elim r [
                | none ↦ waits ((logs log_notice s ∷ []) ++ set_up env o)
                | some (bs, p) ↦ out env 0 (
                    (logs log_notice s ∷ [])
                    ++ (set_up env o ++ (bs ++ (logs log_debug (codes "exiting.") ∷ []))))
              ]))
              g
      at_end none k =
          (h, subst (λ l. AllHeard l g) (append-nil (set_up env o)) (set_up-AllHeard [] g tt))
      at_end (some (bs, p)) k = (
        h,
        subst (λ l. AllHeard l g)
            (ap (λ l. set_up env o ++ l) (sym (append_assoc bs exiting last_line))
              ∙ sym (append_assoc (set_up env o) (bs ++ exiting) last_line))
            (set_up-AllHeard (bs ++ (exiting ++ last_line)) g (
              AllHeard-append bs (exiting ++ last_line) (set_write_log_level log_debug g) refl k
                (ground arith, (ground arith, tt)))),
      )

-- Nothing that `main`, its callbacks and the registration of the daemon on the bus hand to the log is
-- dropped for its level: from the level that the log starts with, whatever the environment, the
-- options and the events of the loop, each of their lines of `write_log`, and each message of g_debug that `on_log_debug` writes, is of a level that
-- `do_write_log` lets through at the level that was last set before it.
pub main-AllHeard :
    (env : Environment) (events : List LoopEvent) (f : Store)
    → AllHeard (actions_of (main env events)) (logger_init f)
unfolding main
main-AllHeard env events f = by_start env.sets_environment env.parsed
  where
    version_or_serve :
        (o : Options) (b : Bool)
        → AllHeard
            (actions_of (
              if b
              then out env 0 (logs log_notice env.entering ∷ prints_version ∷ [])
              else serve env o events (logs log_notice env.entering ∷ [])))
            (logger_init f)
    version_or_serve o true = (refl, (refl, tt))
    version_or_serve o false = serve-AllHeard env o events env.entering (logger_init f) refl

    by_start :
        (can_set : Bool) (q : Options ⊎ Option Bytes)
        → AllHeard
            (actions_of (
              if not can_set
              then out env 1
                  (logs log_notice env.entering ∷ logs 4 (codes "Couldn't set GIO_USE_GVFS") ∷ [])
              else elim q [
                | inr none ↦ exits 0 (logs log_notice env.entering ∷ [])
                | inr (some message) ↦
                    out env 1 (logs log_notice env.entering ∷ logs 4 message ∷ [])
                | inl o ↦
                    if o.show_version
                    then out env 0 (logs log_notice env.entering ∷ prints_version ∷ [])
                    else serve env o events (logs log_notice env.entering ∷ [])
              ]))
            (logger_init f)
    by_start false q = (refl, (refl, (refl, tt)))
    by_start true (inr none) = (refl, tt)
    by_start true (inr (some message)) = (refl, (refl, (refl, tt)))
    by_start true (inl o) = version_or_serve o o.show_version
