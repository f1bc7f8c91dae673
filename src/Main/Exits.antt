-- ===== src/Main/Exits.antt =====
-- How the process of daemon/main.c ends.
use isoft_package_installer.Main.{
  Action, LoopEvent, bus_acquired, name_lost, quit_signal, Environment, on_bus_acquired, on_event,
  main_loop, Ended, exits, waits, serve, main, logs, prints_version, Options, prepend_actions, out,
  set_up,
}
use isoft_package_installer.Daemon.Lifecycle.{Process, register_install_daemon, daemon_new}
use isoft_package_installer.Base.{
  Bool, true, false, not, ◌&&◌, ◌||◌, Option, none, some, List, [], ◌∷◌, if◌then◌else◌, ℕ, ◌≡◌,
  refl, inl, inr, arith, Bytes, codes, ap, ◌∙◌, ◌⊎◌, ◌++◌,
}
use isoft_package_installer.Utils.LogWriter.{log_notice, log_debug}

-- The loop is quit by one of these events: the loss of the name, a signal, or a bus on which the
-- object cannot be made.
abbrev pub quits : LoopEvent → Bool
quits (bus_acquired b) = not (b.connects && b.exports)
quits name_lost = true
quits quit_signal = true

abbrev pub any_quits : List LoopEvent → Bool
any_quits [] = false
any_quits (e ∷ es) = quits e || any_quits es

abbrev pub ends : Option (List Action × Process) → Bool
ends none = false
ends (some r) = true

on_event-quits :
    (env : Environment) (o : Options) (e : LoopEvent) (p : Process)
    → (on_event env o e p).0 ≡ quits e
unfolding on_event on_bus_acquired daemon_new register_install_daemon
on_event-quits env o (bus_acquired b) p = ground arith
on_event-quits env o name_lost p = refl
on_event-quits env o quit_signal p = refl

ends-if :
    (b : Bool) (r : List Action × Process) (acts : List Action) (o : Option (List Action × Process))
    → ends (if b then some r else prepend_actions acts o) ≡ (b || ends o)
ends-if true r acts o = refl
ends-if false r acts none = refl
ends-if false r acts (some x) = refl

main_loop-any_quits :
    (env : Environment) (o : Options) (es : List LoopEvent) (p : Process)
    → ends (main_loop env o es p) ≡ any_quits es
unfolding main_loop
main_loop-any_quits env o [] p = refl
main_loop-any_quits env o (e ∷ es) p =
    let r = on_event env o e p in
    ends-if (r.0) (r.1) (r.1.0) (main_loop env o es (r.1.1))
    ∙ (ap (λ b. b || ends (main_loop env o es (r.1.1))) (on_event-quits env o e p)
        ∙ ap (λ b. quits e || b) (main_loop-any_quits env o es (r.1.1)))

abbrev pub code_of : Ended → Option ℕ
code_of (exits c acts) = some c
code_of (waits acts) = none

-- The code that a run ends with, if it ends.
abbrev pub expected_code : Environment → List LoopEvent → Option ℕ
expected_code env events = if not env.sets_environment then some 1 else elim env.parsed [
  | inr none ↦ some 0
  | inr (some message) ↦ some 1
  | inl o ↦ if o.show_version || any_quits events then some 0 else none
]

serve-code_of :
    (env : Environment) (o : Options) (events : List LoopEvent) (acts : List Action)
    → code_of (serve env o events acts) ≡ (if any_quits events then some 0 else none)
unfolding serve
serve-code_of env o events acts =
    of_loop (main_loop env o events (record { references = 0; exported = false }))
    ∙ ap (λ b. if b then some 0 else none)
        (main_loop-any_quits env o events (record { references = 0; exported = false }))
  where
    of_loop :
        (x : Option (List Action × Process))
        → code_of (elim x [
          | none ↦ waits (acts ++ set_up env o)
          | some r ↦
              out env 0
                (acts ++ (set_up env o ++ (r.0 ++ (logs log_debug (codes "exiting.") ∷ []))))
        ])
          ≡ (if ends x then some 0 else none)
    of_loop none = refl
    of_loop (some r) = refl

-- The process ends with 1 exactly if the environment cannot be set or the parsing of the options
-- gives an error. Else it ends with 0 where --help is among the options, where it has to print its
-- version, or once something quits its loop, be it a signal, the loss of the name or a bus on which
-- the object cannot be made; it waits until then.
pub main-expected_code :
    (env : Environment) (events : List LoopEvent)
    → code_of (main env events) ≡ expected_code env events
unfolding main
main-expected_code env events = with_environment env.sets_environment env.parsed
  where
    version_or_serve :
        (o : Options) (b : Bool)
        → code_of (
            if b
            then out env 0 (logs log_notice env.entering ∷ prints_version ∷ [])
            else serve env o events (logs log_notice env.entering ∷ []))
          ≡ (if b || any_quits events then some 0 else none)
    version_or_serve o true = refl
    version_or_serve o false = serve-code_of env o events (logs log_notice env.entering ∷ [])

    with_environment :
        (b : Bool) (q : Options ⊎ Option Bytes)
        → code_of (
            if not b
            then out env 1
                (logs log_notice env.entering ∷ logs 4 (codes "Couldn't set GIO_USE_GVFS") ∷ [])
            else elim q [
              | inr none ↦ exits 0 (logs log_notice env.entering ∷ [])
              | inr (some message) ↦ out env 1 (logs log_notice env.entering ∷ logs 4 message ∷ [])
              | inl o ↦
                  if o.show_version
                  then out env 0 (logs log_notice env.entering ∷ prints_version ∷ [])
                  else serve env o events (logs log_notice env.entering ∷ [])
            ])
          ≡ (if not b then some 1 else elim q [
            | inr none ↦ some 0
            | inr (some message) ↦ some 1
            | inl o ↦ if o.show_version || any_quits events then some 0 else none
          ])
    with_environment true (inl o) = version_or_serve o o.show_version
    with_environment true (inr none) = refl
    with_environment true (inr (some message)) = refl
    with_environment false q = refl
