-- ===== src/Main.antt =====
-- daemon/main.c: the options, the main loop and its callbacks.
pub mod Exits
pub mod Debug
pub mod Heard
use isoft_package_installer.Utils.LogWriter.{log_notice, log_debug}
use isoft_package_installer.Base.{
  if◌then◌else◌, Bytes, codes, ℕ, ◌⊎◌, inl, inr, Bool, true, false, not, ◌&&◌, Option, none, some,
  List, [], ◌∷◌, ◌++◌, map,
}
use isoft_package_installer.Daemon.Lifecycle.{Bus, Process, daemon_new, register_lines}

-- `G_LOG_LEVEL_DEBUG` and the other levels of GLib.
pub data GlibLevel : Type 0 where
  glib_debug glib_other : GlibLevel

-- Where a message of `g_debug` goes: to `write_log` with this level, to GLib's default handler, or
-- nowhere.
pub data Delivered : Type 0 where
  written : ℕ → Bytes → Delivered
  to_default : Bytes → Delivered
  dropped : Delivered

-- What the process does that can be seen: lines for `write_log` with their level, the version on
-- stdout, the handler for debug messages, a message of `g_debug`, the level of the log, the name on
-- the bus, the lines for syslog, and messages on stderr.
pub data Action : Type 0 where
  logs : ℕ → Bytes → Action
  prints_version : Action
  handles_debug : Action
  debugs : Delivered → Action
  sets_level : ℕ → Action
  owns_name : Bool → Action
  says_started : Action
  complains : Bytes → Action

-- The options as they are parsed.
pub record Options : Type 0 where
  pub show_version : Bool
  pub replace : Bool
  pub debug : Bool

-- What reaches the main loop: the bus, with what it lets happen, the loss of the name, and SIGINT or
-- SIGTERM.
pub data LoopEvent : Type 0 where
  bus_acquired : Bus → LoopEvent
  name_lost : LoopEvent
  quit_signal : LoopEvent

-- Whether `g_setenv` succeeds, the parsed options, the message of the error or nothing where GLib
-- finds --help, whether
-- G_MESSAGES_DEBUG is set, and the texts with the number of the process.
pub record Environment : Type 0 where
  pub sets_environment : Bool
  pub parsed : Options ⊎ Option Bytes
  pub has_messages_debug : Bool
  pub entering : Bytes
  pub leaving : Bytes

-- `on_log_debug`: the message is the format of `write_log`.
unfoldable pub on_log_debug : Option Bytes → Delivered
on_log_debug none = written log_debug (codes "(NULL) message")
on_log_debug (some message) = written log_debug message

-- `log_handler`: whether the message goes on to the default handler.
unfoldable pub log_handler : Bool → GlibLevel → Bool
log_handler debug glib_debug = debug
log_handler debug glib_other = true

-- `debug && !g_getenv ("G_MESSAGES_DEBUG")`
abbrev pub installs_handler : Environment → Options → Bool
installs_handler env o = o.debug && not env.has_messages_debug

-- A call of `g_debug`, which goes to the handler of the domain, and to `log_handler` if none is
-- installed.
unfoldable pub debug_message : Environment → Options → Bytes → Delivered
unfolding on_log_debug log_handler
debug_message env o message =
    if installs_handler env o
    then on_log_debug (some message)
    else if log_handler o.debug glib_debug
    then to_default message
    else dropped

-- `LOG_CRIT`
abbrev pub log_crit : ℕ
log_crit = 2

-- `on_bus_acquired`: whether the loop is quit, what is done, and the process on the bus.
unfoldable pub on_bus_acquired : Bus → Process → Bool × (List Action × Process)
unfolding daemon_new register_lines
on_bus_acquired b p =
    let (made, after) = daemon_new b p in
    if not made
    then (
      true,
      (
        map (λ line. logs log_crit line) (register_lines b)
            ++ (complains (codes "Failed to initialize daemon") ∷ []),
        after,
      ),
    )
    else (false, (says_started ∷ [], after))

-- `on_name_lost` and `on_signal_quit` quit the loop, and so does `on_bus_acquired` on an error.
unfoldable pub on_event :
    Environment → Options → LoopEvent → Process → Bool × (List Action × Process)
unfolding on_bus_acquired debug_message
on_event env o (bus_acquired b) p = on_bus_acquired b p
on_event env o name_lost p =
    (true, (debugs (debug_message env o (codes "got NameLost, exiting")) ∷ [], p))
on_event env o quit_signal p = (true, ([], p))

abbrev pub prepend_actions :
    List Action → Option (List Action × Process) → Option (List Action × Process)
prepend_actions acts none = none
prepend_actions acts (some (bs, p)) = some (acts ++ bs, p)

-- `g_main_loop_run` over what arrives; `none` while nothing has quit it.
unfoldable pub main_loop :
    Environment → Options → List LoopEvent → Process → Option (List Action × Process)
unfolding on_event
main_loop env o [] p = none
main_loop env o (e ∷ es) p =
    let (quits, (acts, after)) = on_event env o e p in
    let rest = prepend_actions acts (main_loop env o es after) in
    if quits then some (acts, after) else rest

-- The process ends with this code and these actions, or it still waits in its loop.
pub data Ended : Type 0 where
  exits : ℕ → List Action → Ended
  waits : List Action → Ended

-- The end at the label `out`.
abbrev pub out : Environment → ℕ → List Action → Ended
out env ret acts = exits ret (acts ++ (logs log_notice env.leaving ∷ []))

-- From the level of the log to the loop.
unfoldable pub set_up : Environment → Options → List Action
set_up env o =
    let levels =
      if installs_handler env o
      then handles_debug ∷ sets_level log_debug ∷ []
      else sets_level log_debug ∷ [] in
    levels ++ (owns_name o.replace ∷ logs log_debug (codes "entering main loop.") ∷ [])

unfoldable pub serve : Environment → Options → List LoopEvent → List Action → Ended
unfolding main_loop set_up
serve env o events acts =
    elim (main_loop env o events (record { references = 0; exported = false })) [
      | none ↦ waits (acts ++ set_up env o)
      | some (bs, p) ↦
          out env 0 (acts ++ (set_up env o ++ (bs ++ (logs log_debug (codes "exiting.") ∷ []))))
    ]

-- `main`, with what reaches its loop. `LOG_WARNING` is 4. For --help, `g_option_context_parse` prints
-- the help and ends the process with 0.
unfoldable pub main : Environment → List LoopEvent → Ended
unfolding serve
main env events =
    let acts = logs log_notice env.entering ∷ [] in
    if not env.sets_environment
    then out env 1 (acts ++ (logs 4 (codes "Couldn't set GIO_USE_GVFS") ∷ []))
    else elim env.parsed [
      | inr none ↦ exits 0 acts
      | inr (some message) ↦ out env 1 (acts ++ (logs 4 message ∷ []))
      | inl o ↦
          if o.show_version
          then out env 0 (acts ++ (prints_version ∷ []))
          else serve env o events acts
    ]
