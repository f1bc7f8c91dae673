-- ===== src/RpmHelper/Installing.antt =====
-- What `install_rpm` installs and reports.
use isoft_package_installer.Base.{
  ltb, ◌==◌, Bytes, length, All, ℕ, ◌<◌, ◌≡◌, refl, true, false, some, List, [], ◌∷◌, arith,
  if◌then◌else◌, codes, get_elem?, Bool, Option, ◌++◌, map, All-append, ap, ◌∙◌, subst, none, not,
}
use isoft_package_installer.RpmHelper.{
  print_format, fill, fill_all, Arguments, Rpmcli, set_arguments, ran, transact, install_rpm,
  problems, Ran, idle, undefined, with_argv,
}
use isoft_package_installer.Daemon.{rpm_running, Daemon, Callback, progress, calls, run}
use isoft_package_installer.Daemon.Steps.{signals_of, RpmCallback, run-callbacks}
use isoft_package_installer.RpmHelper.Progress.{
  Notice, Statics, ratio, is_progress, rpm_show_progress, notified, next_statics,
}

-- A path that is no format, and that fits its buffer.
abbrev pub IsPlain : ℕ → Bytes → Type 0
IsPlain path_max s = All (λ c. (c == b'%') ≡ false) s × (length s < path_max)

print_format-plain : (s : Bytes) → All (λ c. (c == b'%') ≡ false) s → print_format s ≡ some s
unfolding print_format
print_format-plain [] h = refl
print_format-plain (c ∷ []) h = rw (h.0) refl
print_format-plain (c ∷ d ∷ s) h = rw (h.0) (rw (print_format-plain (d ∷ s) h.1) refl)

fill-plain : (n : ℕ) (s : Bytes) → IsPlain n s → fill n s ≡ some s
unfolding fill
fill-plain n s h =
    let fits : ltb (length s) n ≡ true = ground (arith, h.1) in
    rw (print_format-plain s (h.0), fill) (rw fits refl)

fill_all-plain : (n : ℕ) (ss : List Bytes) → All (IsPlain n) ss → fill_all n ss ≡ some ss
unfolding fill_all
fill_all-plain n [] h = refl
fill_all-plain n (s ∷ ss) h =
    rw (fill-plain n s (h.0), fill_all) (rw (fill_all-plain n ss h.1) refl)

-- The progress that is told of a transaction: one call for each notice of a progress, in order.
abbrev pub progress_of : List Notice → List Callback
progress_of [] = []
progress_of (n ∷ ns) =
    if is_progress n.what
    then progress (ratio n.amount n.total) n.key ∷ progress_of ns
    else progress_of ns

notified-progress_of :
    (fopen : Bytes → Bool) (ns : List Notice) (s : Statics)
    → (notified fopen true ns s).1 ≡ progress_of ns
unfolding notified rpm_show_progress
notified-progress_of fopen [] s = refl
notified-progress_of fopen (n ∷ ns) s =
    ground (arith, notified-progress_of fopen ns (next_statics fopen n s))

module _ (k : Rpmcli) where
  abbrev pub argv_of : List Bytes → List Bytes
  argv_of files = codes "install_rpm" ∷ files

  transact-progress_of :
      (ia : Arguments) (args : List Bytes) (s : Statics)
      → k.ts_created ≡ true
      → k.memory_allocated ≡ true
      → let set = set_arguments k.excludedocs ia in
        transact k ia args s
        ≡ ran
            (progress_of (k.notices set args) ++ problems (k.problem set args))
            (some (set, args))
            ((notified k.fopen true (k.notices set args) s).0)
  unfolding transact set_arguments
  transact-progress_of ia args s t m =
      let set = set_arguments k.excludedocs ia in
      rw (t, transact)
        (rw (m, transact)
          (ap
            (λ cs.
              ran (cs ++ problems (k.problem set args)) (some (set, args))
                ((notified k.fopen true (k.notices set args) s).0))
            (notified-progress_of k.fopen (k.notices set args) s)))

  -- For at least one file, where every path is shorter than PATH_MAX and has no `%`, where `popt`
  -- takes none of them for an option and where nothing fails to be allocated: exactly these files
  -- are handed to librpm, with the flag that asks for percentages, and the callbacks are one per
  -- notice of a progress, in order, and then the text of the problem if there is one.
  pub install_rpm-progress_of :
      (f : Bytes) (fs : List Bytes) (s : Statics)
      → All (IsPlain k.path_max) (argv_of (f ∷ fs))
      → k.get_args (argv_of (f ∷ fs)) ≡ f ∷ fs
      → k.argv_allocated ≡ true
      → k.ts_created ≡ true
      → k.memory_allocated ≡ true
      → let ia = set_arguments k.excludedocs (k.options (argv_of (f ∷ fs))) in
        let ns = k.notices ia (f ∷ fs) in
        install_rpm k (f ∷ fs) s
        ≡ ran
            (progress_of ns ++ problems (k.problem ia (f ∷ fs)))
            (some (ia, f ∷ fs))
            ((notified k.fopen true ns s).0)
  unfolding install_rpm with_argv
  install_rpm-progress_of f fs s h e a t m =
      let argv = argv_of (f ∷ fs) in
      rw a (
        ap (with_argv k s) (fill_all-plain k.path_max argv h)
        ∙ (ap (λ args. transact k (k.options argv) args s) e
            ∙ transact-progress_of (k.options argv) (f ∷ fs) s t m))

  abbrev AllRpm : Ran → Type 0
  AllRpm (ran cs handed s) = All RpmCallback cs
  AllRpm idle = Unit
  AllRpm undefined = Unit

  if-AllRpm : (b : Bool) (x y : Ran) → AllRpm x → AllRpm y → AllRpm (if b then x else y)
  if-AllRpm true x y h g = h
  if-AllRpm false x y h g = g

  notified-RpmCallback :
      (fopen : Bytes → Bool) (b : Bool) (ns : List Notice) (s : Statics)
      → All RpmCallback ((notified fopen b ns s).1)
  unfolding notified rpm_show_progress
  notified-RpmCallback fopen b [] s = tt
  notified-RpmCallback fopen b (n ∷ ns) s =
      ground (arith, notified-RpmCallback fopen b ns (next_statics fopen n s))

  problems-RpmCallback : (s : Bytes) → All RpmCallback (problems s)
  problems-RpmCallback [] = tt
  problems-RpmCallback (c ∷ s) = (tt, tt)

  transact-AllRpm :
      (ia : Arguments) (args : List Bytes) (s : Statics) → AllRpm (transact k ia args s)
  unfolding transact
  transact-AllRpm ia args s =
      let set = set_arguments k.excludedocs ia in
      let told = (notified k.fopen set.flag_percent (k.notices set args) s).1 in
      let all : All RpmCallback (told ++ problems (k.problem set args)) =
        All-append RpmCallback told (problems (k.problem set args))
          (notified-RpmCallback k.fopen set.flag_percent (k.notices set args) s)
          (problems-RpmCallback (k.problem set args)) in
      if-AllRpm (not k.ts_created) _ _ (tt, tt)
        (if-AllRpm (not k.memory_allocated) _ _ (tt, tt) all)

  with_argv-AllRpm : (s : Statics) (o : Option (List Bytes)) → AllRpm (with_argv k s o)
  unfolding with_argv
  with_argv-AllRpm s none = tt
  with_argv-AllRpm s (some argv) = transact-AllRpm (k.options argv) (k.get_args argv) s

  install_rpm-AllRpm : (files : List Bytes) (s : Statics) → AllRpm (install_rpm k files s)
  unfolding install_rpm
  install_rpm-AllRpm [] s = tt
  install_rpm-AllRpm (f ∷ fs) s =
      ground (arith, with_argv-AllRpm s (fill_all k.path_max (argv_of (f ∷ fs))))

  pub install_rpm-RpmCallback :
      (files : List Bytes) (s s' : Statics) (cs : List Callback)
      (handed : Option (Arguments × List Bytes))
      → install_rpm k files s ≡ ran cs handed s'
      → All RpmCallback cs
  install_rpm-RpmCallback files s s' cs handed e = subst AllRpm e (install_rpm-AllRpm files s)

  -- Whatever `install_rpm` makes of its list, with its callbacks made by a thread that installs: the
  -- daemon emits the signals of these callbacks and its lists, threads and lock stay as they were.
  pub run-install_rpm :
      (guess : Bytes → Bytes) (d : Daemon) (i : ℕ) (files : List Bytes) (s s' : Statics)
      (cs : List Callback) (handed : Option (Arguments × List Bytes))
      → install_rpm k files s ≡ ran cs handed s'
      → get_elem? d.threads i ≡ some (rpm_running files)
      → run guess (map (calls i) cs) d ≡ record d { emitted = d.emitted ++ signals_of cs }
  run-install_rpm guess d i files s s' cs handed e g =
      run-callbacks guess cs i files d (install_rpm-RpmCallback files s s' cs handed e) g
