-- ===== src/Lib.antt =====
-- iSOFT package installer: a D-Bus daemon that installs .rpm files through librpm and converts
-- .deb files to packages of its own before that.
--
-- A client calls AddInstall for each file and then Install. The object keeps a list of .rpm
-- files, a place for one .deb file and a lock flag (daemon/daemon.c). AddInstall of a .deb starts
-- a thread that runs install_deb (daemon/deb-helper.c); Install takes the lock and starts a
-- thread that runs install_rpm (daemon/rpm-helper.c). Both report to the object by callbacks,
-- which become signals. install_deb unpacks the file (daemon/debresolve.c over libdpkg),
-- describes a package by the calls of daemon/app-pkg.c over the tables of daemon/package.c and
-- daemon/reqprov.c, writes it, and hands its path back in the callback with the percentage 1,
-- which starts an installation. The front end (greeter) calls AddInstall and Install for the
-- files of its arguments and shows the signals.
--
-- Files and the code they are about:
--   Base                 native numbers, lists, C strings and decimal numbers that the parts
--                        share.
--   Daemon               daemon/daemon.c: the state, both methods, the callbacks, the routines as
--                        steps of threads, and `run`, an interleaving of all of them.
--                        Lifecycle has the registration on the bus, the properties and the
--                        errors. Daemon/Weights, Steps, Exclusion, Held, Signals, Locking, Lives,
--                        Sessions, Races, Delivery and Origin have the theorems.
--   Extensions           daemon/extensions.c. Extensions/Tables and Precedence compare it with a
--                        search.
--   Rpm                  the functions of librpm that the code calls, a parameter with its laws.
--   Package              daemon/package.c, package.h and reqprov.c. Package/Dependencies reads
--                        the table as sets of dependencies; Release is freePackage, and Leaks
--                        counts what it releases.
--   AppPkg               daemon/app-pkg.c: the setters, AppPkg/Additions the calls that add, and
--                        AppPkg/Write app_pkg_write; AppPkg/Written says what it writes.
--   Debresolve           daemon/debresolve.c: Info is deb_info, Reading read_line, Members the
--                        loop of extracthalf over the archive, Extract the rest of it with
--                        deb_extract, deb_control and do_contents, Subproc deb_subproc_reap,
--                        Shell movecontrolfiles and the other commands. Archive, Contents and
--                        Unpacking go from an archive as a list of members to what is unpacked,
--                        Lines, OldVersions and OldFormat do so for the old format, and Fuel is
--                        about the rounds of the loop.
--   DebHelper            daemon/deb-helper.c: install_deb; Tree is traverse_directory. Files,
--                        Description, WrittenPath, Callbacks and Pipeline have the theorems.
--   RpmHelper            daemon/rpm-helper.c: install_rpm; Progress is rpmShowProgress,
--                        Installing has the theorems.
--   Utils                daemon/utils.c: Split is utils_split_string, Directories
--                        utils_remove_dir and utils_find_file, LogFiles get_next_log_file,
--                        LogWriter do_write_log and the calls over it, Records
--                        write_upt_reocord_file, Files utils_copy_file and utils_check_number.
--                        LogLock is the lock around the calls of LogWriter, with callers in
--                        several threads.
--                        LogNumbers, LogPaths, LogSteps, LogKept, LogSizes and LogRuns have the
--                        theorems on logs, RecordFields and RecordFiles those on records.
--   Main                 daemon/main.c: main, with the events that reach its loop. Main/Exits is
--                        about its code, Main/Debug about its option --debug, Main/Heard about
--                        the level of its lines.
--   Deb2rpm              tools/deb2rpm.c: Walk is traverse_directory; Converting compares the
--                        command with install_deb.
--   Greeter              greeter: the pages of the front end and the calls that they make. Choices
--                        follows them from the first page to the last; View is the page of the
--                        installation under the signals of the daemon, and Session goes from the
--                        pages through the daemon and install_rpm to the last signal. Window is
--                        main.cpp and the clicks on all pages; Clicks and Calls say what calls
--                        can come of them. Stopped is about a conversion that stops.
--   Tests                runs at concrete inputs.
--
-- Conventions. Names of functions are those of the source in lower case with underscores. Texts
-- are lists of bytes without the final NUL. A pointer that may be NULL is an Option; a read or
-- write that C leaves undefined is a value of its own (crash, undefined, none), never a normal
-- result. Doubles and floats are exact ratios. Sizes are unbounded natural numbers, with the
-- limits of the buffers written out (256 and 40 bytes, PATH_MAX). The numbers of log files are ints
-- of 32 bits, undefined behind the largest, and the time of the build is cut to 32 bits.
--
-- Fuel. `members` gets one round more than there are bytes in the archive, and each round reads a
-- header of 60 bytes, so that the fuel does not run out first (Debresolve/Fuel); running out is a
-- value of its own. `read_rounds` gets one round more
-- than the buffer has bytes, and each round reads at least one or ends. `strip_zeros` divides by
-- ten at most as often as the number is large. `copy_rounds` gets one round more than the file has
-- bytes, and each round but the last reads one at least. `decimal` gets one round more than the
-- number is large.
--
-- Parameters. librpm, rpmcli, libdpkg, GLib (also g_utf8_substring, which counts characters), the file system and the clock are records of
-- functions (Rpm, Rpmcli, Libdpkg, Dpkg, Machine, Files, Build); laws that a theorem needs of
-- them stand in its hypotheses. processPackageFiles, rpmfcGenerateDepends and writeRPM are
-- parameters too: daemon/files.c, rpmfc.c, pack.c, misc.c and fts.c are copies of rpm and of the
-- C library.
--
-- Not modelled: what is printed and logged, but for the log of daemon/main.c and of the
-- registration on the bus in daemon/daemon.c; what tools/deb2rpm.c prints; throw_error of
-- daemon/daemon.c and ensure_directory of daemon/main.c, which nothing calls; the locale and the
-- version of GLib in daemon/main.c; deb_malloc; the processes that extracthalf starts (they are
-- described as values, since their results are not looked at); the code of daemon/utils.c behind
-- `#if 0`; and the widgets, the layout and the translated texts of greeter.
pub mod Base
pub mod Utils
pub mod Daemon
pub mod Extensions
pub mod Rpm
pub mod Package
pub mod AppPkg
pub mod Debresolve
pub mod DebHelper
pub mod RpmHelper
pub mod Main
pub mod Deb2rpm
pub mod Greeter
mod Tests
