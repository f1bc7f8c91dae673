-- ===== src/Utils/RecordFiles.antt =====
-- What the two files of records hold behind any number of calls.
use isoft_package_installer.Utils.Records.{
  installed_log_file, not_installed_log_file, record_line, write_upt_reocord_file, append_to,
}
use isoft_package_installer.Utils.LogWriter.{Store, text_of, is_blank, put_file}
use isoft_package_installer.Base.{
  ◌==◌, if◌then◌else◌, Bytes, bytes_eq, ℤ, ℕ, ◌≡◌, refl, sym, ap, ◌∙◌, Bool, true, false, ◌||◌,
  Option, List, [], ◌∷◌, ◌++◌, append-nil, append_assoc, none, not,
}
use isoft_package_installer.Daemon.Delivery.{pending}

pub record RecordCall : Type 0 where
  pub upt_name : Option Bytes
  pub upt_type : Option Bytes
  pub action : ℕ
  pub upt_state : ℤ
  pub datestr : Bytes
  pub timestr : Bytes
  pub opens : Bool

-- The calls one after another, each with whether its `fopen` succeeds.
unfoldable pub write_records : List RecordCall → Store → Store
unfolding write_upt_reocord_file
write_records [] f = f
write_records (c ∷ cs) f = write_records cs (
    write_upt_reocord_file c.upt_name c.upt_type c.action c.upt_state c.datestr c.timestr c.opens f)

abbrev pub line_of : RecordCall → Bytes
line_of c = record_line (text_of c.upt_name) (text_of c.upt_type) c.upt_state c.datestr c.timestr

abbrev pub lacks_name : RecordCall → Bool
lacks_name c = is_blank c.upt_name || is_blank c.upt_type

-- The lines of the calls for what is installed whose file opens.
abbrev pub installed_lines : List RecordCall → Bytes
installed_lines [] = []
installed_lines (c ∷ cs) =
    (if lacks_name c || ((c.action == b'u') || not c.opens) then [] else line_of c)
    ++ installed_lines cs

-- The lines of the calls for what is not whose file opens, since the last call for what is
-- installed, behind those that were there.
abbrev pub pending_lines : Bytes → List RecordCall → Bytes
pending_lines there [] = there
pending_lines there (c ∷ cs) =
    pending_lines
      (if lacks_name c
        then there
        else if c.action == b'u'
        then there ++ (if c.opens then line_of c else [])
        else [])
      cs

-- The files behind a call with this line, by its three tests.
abbrev written : Bool → Bool → Bool → Bytes → Store → Store
written lacks pends opens line f =
    if lacks
    then f
    else if pends
    then append_to opens not_installed_log_file line f
    else put_file (append_to opens installed_log_file line f) not_installed_log_file none

module _ (line : Bytes) (f : Store) where
  written-installed :
      (lacks pends opens : Bool)
      → text_of (written lacks pends opens line f installed_log_file)
        ≡ text_of (f installed_log_file) ++ (if lacks || (pends || not opens) then [] else line)
  unfolding bytes_eq
  written-installed true pends opens = sym (append-nil _)
  written-installed false true true = sym (append-nil _)
  written-installed false true false = sym (append-nil _)
  written-installed false false true = refl
  written-installed false false false = sym (append-nil _)

  written-pending :
      (lacks pends opens : Bool)
      → text_of (written lacks pends opens line f not_installed_log_file) ≡ (
          if lacks
          then text_of (f not_installed_log_file)
          else if pends
          then text_of (f not_installed_log_file) ++ (if opens then line else [])
          else [])
  unfolding bytes_eq
  written-pending true pends opens = refl
  written-pending false true true = refl
  written-pending false true false = sym (append-nil _)
  written-pending false false true = refl
  written-pending false false false = refl

  written-other :
      (lacks pends opens : Bool) (q : Bytes)
      → bytes_eq installed_log_file q ≡ false
      → bytes_eq not_installed_log_file q ≡ false
      → written lacks pends opens line f q ≡ f q
  written-other true pends opens q h g = refl
  written-other false true true q h g = rw g refl
  written-other false true false q h g = refl
  written-other false false true q h g = rw (g, h) refl
  written-other false false false q h g = rw g refl

abbrev after_call : RecordCall → Store → Store
after_call c f =
    write_upt_reocord_file c.upt_name c.upt_type c.action c.upt_state c.datestr c.timestr c.opens f

after_call-written :
    (c : RecordCall) (f : Store)
    → after_call c f ≡ written (lacks_name c) (c.action == b'u') c.opens (line_of c) f
unfolding write_upt_reocord_file
after_call-written c f = refl

-- Behind any number of calls, the file of what is installed has the text that it had and then the
-- line of each call that has a name and a type and another action than u and whose file opens, in
-- their order. The file of what is not installed has the lines of the calls with u whose file opens
-- since the last call with another action, whether that one's file opened or not, behind the text
-- that it had if there was none. No other file is changed.
pub write_records-lines :
    (cs : List RecordCall) (f : Store)
    → (text_of (write_records cs f installed_log_file)
        ≡ text_of (f installed_log_file) ++ installed_lines cs)
      × (text_of (write_records cs f not_installed_log_file)
          ≡ pending_lines (text_of (f not_installed_log_file)) cs)
      × ((q : Bytes)
          → bytes_eq installed_log_file q ≡ false
          → bytes_eq not_installed_log_file q ≡ false
          → write_records cs f q ≡ f q)
unfolding write_records
write_records-lines [] f = (sym (append-nil _), refl, λ q h g. refl)
write_records-lines (c ∷ cs) f =
    let lacks = lacks_name c in
    let pends = c.action == b'u' in
    let (installed, pending, others) =
      write_records-lines cs (written lacks pends c.opens (line_of c) f) in
    rw (after_call-written c f) (
      installed
          ∙ (ap (λ t. t ++ installed_lines cs) (written-installed (line_of c) f lacks pends c.opens)
              ∙ append_assoc (text_of (f installed_log_file)) _ (installed_lines cs)),
      pending ∙ ap (λ t. pending_lines t cs) (written-pending (line_of c) f lacks pends c.opens),
      λ q h g. others q h g ∙ written-other (line_of c) f lacks pends c.opens q h g,
    )
