-- ===== src/Debresolve/Members.antt =====
-- The loop of `extracthalf` of daemon/debresolve.c over the members of the archive.
use isoft_package_installer.Base.{
  ltb, ◌==◌, if◌then◌else◌, Bytes, codes, bytes_eq, starts_with, length, take, drop, ℕ, zero, suc,
  ◌+◌, ◌%◌, Bool, true, false, not, ◌&&◌, Option, none, some, [], ◌∷◌, c_string,
}
use isoft_package_installer.Debresolve.Reading.{up_to_newline}

-- `enum compressor_type` of libdpkg, as far as the code tells them apart.
pub data Compressor : Type 0 where
  unknown uncompressed gzip xz another : Compressor

-- libdpkg: what is read from the bytes of a member's header (the name after
-- `dpkg_ar_normalize_name`), the version in a text, and the compressor for an extension.
pub record Libdpkg : Type 0 where
  pub ar_magic : Bytes
  pub member_name : Bytes → Bytes
  pub member_is_illegal : Bytes → Bool
  pub member_size : Bytes → ℕ
  pub version_parse : Bytes → Option (ℕ × ℕ)
  pub find_by_extension : Bytes → Compressor

-- `sizeof (struct ar_hdr)`
abbrev pub header_size : ℕ
header_size = 60

abbrev pub debmagic : Bytes
debmagic = codes "debian-binary"

abbrev pub adminmember : Bytes
adminmember = codes "control.tar"

abbrev pub datamember : Bytes
datamember = codes "data.tar"

-- `memberlen + (memberlen & 1)`
abbrev pub padded : ℕ → ℕ
padded n = n + n % 2

-- The variables of the loop: the version once the first member was read, whether the last member
-- was the control member (`adminmember` is -1 at first), and `ctrllennum`.
pub record Seen : Type 0 where
  pub version : Option (ℕ × ℕ)
  pub last_is_admin : Option Bool
  pub ctrllennum : ℕ

-- A member that was found: its length, its compressor, the version and the bytes from its content
-- on.
pub record Member : Type 0 where
  pub memberlen : ℕ
  pub decompressor : Compressor
  pub deb_version : ℕ × ℕ
  pub content : Bytes

-- The content of the first member must hold a line with the version 2 of the format.
unfoldable pub version_of : Libdpkg → Bytes → Option (ℕ × ℕ)
unfolding up_to_newline c_string
version_of k infobuf = elim (up_to_newline (c_string infobuf)) [
  | none ↦ none
  | some t ↦ elim (k.version_parse infobuf) [
    | none ↦ none
    | some (major, minor) ↦ if major == 2 then some (major, minor) else none
  ]
]

unfoldable pub read_version : Libdpkg → ℕ → Bytes → Option (ℕ × ℕ)
unfolding version_of
read_version k size left =
    if ltb (length left) (padded size) then none else version_of k (take size left)

abbrev pub allowed_for_control : Compressor → Bool
allowed_for_control uncompressed = true
allowed_for_control gzip = true
allowed_for_control xz = true
allowed_for_control c = false

abbrev pub is_known : Compressor → Bool
is_known unknown = false
is_known c = true

-- Which of the two members this is, with its compressor; `none` where the code returns -1.
unfoldable pub classify : Libdpkg → Option Bool → Bytes → Option (Bool × Compressor)
unfolding starts_with
classify k last_is_admin name =
    let c = k.find_by_extension (drop (length adminmember) name) in
    if starts_with adminmember name
    then (if allowed_for_control c then some (true, c) else none)
    else elim last_is_admin [
      | some true ↦
          let c = k.find_by_extension (drop (length datamember) name) in
          if starts_with datamember name && is_known c then some (false, c) else none
      | _ ↦ none
    ]

abbrev pub is_underscored : Bytes → Bool
is_underscored [] = false
is_underscored (c ∷ s) = c == b'_'

-- What is done with one member behind the first: go on behind it, stop with an error, or stop at it.
pub data Verdict : Type 0 where
  skip : Seen → Verdict
  refuse : Verdict
  take_it : Compressor → Verdict

abbrev same_bool : Bool → Bool → Bool
same_bool true b = b
same_bool false b = not b

-- `wants_admin` is `admininfo != 0`.
unfoldable pub judge : Libdpkg → Bool → Seen → Bytes → ℕ → Verdict
unfolding classify
judge k wants_admin s name size =
    if is_underscored name then skip s else elim (classify k s.last_is_admin name) [
      | none ↦ refuse
      | some (is_admin, c) ↦
          if is_admin && not (s.ctrllennum == 0)
          then refuse
          else let len = if is_admin then size else s.ctrllennum in
            if same_bool is_admin wants_admin
            then take_it c
            else skip (record s { last_is_admin = some is_admin; ctrllennum = len })
    ]

-- What a round of the loop does once it has a header.
pub data Round : Type 0 where
  fail : Round
  next : Seen → Round
  found : Member → Round

unfoldable pub at_verdict : ℕ → ℕ × ℕ → Bytes → Verdict → Round
at_verdict size v body refuse = fail
at_verdict size v body (skip s) = next s
at_verdict size v body (take_it c) =
    found (record { memberlen = size; decompressor = c; deb_version = v; content = body })

unfoldable pub at_first : Libdpkg → Seen → Bytes → ℕ → Bytes → Round
unfolding read_version
at_first k s name size body =
    let checked : Round = elim (read_version k size body) [
      | none ↦ fail
      | some v ↦ next (record s { version = some v })
    ] in
    if bytes_eq name debmagic then checked else fail

-- A round at a header and the bytes behind it.
unfoldable pub round : Libdpkg → Bool → Seen → Bytes → Bytes → Round
unfolding at_first at_verdict judge
round k wants_admin s header body = if k.member_is_illegal header then fail else elim s.version [
  | none ↦ at_first k s (k.member_name header) (k.member_size header) body
  | some v ↦
      at_verdict (k.member_size header) v body
        (judge k wants_admin s (k.member_name header) (k.member_size header))
]

-- The loop: `none` where the fuel runs out, `some none` where the code returns -1. A round reads a
-- header, so as many rounds as there are bytes are enough.
unfoldable pub members : Libdpkg → Bool → ℕ → Seen → Bytes → Option (Option Member)
unfolding round
members k wants_admin zero s left = none
members k wants_admin (suc f) s left =
    let header = take header_size left in
    let body = drop header_size left in
    if ltb (length left) header_size then some none else elim (round k wants_admin s header body) [
      | fail ↦ some none
      | found m ↦ some (some m)
      | next s' ↦ members k wants_admin f s' (drop (padded (k.member_size header)) body)
    ]

abbrev pub nothing_seen : Seen
nothing_seen = record { version = none; last_is_admin = none; ctrllennum = 0 }
