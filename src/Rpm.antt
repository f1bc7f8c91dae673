-- ===== src/Rpm.antt =====
-- librpm as the package code uses it: an interface of operations, and the documented behaviour
-- that theorems rely on. Nothing of it is under daemon/.
-- The `RPMTAG_` constants that the package code names.
use isoft_package_installer.Base.{
  ◌==◌, if◌then◌else◌, Bytes, ℕ, ◌≡◌, Bool, false, ◌||◌, Option, none, some,
}

pub data Tag : Type 0 where
  name version release arch url disttag bugurl vcs disturl platform optflags : Tag
  group summary distribution vendor license packager description : Tag
  changelogtime changelogname changelogtext : Tag
  preinprog prein postinprog postin preunprog preun postunprog postun : Tag
  pretransprog pretrans posttransprog posttrans : Tag
  sourcerpm os rpmversion buildhost buildtime cookie : Tag
  requirename providename conflictname obsoletename : Tag

-- A number for each constant. Only that they differ and that none is 0 is used: the values are
-- librpm's.
abbrev pub number : Tag → ℕ
number Tag.name = 1
number Tag.version = 2
number Tag.release = 3
number Tag.arch = 4
number Tag.url = 5
number Tag.disttag = 6
number Tag.bugurl = 7
number Tag.vcs = 8
number Tag.disturl = 9
number Tag.platform = 10
number Tag.optflags = 11
number Tag.group = 12
number Tag.summary = 13
number Tag.distribution = 14
number Tag.vendor = 15
number Tag.license = 16
number Tag.packager = 17
number Tag.description = 18
number Tag.changelogtime = 19
number Tag.changelogname = 20
number Tag.changelogtext = 21
number Tag.preinprog = 22
number Tag.prein = 23
number Tag.postinprog = 24
number Tag.postin = 25
number Tag.preunprog = 26
number Tag.preun = 27
number Tag.postunprog = 28
number Tag.postun = 29
number Tag.pretransprog = 30
number Tag.pretrans = 31
number Tag.posttransprog = 32
number Tag.posttrans = 33
number Tag.sourcerpm = 34
number Tag.os = 35
number Tag.rpmversion = 36
number Tag.buildhost = 37
number Tag.buildtime = 38
number Tag.cookie = 39
number Tag.requirename = 40
number Tag.providename = 41
number Tag.conflictname = 42
number Tag.obsoletename = 43

abbrev pub same_tag : Tag → Tag → Bool
same_tag t u = number t == number u

-- One dependency: the name, its version and the `RPMSENSE_` flags that the program sets, which
-- are three of a word of bits.
pub record Sense : Type 0 where
  pub equal : Bool
  pub less : Bool
  pub rpmlib : Bool

pub record Dependency : Type 0 where
  pub name : Bytes
  pub evr : Bytes
  pub sense : Sense

-- `Header` and its functions, and `rpmds`, a set of dependencies of one tag.
pub record Rpm : Type 1 where
  pub Header : Type 0
  pub header_new : Header
  pub header_put_string : Header → Tag → Bytes → Header
  pub header_put_uint32 : Header → Tag → ℕ → Header
  pub header_add_i18n_string : Header → Tag → Bytes → Bytes → Header
  pub header_get_string : Header → Tag → Option Bytes
  pub header_nvr : Header → Bytes
  pub header_evr : Header → Bytes
  pub Ds : Type 0
  pub ds_this : Header → Ds
  pub ds_tag_n : Ds → ℕ
  pub ds_single : Tag → Dependency → Ds
  pub ds_merge : Option Ds → Ds → Ds
  pub ds_holds : Ds → Dependency → Bool

-- What is relied on. A string that is put under a tag which the header lacks is found there, and
-- nothing else changes; a string of a language is no string of another tag.
pub record IsLawful (R : Rpm) : Type 0 where
  pub get-new : (t : Tag) → R.header_get_string R.header_new t ≡ none
  pub get-put :
      (h : R.Header) (t u : Tag) (v : Bytes)
      → R.header_get_string h t ≡ none
      → R.header_get_string (R.header_put_string h t v) u
        ≡ (if same_tag t u then some v else R.header_get_string h u)
  pub get-put_uint32 :
      (h : R.Header) (t u : Tag) (v : ℕ)
      → same_tag t u ≡ false
      → R.header_get_string (R.header_put_uint32 h t v) u ≡ R.header_get_string h u
  pub tag_n-single : (t : Tag) (x : Dependency) → R.ds_tag_n (R.ds_single t x) ≡ number t
  pub tag_n-merge_none : (n : R.Ds) → R.ds_tag_n (R.ds_merge none n) ≡ R.ds_tag_n n
  pub tag_n-merge_some : (d n : R.Ds) → R.ds_tag_n (R.ds_merge (some d) n) ≡ R.ds_tag_n d
  pub holds-merge_none :
      (n : R.Ds) (x : Dependency) → R.ds_holds (R.ds_merge none n) x ≡ R.ds_holds n x
  pub holds-merge_some :
      (d n : R.Ds) (x : Dependency)
      → R.ds_tag_n d ≡ R.ds_tag_n n
      → R.ds_holds (R.ds_merge (some d) n) x ≡ (R.ds_holds d x || R.ds_holds n x)
