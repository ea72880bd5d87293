-- ===== src/Consumer/Versions.antt =====
-- consumer/src/main.c: the version file before and after a run.
use fota_secure.Base.{
  ◌≡◌, ◌⊎◌, inl, inr, refl, sym, ap, ◌∙◌, subst, true, Option, some, arith, Bytes, pos,
}
use fota_secure.Device.{Device, ReadsBack}
use fota_secure.Extract.{write_entries}
use fota_secure.Fcrypto.{Libcrypto}
use fota_secure.Gunzip.{Zlib, IsInflate}
use fota_secure.Header.{Header, HeaderResult, header_parse}
use fota_secure.Install.{Result, ok, err}
use fota_secure.Version.{Version, ParseResult, version_parse}
use fota_secure.Version.Compare.{IsOlder}
use fota_secure.Version.Downgrade.{IsOverride, downgrade_check_iff}
use fota_secure.VersionFile.{
  no_version, ReadResult, version_read_installed, version_write_installed,
  read_downgrade_secret_hash,
}
use fota_secure.VersionFile.Reads.{version_read_installed-IsVersion}
use fota_secure.VersionFile.RoundTrip.{version_parse-IsVersion, read-write_installed}
use fota_secure.Consumer.{
  Exit, success, leave, Memory, check_header, open_package, record_version, run, version_file,
  downgrade_secret_hash_file, install_dir, unset_header, platform_tag_matches,
}
use fota_secure.Consumer.Failures.{install_result_to_exit_code-ne-success}
use fota_secure.Consumer.Opened.{IsAdmitted}
use fota_secure.Consumer.Safety.{finish, IsInstalling, run_cases}

module _ (D : Device) (C : Libcrypto) (mem : Memory) where
  pub record_version-eq-success :
      (new : Version) (s s' : D.State)
      → record_version D C mem new s ≡ (success, s')
      → ((version_write_installed D (some version_file) (some new) s).0 ≡ pos 0)
        × ((version_write_installed D (some version_file) (some new) s).1 ≡ s')
  unfolding record_version
  record_version-eq-success new s s' e = ground arith

  pub finish-eq-success :
      (new : Version) (r : Result (Unit {0}) × D.State) (s' : D.State)
      → finish D C mem new r ≡ (success, s')
      → (r.0 ≡ ok tt) × (record_version D C mem new r.1 ≡ (success, s'))
  finish-eq-success new (err why, s) s' e =
      absurd (install_result_to_exit_code-ne-success why (ap (λ (r : Exit × D.State). r.0) e))
  finish-eq-success new (ok u, s) s' e = (refl, e)

  module _ (Z : Zlib) (law : IsInflate Z) (keeps : ReadsBack D) (d : Bytes) (secret : Option Bytes)
      (s : D.State) where
    -- The version file went from one version to that of the package, and the step was allowed.
    pub record IsUpdate (s' : D.State) : Type 0 where
      pub installing : IsInstalling D C mem Z law d secret s (success, s')
      pub installed : Version
      pub before : version_read_installed D (some version_file) s ≡ (ReadResult.ok, installed)
      pub after : version_read_installed D (some version_file) s' ≡ (ReadResult.ok, installing.new)
      pub allowed :
          IsOlder installed.parts installing.new.parts
          ⊎ (IsOlder installing.new.parts installed.parts
              × IsOverride C.sha256 secret
                  (read_downgrade_secret_hash D downgrade_secret_hash_file s))
      pub written : (write_entries D install_dir installing.entries s).0 ≡ ok tt

    allowed-of-IsAdmitted :
        (header : Header) (new : Version) (a : IsAdmitted D C mem d secret s header new)
        → IsOlder a.installed.parts new.parts
          ⊎ (IsOlder new.parts a.installed.parts
              × IsOverride C.sha256 secret
                  (read_downgrade_secret_hash D downgrade_secret_hash_file s))
    allowed-of-IsAdmitted header new a =
        let four = (version_parse-IsVersion header.fw_version no_version new a.versioned).four in
        let four' =
          (version_read_installed-IsVersion D (some version_file) s a.installed
            a.installed_read).four in
        (downgrade_check_iff C.sha256 new a.installed (four ∙ sym four') secret
            (read_downgrade_secret_hash D downgrade_secret_hash_file s)).0.0
          a.allowed

    IsInstalling-IsUpdate :
        (s' : D.State) → IsInstalling D C mem Z law d secret s (success, s') → IsUpdate s'
    IsInstalling-IsUpdate s' i =
        let a = i.opened.admitted in
        let wrote = write_entries D install_dir i.entries s in
        let (written, recorded) = finish-eq-success i.new wrote s' (sym i.finished) in
        let (zero_returned, same) = record_version-eq-success i.new wrote.1 s' recorded in
        let back =
          read-write_installed D keeps version_file i.new wrote.1
            (version_parse-IsVersion i.opened.header.fw_version no_version i.new a.versioned)
            zero_returned in
        record {
          installing = i;
          installed = a.installed;
          before = a.installed_read;
          after =
              subst (λ t. version_read_installed D (some version_file) t ≡ (ReadResult.ok, i.new))
                same back;
          allowed = allowed-of-IsAdmitted i.opened.header i.new a;
          written = written;
        }

    -- Under zlib's documented behaviour and on a file system that reads back what it took: after a
    -- run that ends in success, every file of the package was written, and the version file holds
    -- the version of the package, which is newer than the one before, or older and let in by the
    -- downgrade secret.
    pub run_success : (s' : D.State) → run D C mem Z d secret s ≡ some (success, s') → IsUpdate s'
    run_success s' e = elim (run_cases D C mem Z law d secret s) [
      | inl (x, failed, left) ↦ absurd (failed (first_same (sym left ∙ e)))
      | inr (result, ran, i) ↦
          IsInstalling-IsUpdate s'
            (subst (IsInstalling D C mem Z law d secret s) (some_same (sym ran ∙ e)) i)
    ]
      where
        some_same : {a b : Exit × D.State} → some a ≡ some b → a ≡ b
        some_same e = cc

        first_same :
            {x y : Exit} {t u : D.State}
            → ◌≡◌ {A = Option (Exit × D.State)} (some (x, t)) (some (y, u))
            → x ≡ y
        first_same e = cc

  module _ (d : Bytes) (secret : Option Bytes) (s : D.State) where
    check_header-same_version :
        (header : Header) (new : Version)
        → header_parse (some d) (some unset_header) ≡ (HeaderResult.ok, some header)
        → platform_tag_matches header.platform_tag ≡ true
        → version_parse (some header.fw_version) (some no_version) ≡ (ParseResult.ok, some new)
        → version_read_installed D (some version_file) s ≡ (ReadResult.ok, new)
        → check_header D C mem d secret s ≡ leave Exit.up_to_date
    unfolding check_header
    check_header-same_version header new parsed platform versioned read =
        let same =
          (downgrade_check_iff C.sha256 new new refl secret
              (read_downgrade_secret_hash D downgrade_secret_hash_file s)).1.1
            refl in
        rw (parsed, platform, versioned, read, same) refl

    run-leave :
        (Z : Zlib) (e : Exit)
        → check_header D C mem d secret s ≡ leave e
        → run D C mem Z d secret s ≡ some (e, s)
    unfolding run open_package
    run-leave Z e left = rw (left, run, open_package) refl

  module _ (Z : Zlib) (law : IsInflate Z) (keeps : ReadsBack D) (d : Bytes) where
    -- A package that was installed is not installed again: under zlib's documented behaviour and on
    -- a file system that reads back what it took, the run on the state that a successful run leaves
    -- behind exits with "up to date" and changes nothing, whatever downgrade secret it is given.
    pub run_again :
        (secret again : Option Bytes) (s s' : D.State)
        → run D C mem Z d secret s ≡ some (success, s')
        → run D C mem Z d again s' ≡ some (Exit.up_to_date, s')
    run_again secret again s s' e =
        let u = run_success Z law keeps d secret s s' e in
        let i = u.installing in
        let a = i.opened.admitted in
        run-leave d again s' Z Exit.up_to_date (
          check_header-same_version d again s' i.opened.header i.new a.parsed a.platform a.versioned
            u.after)
