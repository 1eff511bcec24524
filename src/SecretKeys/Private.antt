-- ===== src/SecretKeys/Private.antt =====
-- What a key that live mode takes says of its file (src/replay_ledger.py).
use agent_delegation_network.Prelude.{
  >>-eq-ok, Option, String, arith, false, ok, some, true, ℕ, ◌==◌, ◌>>◌, ◌≡◌,
}
use agent_delegation_network.RuntimeSecurity.Mode.{live}
use agent_delegation_network.SecretKeys.{
  FileStat, Host, KeyPath, check_link, check_modes, check_owner, configured_integrity_secret_hex,
  integrity_secret_for, read_secret, validate_live_integrity_key_file,
}
use agent_delegation_network.Text.Strings.{strip_text}

-- The file is one that only the service user can read, in a directory of its own.
pub record IsPrivate (path : KeyPath) (user : ℕ) : Type 0 where
  pub absolute : path.is_absolute ≡ true
  pub link : FileStat
  pub link_is : path.link_stat ≡ some link
  pub no_link : link.is_link ≡ false
  pub regular : link.is_regular ≡ true
  pub owner : link.uid ≡ user
  pub file_mode : link.mode ≡ 384
  pub parent : FileStat
  pub parent_is : path.parent_stat ≡ some parent
  pub parent_owner : parent.uid ≡ user
  pub parent_mode : parent.mode ≡ 448

check_modes_ok :
    (host : Host) (user : ℕ) (link parent : FileStat)
    → host.is_windows ≡ false
    → host.euid ≡ some user
    → check_modes host link parent ≡ ok tt
    → (link.uid ≡ user) × (link.mode ≡ 384) × (parent.uid ≡ user) × (parent.mode ≡ 448)
unfolding check_modes check_owner
check_modes_ok host user link parent posix user_known h = ground arith

check_link_ok :
    (host : Host) (path : KeyPath) (link : FileStat)
    → check_link host path link ≡ ok tt
    → (link.is_link ≡ false)
      × (link.is_regular ≡ true)
      × ((parent : FileStat) × (path.parent_stat ≡ some parent)
          × (check_modes host link parent ≡ ok tt))
unfolding check_link
check_link_ok host path link h = ground arith

found_link :
    (host : Host) (path : KeyPath)
    → validate_live_integrity_key_file host path ≡ ok tt
    → (path.is_absolute ≡ true)
      × ((link : FileStat) × (path.link_stat ≡ some link) × (check_link host path link ≡ ok tt))
unfolding validate_live_integrity_key_file
found_link host path h = ground arith

validate_ok :
    (host : Host) (user : ℕ) (path : KeyPath)
    → host.is_windows ≡ false
    → host.euid ≡ some user
    → validate_live_integrity_key_file host path ≡ ok tt
    → IsPrivate path user
unfolding validate_live_integrity_key_file
validate_ok host user path posix user_known h =
    let (absolute, (link, link_is, h1)) = found_link host path h in
    let (no_link, regular, (parent, parent_is, h2)) = check_link_ok host path link h1 in
    let (owner, file_mode, parent_owner, parent_mode) =
      check_modes_ok host user link parent posix user_known h2 in
    record {
      absolute = absolute;
      link = link;
      link_is = link_is;
      no_link = no_link;
      regular = regular;
      owner = owner;
      file_mode = file_mode;
      parent = parent;
      parent_is = parent_is;
      parent_owner = parent_owner;
      parent_mode = parent_mode;
    }

live_branch :
    (host : Host) (raw_secret key_file : String) (secret : Option String)
    → configured_integrity_secret_hex host raw_secret key_file (ok live) ≡ ok secret
    → ((strip_text raw_secret == "") ≡ true)
      × ((strip_text key_file == "") ≡ false)
      × ((validate_live_integrity_key_file host (host.path_at (strip_text key_file))
            >> read_secret (host.path_at (strip_text key_file)))
          ≡ ok secret)
unfolding configured_integrity_secret_hex integrity_secret_for
live_branch host raw_secret key_file secret h = ground arith

-- In live mode on a POSIX host, a secret is taken only from the configured file, and only if that is
-- an absolute regular file with mode 0600 in a directory with mode 0700, both owned by the service
-- user; a secret in the environment is refused.
pub live_secret-IsPrivate :
    (host : Host) (user : ℕ) (raw_secret key_file : String) (secret : Option String)
    → host.is_windows ≡ false
    → host.euid ≡ some user
    → configured_integrity_secret_hex host raw_secret key_file (ok live) ≡ ok secret
    → ((strip_text raw_secret == "") ≡ true)
      × ((strip_text key_file == "") ≡ false)
      × IsPrivate (host.path_at (strip_text key_file)) user
      × (read_secret (host.path_at (strip_text key_file)) ≡ ok secret)
live_secret-IsPrivate host user raw_secret key_file secret posix user_known h =
    let path = host.path_at (strip_text key_file) in
    let (no_secret, file_given, h1) = live_branch host raw_secret key_file secret h in
    let (valid, read) =
      >>-eq-ok (validate_live_integrity_key_file host path) (read_secret path) h1 in
    (no_secret, file_given, validate_ok host user path posix user_known valid, read)
