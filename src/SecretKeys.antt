-- ===== src/SecretKeys.antt =====
-- `derive_integrity_key`, `_validate_live_integrity_key_file`, `_configured_integrity_secret_hex` and
-- `configured_integrity_key` of src/replay_ledger.py. The messages leave out the text of an OSError.
pub mod Private
use agent_delegation_network.Crypto.{Crypto}
use agent_delegation_network.Prelude.{
  Bool, Exception, Option, Result, String, [], false, if◌then◌else◌, leb, none, not, ok, os_error,
  raise_if, raised, runtime_error, some, true, value_error, ℕ, ◌&&◌, ◌==◌, ◌>>=◌, ◌>>◌, ◌∷◌,
}
use agent_delegation_network.RuntimeSecurity.Mode.{RuntimeMode, live}
use agent_delegation_network.Text.Strings.{
  after_prefix, concat, concat_text, lower_text, strip_text,
}

-- What `lstat` and `stat` tell of a file.
pub record FileStat : Type 0 where
  pub is_link : Bool
  pub is_regular : Bool
  pub mode : ℕ
  pub uid : ℕ

-- A path: whether it is absolute, the status of the link and of the parent directory, and the text;
-- `none` is an OSError.
pub record KeyPath : Type 0 where
  pub is_absolute : Bool
  pub link_stat : Option FileStat
  pub parent_stat : Option FileStat
  pub content : Option String

-- The process: whether this is Windows, the user, where `geteuid` is there, and the file system.
pub record Host : Type 0 where
  pub is_windows : Bool
  pub euid : Option ℕ
  pub path_at : String → KeyPath

abbrev key_file_error : String → Exception
key_file_error s = runtime_error (concat_text "ADN_REPLAY_LEDGER_INTEGRITY_KEY_FILE " s)

abbrev pub is_number_of : ℕ → ℕ → Bool
is_number_of a b = leb a b && leb b a

unfoldable pub check_owner : Option ℕ → FileStat → FileStat → Result (Unit {0})
check_owner none link parent = ok tt
check_owner (some expected) link parent =
    raise_if (not (is_number_of link.uid expected))
      (key_file_error "must be owned by the service user")
    >> raise_if (not (is_number_of parent.uid expected))
        (key_file_error "parent must be owned by the service user")

-- 0600 is 384 and 0700 is 448.
unfoldable pub check_modes : Host → FileStat → FileStat → Result (Unit {0})
unfolding check_owner
check_modes host link parent =
    if host.is_windows
    then ok tt
    else raise_if (not (is_number_of link.mode 384))
        (key_file_error "must have 0600 permissions in live mode")
      >> raise_if (not (is_number_of parent.mode 448))
          (key_file_error "parent must have 0700 permissions in live mode")
      >> check_owner host.euid link parent

unfoldable pub check_link : Host → KeyPath → FileStat → Result (Unit {0})
unfolding check_modes
check_link host path link =
    raise_if link.is_link (key_file_error "must not be a symlink in live mode")
    >> raise_if (not link.is_regular) (key_file_error "must be a regular file in live mode")
    >> elim path.parent_stat [
      | none ↦ raised (key_file_error "parent is not readable")
      | some parent ↦ check_modes host link parent
    ]

unfoldable pub validate_live_integrity_key_file : Host → KeyPath → Result (Unit {0})
unfolding check_link
validate_live_integrity_key_file host path =
    raise_if (not path.is_absolute) (key_file_error "must be absolute in live mode")
    >> elim path.link_stat [
      | none ↦ raised (key_file_error "is not readable")
      | some link ↦ check_link host path link
    ]

-- `s.strip().removeprefix("0x").lower()`
unfoldable pub secret_of : String → String
unfolding strip_text after_prefix lower_text
secret_of s = elim (after_prefix "0x" (strip_text s)) [
  | none ↦ lower_text (strip_text s)
  | some rest ↦ lower_text rest
]

unfoldable pub read_secret : KeyPath → Result (Option String)
unfolding secret_of
read_secret path = elim path.content [
  | none ↦ raised (os_error "No such file or directory")
  | some content ↦ ok (some (secret_of content))
]

abbrev pub given_or_none : String → Option String
given_or_none s = if s == "" then none else some s

abbrev pub is_live : RuntimeMode → Bool
is_live live = true
is_live _ = false

-- `raw_secret` and `key_file` are the variables ADN_REPLAY_LEDGER_INTEGRITY_KEY_HEX and
-- ADN_REPLAY_LEDGER_INTEGRITY_KEY_FILE, "" where they are missing, and `mode` is the resolved mode.
unfoldable pub integrity_secret_for : Host → String → String → RuntimeMode → Result (Option String)
unfolding validate_live_integrity_key_file read_secret secret_of strip_text
integrity_secret_for host raw_secret key_file mode =
    raise_if (is_live mode && not (strip_text raw_secret == ""))
      (runtime_error "ADN_REPLAY_LEDGER_INTEGRITY_KEY_HEX is not accepted in live mode")
    >> raise_if (is_live mode && strip_text key_file == "")
        (key_file_error "is required in live mode")
    >> (if strip_text key_file == ""
        then ok (given_or_none (secret_of raw_secret))
        else (if is_live mode
            then validate_live_integrity_key_file host (host.path_at (strip_text key_file))
            else ok tt)
          >> read_secret (host.path_at (strip_text key_file)))

unfoldable pub configured_integrity_secret_hex :
    Host → String → String → Result RuntimeMode → Result (Option String)
unfolding integrity_secret_for
configured_integrity_secret_hex host raw_secret key_file mode =
    mode >>= integrity_secret_for host raw_secret key_file

module _ (c : Crypto) where
  unfoldable pub derive_integrity_key : Option String → String → Result (Option String)
  unfolding concat
  derive_integrity_key none domain = ok none
  derive_integrity_key (some secret) domain =
      if secret == ""
      then ok none
      else elim (c.hmac_sha256 secret
          (concat ("adn.replay-ledger.integrity" ∷ "." ∷ domain ∷ []))) [
            | none ↦ raised (value_error "non-hexadecimal number found in fromhex() arg")
            | some key ↦ ok (some key)
          ]

  unfoldable pub configured_integrity_key :
      Host → String → String → Result RuntimeMode → String → Result (Option String)
  unfolding configured_integrity_secret_hex derive_integrity_key
  configured_integrity_key host raw_secret key_file mode domain =
      configured_integrity_secret_hex host raw_secret key_file mode
      >>= (λ secret. derive_integrity_key secret domain)
