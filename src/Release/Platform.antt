-- ===== src/Release/Platform.antt =====
-- What the release scripts call and do not implement: `json.loads`, Python's print of lists and
-- dicts, its Unicode tables, `posixpath.normpath`, and the readers of ZIP and tar archives.
use Prim.Native.Char.{Char}
use agent_delegation_network.Crypto.{Crypto}
use agent_delegation_network.Json.{Json}
use agent_delegation_network.Prelude.{Bool, List, Option, Result, String, none, some, ℕ}
use agent_delegation_network.Prelude.Dict.{Dict}
use agent_delegation_network.Text.Strings.{decimal, str_of, strip_lower, strip_text}

-- An entry of a tar archive; `content` is `none` where `extractfile` returns no stream.
pub record Member : Type 0 where
  pub name : String
  pub is_file : Bool
  pub content : Option (List ℕ)

pub record Platform : Type 0 where
  pub crypto : Crypto
  -- `json.loads(b.decode("utf-8"))`
  pub loads : List ℕ → Result Json
  -- `str(v)` of a list or a dict
  pub repr : Json → String
  -- `s.isdigit()`
  pub is_digit : String → Bool
  -- whether `\d` of `re` matches
  pub is_decimal : Char → Bool
  -- `posixpath.normpath(s)`
  pub normpath : String → String
  -- the entries of a ZIP archive and of a tar archive; `none` is a BadZipFile or a TarError
  pub open_zip : List ℕ → Option (Dict (List ℕ))
  pub open_tar : List ℕ → Option (List Member)

-- ADN_RELEASE_OPERATOR_PUBLIC_KEY_HEX and ADN_RELEASE_REPOSITORY, each of which may be missing.
pub record Settings : Type 0 where
  pub operator_key : Option String
  pub repository : Option String

abbrev pub default_repository : String
default_repository = "KAGEROU1107/agent-delegation-network"

-- `os.environ.get("ADN_RELEASE_REPOSITORY", DEFAULT).strip()`
unfoldable pub repository_of : Settings → String
unfolding strip_text
repository_of s = elim s.repository [ none ↦ strip_text default_repository | some r ↦ strip_text r ]

-- `os.environ.get("ADN_RELEASE_OPERATOR_PUBLIC_KEY_HEX", "").strip().lower()`
unfoldable pub pinned_key_of : Settings → String
unfolding strip_lower
pinned_key_of s = elim s.operator_key [ none ↦ "" | some k ↦ strip_lower k ]

module _ (p : Platform) where
  -- `str(v)`
  unfoldable pub py_str : Json → String
  unfolding decimal
  py_str v = str_of p.repr v
