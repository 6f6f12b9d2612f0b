-- ===== src/Std.antt =====
-- What the program takes from Go's standard library and is not modelled here: regular expressions,
-- URLs, durations, templates, IP addresses, and the text of an error. A function of this record may
-- be any function; a theorem that needs more of one states it as a hypothesis.
use Prim.Native.Char.{Char}
use resource_action_operator.Prelude.{String, Bool, List, Option, ℕ, Result, Check, Error}
use resource_action_operator.Prelude.Int.{ℤ}

-- The parts of a url.URL that the code reads: Scheme and Hostname().
pub record Url : Type 0 where
  pub scheme : String
  pub hostname : String

-- A net.IP: an address that To4 takes has four bytes, another one has sixteen.
pub data Ip : Type 0 where
  v4 : ℕ → ℕ → ℕ → ℕ → Ip
  v6 : List ℕ → Ip

-- A unstructured.Unstructured: what its accessors return, and the object as a text for templates.
pub record Unstructured : Type 0 where
  pub uid : String
  pub name : String
  pub namespace : String
  pub labels : List (String × String)
  pub object : String

-- A compiled regexp.Regexp is its MatchString.
abbrev pub Regexp : Type 0
Regexp = String → Bool

pub record Std : Type 0 where
  pub compile : String → Result Regexp  -- regexp.Compile
  pub parse_url : String → Result Url  -- url.Parse
  pub parse_duration : String → Result ℤ  -- time.ParseDuration, in nanoseconds
  pub parse_ip : String → Option Ip  -- net.ParseIP
  pub parse_template : String → Result (String → Result String)  -- template.Parse, then Execute
  pub lower_rune : Char → Char  -- unicode.ToLower outside ASCII
  pub canonical_header : String → String  -- the canonical form of a key in Header.Set
  pub new_request : String → String → Check  -- http.NewRequest of a method and a URL
  pub append_certs : String → Bool  -- CertPool.AppendCertsFromPEM
  pub key_pair : String → String → Check  -- tls.X509KeyPair
  pub is_timeout : Error → Bool  -- net.Error with Timeout()
  pub error_text : Error → String  -- err.Error()
  pub is_not_found : Error → Bool  -- apierrors.IsNotFound
  pub group_version : String → String → String  -- schema.GroupVersion.String()
